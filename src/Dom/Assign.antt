-- ===== src/Dom/Assign.antt =====
-- src/pm_dom.c, include/pmd.h.in: the columns of diagnostics behind a sequence of macro calls.
use ops_pmd.Base.{
  ℕ, ◌≡◌, refl, ◌⊎◌, inl, inr, Bool, true, false, Option, none, some, List, [], ◌∷◌, CString, codes,
  ◌==◌, if◌then◌else◌, arith, All, Option-cases, Bool-cases, ◌∙◌, sym, str_eq→eq,
}
use ops_pmd.Float.{Float, eq_long, print_float}
use ops_pmd.Format.{strtol}
use ops_pmd.Port.{DomColumn, dom_index, PmPort, set_float_string, set_flag_string, set_bool_string}
use ops_pmd.Dom.{Assignment, float_string, bool_string, assign, assign_all}

abbrev pub target : Assignment → DomColumn
target (float_string c v) = c
target (bool_string c b) = c

abbrev pub on_off : Bool → CString
on_off b = if b then codes "On" else codes "Off"

-- A column holds a value: as the text of the value, or as the text that was there before, where
-- `strtol` reads that as the value.
abbrev pub HoldsFloat : Option CString → Float → Option CString → Type 0
HoldsFloat before v after =
    (after ≡ some (print_float v))
    ⊎ ((text : CString) × (before ≡ some text)
        × (after ≡ some text)
        × (eq_long (strtol text) v ≡ true))

-- What a call leaves in its column.
abbrev pub Holds : PmPort → PmPort → Assignment → Type 0
Holds p q (float_string c v) =
    HoldsFloat (p.ovs_module_dom_columns c) v (q.ovs_module_dom_columns c)
Holds p q (bool_string c b) = q.ovs_module_dom_columns c ≡ some (on_off b)

set_float_string-Holds :
    (c : DomColumn) (v : Float) (p : PmPort)
    → HoldsFloat (p.ovs_module_dom_columns c) v ((set_float_string c v p).ovs_module_dom_columns c)
unfolding set_float_string
set_float_string-Holds c v p = elim (Option-cases (p.ovs_module_dom_columns c)) [
  | inl e ↦ inl (ground arith)
  | inr (old, e) ↦ elim (Bool-cases (eq_long (strtol old) v)) [
    | inl s ↦ inr (old, e, ground arith, s)
    | inr s ↦ inl (ground arith)
  ]
]

set_flag_string_lem :
    (c : DomColumn) (v : CString) (p : PmPort)
    → (set_flag_string c v p).ovs_module_dom_columns c ≡ some v
unfolding set_flag_string
set_flag_string_lem c v p = elim (Option-cases (p.ovs_module_dom_columns c)) [
  | inl e ↦ ground arith
  | inr (old, e) ↦ ground (arith, str_eq→eq old v)
]

assign-Holds : (call : Assignment) (p : PmPort) → Holds p (assign call p) call
assign-Holds (float_string c v) p = set_float_string-Holds c v p
assign-Holds (bool_string c true) p = unfold set_bool_string in set_flag_string_lem c (codes "On") p
assign-Holds (bool_string c false) p =
    unfold set_bool_string in set_flag_string_lem c (codes "Off") p

assign_ne :
    (call : Assignment) (d : DomColumn) (p : PmPort)
    → (dom_index (target call) == dom_index d) ≡ false
    → (assign call p).ovs_module_dom_columns d ≡ p.ovs_module_dom_columns d
unfolding set_float_string set_flag_string set_bool_string
assign_ne (float_string c v) d p h = ground arith
assign_ne (bool_string c b) d p h = ground arith

-- Everything of a port but its columns of diagnostics and its mark.
abbrev pub rest_dom : PmPort → PmPort
rest_dom p = record p { ovs_module_dom_columns = λ _. none; module_info_changed = false }

assign-rest : (call : Assignment) (p : PmPort) → rest_dom (assign call p) ≡ rest_dom p
unfolding set_float_string set_flag_string set_bool_string
assign-rest (float_string c v) p = ground arith
assign-rest (bool_string c b) p = ground arith

pub assign_all-rest :
    (calls : List Assignment) (p : PmPort) → rest_dom (assign_all calls p) ≡ rest_dom p
unfolding assign_all
assign_all-rest [] p = refl
assign_all-rest (call ∷ calls) p = assign_all-rest calls (assign call p) ∙ assign-rest call p

-- Whether no call of a list is about the column with an index.
unfoldable pub fresh : ℕ → List Assignment → Bool
fresh i [] = true
fresh i (call ∷ calls) = if dom_index (target call) == i then false else fresh i calls

-- Whether all calls are about different columns.
unfoldable pub distinct : List Assignment → Bool
distinct [] = true
distinct (call ∷ calls) = if fresh (dom_index (target call)) calls then distinct calls else false

fresh-cons :
    (i : ℕ) (call : Assignment) (calls : List Assignment)
    → fresh i (call ∷ calls) ≡ true
    → ((dom_index (target call) == i) ≡ false) × (fresh i calls ≡ true)
unfolding fresh
fresh-cons i call calls h = (ground arith, ground arith)

distinct-cons :
    (call : Assignment) (calls : List Assignment)
    → distinct (call ∷ calls) ≡ true
    → (fresh (dom_index (target call)) calls ≡ true) × (distinct calls ≡ true)
unfolding distinct
distinct-cons call calls h = (ground arith, ground arith)

-- A sequence that is not about a column leaves it.
pub assign_all-fresh :
    (calls : List Assignment) (d : DomColumn) (p : PmPort)
    → fresh (dom_index d) calls ≡ true
    → (assign_all calls p).ovs_module_dom_columns d ≡ p.ovs_module_dom_columns d
unfolding assign_all
assign_all-fresh [] d p h = refl
assign_all-fresh (call ∷ calls) d p h =
    let (ne, f) = fresh-cons (dom_index d) call calls h in
    assign_all-fresh calls d (assign call p) f ∙ assign_ne call d p ne

-- The columns of a call before and after may be taken elsewhere where they are the same.
Holds-same :
    (call : Assignment) (p p' q q' : PmPort)
    → p.ovs_module_dom_columns (target call) ≡ p'.ovs_module_dom_columns (target call)
    → q'.ovs_module_dom_columns (target call) ≡ q.ovs_module_dom_columns (target call)
    → Holds p q call
    → Holds p' q' call
Holds-same (float_string c v) p p' q q' a b (inl h) = inl (b ∙ h)
Holds-same (float_string c v) p p' q q' a b (inr (text, e, f, s)) = inr (text, sym a ∙ e, b ∙ f, s)
Holds-same (bool_string c v) p p' q q' a b h = b ∙ h

-- The calls behind one that is about another column.
All-Holds-behind :
    (call : Assignment) (p q : PmPort) (calls : List Assignment)
    → fresh (dom_index (target call)) calls ≡ true
    → All (Holds (assign call p) q) calls
    → All (Holds p q) calls
All-Holds-behind call p q [] f h = tt
All-Holds-behind call p q (next ∷ calls) f h =
    let (ne, g) = fresh-cons (dom_index (target call)) next calls f in
    (
      Holds-same next (assign call p) p q q (assign_ne call (target next) p (ground arith)) refl
          h.0,
      All-Holds-behind call p q calls g h.1,
    )

-- Calls about different columns do not disturb each other.
pub assign_all-Holds :
    (calls : List Assignment) (p : PmPort)
    → distinct calls ≡ true
    → All (Holds p (assign_all calls p)) calls
unfolding assign_all
assign_all-Holds [] p d = tt
assign_all-Holds (call ∷ calls) p d =
    let (f, ds) = distinct-cons call calls d in
    let q = assign_all calls (assign call p) in
    (
      Holds-same call p p (assign call p) q refl
          (assign_all-fresh calls (target call) (assign call p) f) (assign-Holds call p),
      All-Holds-behind call p q calls f (assign_all-Holds calls (assign call p) ds),
    )
