-- ===== src/Dom/After.antt =====
-- src/pm_dom.c: what `pm_set_a2` leaves in the columns of a port.
use ops_pmd.Base.{
  ◌+◌, ◌*◌, ◌/◌, ◌%◌, ◌^◌, ◌≤◌, codes, get_or, CString, ℕ, ◌≡◌, refl, Bool, true, false, Option,
  none, some, List, [], ◌∷◌, ◌==◌, if◌then◌else◌, arith, All, Bool-cases, inl, inr, ap, ◌∙◌, subst,
}
use ops_pmd.Format.{hex_to_ascii}
use ops_pmd.Format.Hex.{IsByte}
use ops_pmd.Float.{Float, print_float}
use ops_pmd.A2.Degrees.{degrees, print_float-celsius}
use ops_pmd.A2.Decimals.{decimal, print_float-near}
use ops_pmd.Detect.Identity.{byte_at-IsByte}
use ops_pmd.Port.{Column, DomColumn, dom_index, PmPort, set_binary, put}
use ops_pmd.Detect.{Build, ModuleType, module_type}
use ops_pmd.Dom.{Assignment, float_string, bool_string, assign_all, assignments, pm_set_a2}
use ops_pmd.Dom.Assign.{
  target, HoldsFloat, Holds, fresh, distinct, assign_all-fresh, assign_all-Holds, assign_all-rest,
}
use ops_pmd.Dom.Memory.{
  Scale, in_degrees, in_ten_thousandths, in_two_thousandths, Place, number, bit, place, decode,
  call_for, find_call, entry, assignments-entry, assignments-distinct,
}

-- What a column holds after the call about it, or, without one, what it held before.
abbrev Became : PmPort → PmPort → DomColumn → Option Assignment → Type 0
Became p q c none = q.ovs_module_dom_columns c ≡ p.ovs_module_dom_columns c
Became p q c (some call) = Holds p q call

-- The text of a number in two bytes, the high one first: a temperature is shown as the high byte in whole
-- degrees, the rest as so many hundredths that the number is at most half a hundredth away.
abbrev pub ShowsNumber : Scale → ℕ → ℕ → CString → Type 0
ShowsNumber in_degrees high low text = text ≡ degrees high
ShowsNumber in_ten_thousandths high low text =
    (h : ℕ) × (text ≡ decimal h)
    × (100 * h ≤ 256 * high + low + 50)
    × (256 * high + low ≤ 100 * h + 50)
ShowsNumber in_two_thousandths high low text =
    (h : ℕ) × (text ≡ decimal h)
    × (2 * (5 * h) ≤ 2 * (256 * high + low) + 5)
    × (2 * (256 * high + low) ≤ 2 * (5 * h) + 5)

-- What a column holds after `pm_set_a2`, by the place that the memory map has for it: a flag as "On" or
-- "Off"; a number as a text that shows it, or as the text that was there, where SET_FLOAT_STRING takes
-- that for the same number; and what it held before, where the map has no place.
abbrev pub IsAfter : List ℕ → PmPort → PmPort → DomColumn → Option Place → Type 0
IsAfter page p q c none = q.ovs_module_dom_columns c ≡ p.ovs_module_dom_columns c
IsAfter page p q c (some (number s i)) =
    (v : Float) × ShowsNumber s (get_or page i 0) (get_or page (i + 1) 0) (print_float v)
    × HoldsFloat (p.ovs_module_dom_columns c) v (q.ovs_module_dom_columns c)
IsAfter page p q c (some (bit i k)) =
    q.ovs_module_dom_columns c
    ≡ some (if get_or page i 0 / 2 ^ k % 2 == 1 then codes "On" else codes "Off")

decode-ShowsNumber :
    (s : Scale) (page : List ℕ) (i : ℕ)
    → All IsByte page
    → ShowsNumber s (get_or page i 0) (get_or page (i + 1) 0) (print_float (decode s page i))
decode-ShowsNumber in_degrees page i bytes =
    print_float-celsius page i (byte_at-IsByte page i bytes) (byte_at-IsByte page (i + 1) bytes)
decode-ShowsNumber in_ten_thousandths page i bytes =
    let ((h, shown, low, high), _) =
      print_float-near page i (byte_at-IsByte page i bytes) (byte_at-IsByte page (i + 1) bytes) in
    (h, shown, omega arith, omega arith)
decode-ShowsNumber in_two_thousandths page i bytes =
    let (_, (h, shown, low, high)) =
      print_float-near page i (byte_at-IsByte page i bytes) (byte_at-IsByte page (i + 1) bytes) in
    (h, shown, omega arith, omega arith)

Became-IsAfter :
    (t : ModuleType) (page : List ℕ) (p q : PmPort) (c : DomColumn)
    → All IsByte page
    → Became p q c (entry t page c)
    → IsAfter page p q c (place t c)
Became-IsAfter t page p q c bytes = placed (place t c)
  where
    placed :
        (o : Option Place)
        → Became p q c (elim o [ none ↦ none | some at ↦ some (call_for page c at) ])
        → IsAfter page p q c o
    placed none h = h
    placed (some (number s i)) h = (decode s page i, decode-ShowsNumber s page i bytes, h)
    placed (some (bit i k)) h = h

find_call-All :
    (R : Assignment → Type 0) (i : ℕ) (calls : List Assignment) {call : Assignment}
    → All R calls
    → find_call i calls ≡ some call
    → R call
find_call-All R i [] h e = cc
find_call-All R i (next ∷ calls) {call} h e = elim (Bool-cases (dom_index (target next) == i)) [
  | inl s ↦ subst R (found _ _ _ _ s e) h.0
  | inr s ↦ find_call-All R i calls h.1 (ground arith)
]
  where
    found :
        (b : Bool) (x y : Assignment) (o : Option Assignment)
        → b ≡ true
        → (if b then some x else o) ≡ some y
        → x ≡ y
    found true x y o s e = ground arith
    found false x y o s e = cc

find_call-fresh :
    (i : ℕ) (calls : List Assignment) → find_call i calls ≡ none → fresh i calls ≡ true
unfolding fresh
find_call-fresh i [] e = refl
find_call-fresh i (call ∷ calls) e = ground (arith, find_call-fresh i calls)

assign_all-Became :
    (calls : List Assignment) (p q : PmPort) (c : DomColumn) (o : Option Assignment)
    → distinct calls ≡ true
    → q.ovs_module_dom_columns ≡ (assign_all calls p).ovs_module_dom_columns
    → find_call (dom_index c) calls ≡ o
    → Became p q c o
assign_all-Became calls p q c none d same e =
    ap (λ f. f c) same ∙ assign_all-fresh calls c p (find_call-fresh (dom_index c) calls e)
assign_all-Became calls p q c (some call) d same e =
    Holds-columns call p (assign_all calls p) q same (
      find_call-All (Holds p (assign_all calls p)) (dom_index c) calls (assign_all-Holds calls p d)
        e)
  where
    Holds-columns :
        (call : Assignment) (p r q : PmPort)
        → q.ovs_module_dom_columns ≡ r.ovs_module_dom_columns
        → Holds p r call
        → Holds p q call
    Holds-columns (float_string c v) p r q same h = elim h [
      | inl e ↦ inl (ap (λ f. f c) same ∙ e)
      | inr (text, a, b, s) ↦ inr (text, a, ap (λ f. f c) same ∙ b, s)
    ]
    Holds-columns (bool_string c b) p r q same h = ap (λ f. f c) same ∙ h

module _ (build : Build) where
  typed :
      (p : PmPort) {t : ModuleType}
      → module_type p ≡ some t
      → (name : CString) × (p.module_device.connector ≡ some name)
  unfolding module_type
  typed p e = ground arith

  pm_set_a2_lem :
      (page : List ℕ) (p : PmPort) (t : ModuleType)
      → p.module_device.pluggable ≡ true
      → module_type p ≡ some t
      → pm_set_a2 build page p ≡ set_binary true Column.a2 page (assign_all (assignments t page) p)
  unfolding pm_set_a2
  pm_set_a2_lem page p t h e = let (name, c) = typed p e in ground arith

  -- After `pm_set_a2` of a pluggable port of a known type, with a page of bytes, each column of
  -- diagnostics for which the memory map of such a module, SFF-8472 or SFF-8636, has a place shows what
  -- stands there: a flag as "On" or "Off"; a voltage, a power or a current right to half a hundredth;
  -- but a temperature only by its high byte, in whole degrees, without the fraction in the low byte. A
  -- number whose old text SET_FLOAT_STRING takes for it already keeps that text. Every other column of
  -- diagnostics stays as it was, the column `a2` is the text of the page, the port is marked, and
  -- nothing else of it changes.
  pub pm_set_a2-IsAfter :
      (page : List ℕ) (p : PmPort) (t : ModuleType) (c : DomColumn)
      → All IsByte page
      → p.module_device.pluggable ≡ true
      → module_type p ≡ some t
      → let q = pm_set_a2 build page p in
        IsAfter page p q c (place t c)
        × (q ≡ record p {
          ovs_module_columns = put Column.a2 (hex_to_ascii true page) p.ovs_module_columns;
          ovs_module_dom_columns = q.ovs_module_dom_columns;
          module_info_changed = true;
        })
  unfolding set_binary
  pm_set_a2-IsAfter page p t c bytes h e =
      let calls = assignments t page in
      let r = assign_all calls p in
      rw (pm_set_a2_lem page p t h e) (
        Became-IsAfter t page p (set_binary true Column.a2 page r) c bytes (
            assign_all-Became calls p (set_binary true Column.a2 page r) c (entry t page c)
              (assignments-distinct t page) refl (assignments-entry t page c)),
        ap
            (λ (x : PmPort). record x {
              ovs_module_columns = put Column.a2 (hex_to_ascii true page) x.ovs_module_columns;
              ovs_module_dom_columns = r.ovs_module_dom_columns;
              module_info_changed = true;
            })
            (assign_all-rest calls p),
      )
