-- ===== src/Base/Keys.antt =====
-- Association lists without a name that stands twice.
use mathlib.Core.Path.{◌≡◌, refl, sym, subst}
use mathlib.Core.Logic.{inl, inr}
use mathlib.Core.Bool.{Bool, true, false}
use mathlib.Core.Option.{Option, none, some}
use mathlib.Core.List.{List, [], ◌∷◌, ◌++◌}
use native.Mathlib.Omega.{arith}
use ops_pmd.Base.Tests.{if◌then◌else◌, Bool-cases}
use ops_pmd.Base.Lists.{All}
use ops_pmd.Base.Text.{CString, str_eq, str_eq_refl, str_eq→eq}
use ops_pmd.Base.Assoc.{find, delete_first, modify_first}

module _ {ℓ} {A : Type ℓ} where
  -- A name that stands nowhere.
  abbrev pub IsNew : CString → List (CString × A) → Type ℓ
  IsNew k m = find k m ≡ none

  abbrev pub HasUniqueKeys : List (CString × A) → Type ℓ
  HasUniqueKeys [] = Unit
  HasUniqueKeys ((k, v) ∷ m) = IsNew k m × HasUniqueKeys m

  find-modify_first :
      (j k : CString) (f : A → A) (m : List (CString × A))
      → IsNew j m
      → IsNew j (modify_first k f m)
  unfolding find modify_first
  find-modify_first j k f [] h = refl
  find-modify_first j k f ((i, v) ∷ m) h = ground (arith, find-modify_first j k f m)

  pub modify_first-HasUniqueKeys :
      (k : CString) (f : A → A) (m : List (CString × A))
      → HasUniqueKeys m
      → HasUniqueKeys (modify_first k f m)
  unfolding modify_first
  modify_first-HasUniqueKeys k f [] h = tt
  modify_first-HasUniqueKeys k f ((i, v) ∷ m) h = elim (Bool-cases (str_eq i k)) [
    | inl e ↦ rw e h
    | inr e ↦ rw e (find-modify_first i k f m h.0, modify_first-HasUniqueKeys k f m h.1)
  ]

  pub find-modify_ne :
      (j k : CString) (f : A → A) (m : List (CString × A))
      → str_eq k j ≡ false
      → find j (modify_first k f m) ≡ find j m
  unfolding find modify_first
  find-modify_ne j k f [] h = refl
  find-modify_ne j k f ((i, v) ∷ m) h =
      ground (arith, find-modify_ne j k f m, str_eq→eq i k, str_eq→eq i j)

  pub find-modify_self :
      (k : CString) (f : A → A) (m : List (CString × A)) (v : A)
      → find k m ≡ some v
      → find k (modify_first k f m) ≡ some (f v)
  unfolding find modify_first
  find-modify_self k f [] v h = cc
  find-modify_self k f ((i, u) ∷ m) v h = ground (arith, find-modify_self k f m v)

  -- The entry behind a prefix that lacks its name is the one that is deleted.
  pub delete_first-append :
      (k : CString) (v : A) (pre m : List (CString × A))
      → IsNew k pre
      → delete_first k (pre ++ ((k, v) ∷ m)) ≡ pre ++ m
  unfolding find delete_first
  delete_first-append k v [] m h = rw (str_eq_refl k)
  delete_first-append k v ((i, u) ∷ pre) m h = ground (arith, delete_first-append k v pre m)

  pub IsNew-append :
      (j k : CString) (v : A) (pre : List (CString × A))
      → IsNew j pre
      → str_eq k j ≡ false
      → IsNew j (pre ++ ((k, v) ∷ []))
  unfolding find
  IsNew-append j k v [] h e = rw e
  IsNew-append j k v ((i, u) ∷ pre) h e = ground (arith, IsNew-append j k v pre)

  pub first_value :
      (b : Bool) (u v : A) (o : Option A) → b ≡ true → (if b then some u else o) ≡ some v → u ≡ v
  first_value true u v o s e = ground arith
  first_value false u v o s e = cc

module _ {ℓ κ} {A : Type ℓ} (Q : CString × A → Type κ) where
  -- A change of the entry that `find` returns.
  pub modify_first-All :
      (k : CString) (f : A → A) (m : List (CString × A)) {v : A}
      → find k m ≡ some v
      → ((j : CString) → Q (j, v) → Q (j, f v))
      → All Q m
      → All Q (modify_first k f m)
  unfolding find modify_first
  modify_first-All k f [] e keep h = h
  modify_first-All k f ((i, u) ∷ m) {v} e keep h = elim (Bool-cases (str_eq i k)) [
    | inl s ↦
        let same : u ≡ v = first_value _ _ _ _ s e in
        rw s (subst (λ x. Q (i, x) → Q (i, f x)) (sym same) (keep i) h.0, h.1)
    | inr s ↦ rw s (h.0, modify_first-All k f m (ground arith) keep h.1)
  ]

  -- What holds of all entries holds of the one that `find` returns.
  pub All-find :
      (k : CString) (m : List (CString × A)) {v : A}
      → find k m ≡ some v
      → All Q m
      → (j : CString) × Q (j, v)
  unfolding find
  All-find k [] h all = cc
  All-find k ((i, u) ∷ m) {v} h all = elim (Bool-cases (str_eq i k)) [
    | inl e ↦ (i, subst (λ x. Q (i, x)) (first_value _ _ _ _ e h) all.0)
    | inr e ↦ All-find k m {v = v} (ground arith) all.1
  ]
