-- ===== src/Base/Assoc.antt =====
-- `struct shash` and `struct smap`: string-keyed maps as association lists. Neither `shash_add` nor
-- `smap_add` looks for an older entry, so a list may hold a name twice.
use mathlib.Core.Option.{Option, none, some}
use mathlib.Core.List.{List, [], ◌∷◌}
use ops_pmd.Base.Tests.{if◌then◌else◌}
use ops_pmd.Base.Text.{CString, str_eq}

module _ {ℓ} {A : Type ℓ} where
  -- `shash_find`, `smap_get`
  unfoldable pub find : CString → List (CString × A) → Option A
  find k [] = none
  find k ((j, v) ∷ m) = if str_eq j k then some v else find k m

  -- `shash_add`, `smap_add`
  unfoldable pub add : CString → A → List (CString × A) → List (CString × A)
  add k v m = (k, v) ∷ m

  -- `shash_delete` of the node that `shash_find` returns.
  unfoldable pub delete_first : CString → List (CString × A) → List (CString × A)
  delete_first k [] = []
  delete_first k ((j, v) ∷ m) = if str_eq j k then m else (j, v) ∷ delete_first k m

  -- A write through the `data` pointer of the node that `shash_find` returns.
  unfoldable pub modify_first : CString → (A → A) → List (CString × A) → List (CString × A)
  modify_first k f [] = []
  modify_first k f ((j, v) ∷ m) = if str_eq j k then (j, f v) ∷ m else (j, v) ∷ modify_first k f m
