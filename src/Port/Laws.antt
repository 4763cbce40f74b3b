-- ===== src/Port/Laws.antt =====
-- include/pmd.h.in: what the column macros do, column by column.
use ops_pmd.Base.{
  ℕ, ◌≤◌, true, false, Option, none, some, CString, ◌==◌, arith, ◌≡◌, str_eq_refl, str_eq→eq,
  Option-cases, inl, inr, ap, ◌↔◌, ℤ, pos, eq_ℤ,
}
use ops_pmd.Format.{print_int, strtol, long_max}
use ops_pmd.Format.Decimal.{strtol-print_int}
use ops_pmd.Port.{Column, index, put, PmPort, set_string, set_int_string, delete, delete_free}

-- The number that `strtol` reads from a column.
abbrev pub as_int : Option CString → Option ℤ
as_int none = none
as_int (some text) = some (strtol text)

eq_ℤ→eq : (a b : ℤ) → eq_ℤ a b ≡ true → a ≡ b
eq_ℤ→eq a b h = ground arith

index-injective : (c d : Column) → index c ≡ index d → c ≡ d
index-injective Column.cable_length d h = ground arith
index-injective _ d h = ground arith

index_self : (c : Column) → (index c == index c) ≡ true
index_self c = ground arith

columns_eq : (c d : Column) (f : Column → Option CString) → (index c == index d) ≡ true → f c ≡ f d
columns_eq c d f h = ap f (index-injective c d (ground arith))

-- A column already holding the value reads as if it had been written.
put_same :
    (c d : Column) (v : CString) (f : Column → Option CString)
    → f c ≡ some v
    → f d ≡ put c (some v) f d
put_same c d v f e = ground (arith, columns_eq c d f)

-- After `SET_STRING` the column holds the value, and no other column has changed.
pub columns-set_string :
    (c d : Column) (v : CString) (p : PmPort)
    → (set_string c v p).ovs_module_columns d ≡ put c (some v) p.ovs_module_columns d
unfolding set_string
columns-set_string c d v p = elim (Option-cases (p.ovs_module_columns c)) [
  | inl e ↦ ground arith
  | inr (old, e) ↦ ground (arith, str_eq→eq old v, put_same c d v p.ovs_module_columns)
]

-- `SET_STRING` on a port without the mark leaves it without the mark exactly where the column
-- holds the value already.
set_string-changes :
    (c : Column) (v : CString) (p : PmPort)
    → p.module_info_changed ≡ false
    → ((set_string c v p).module_info_changed ≡ false) ↔ (p.ovs_module_columns c ≡ some v)
unfolding set_string
set_string-changes c v p h = elim (Option-cases (p.ovs_module_columns c)) [
  | inl e ↦ (λ k. ground arith, λ k. ground arith)
  | inr (old, e) ↦ (λ k. ground (arith, str_eq→eq old v), λ k. ground (arith, str_eq_refl v))
]

-- What `SET_INT_STRING` writes it recognises: where the column holds the text of a value that a
-- `long` holds, a call with that value changes nothing.
set_int_string_idem :
    (c : Column) (n : ℕ) (p : PmPort)
    → p.ovs_module_columns c ≡ some (print_int n)
    → n ≤ long_max
    → set_int_string c n p ≡ p
unfolding set_int_string
set_int_string_idem c n p e h = ground (arith, strtol-print_int n h)

-- `DELETE` and `DELETE_FREE` leave the column empty and no other changed.
pub columns-delete :
    (c d : Column) (p : PmPort)
    → (delete c p).ovs_module_columns d ≡ put c none p.ovs_module_columns d
unfolding delete
columns-delete c d p = elim (Option-cases (p.ovs_module_columns c)) [
  | inl e ↦ ground (arith, columns_eq c d p.ovs_module_columns)
  | inr (old, e) ↦ ground arith
]

pub columns-delete_free :
    (c d : Column) (p : PmPort)
    → (delete_free c p).ovs_module_columns d ≡ put c none p.ovs_module_columns d
unfolding delete_free
columns-delete_free c d p = elim (Option-cases (p.ovs_module_columns c)) [
  | inl e ↦ ground (arith, columns_eq c d p.ovs_module_columns)
  | inr (old, e) ↦ ground arith
]

-- Everything of a port but its columns and its mark.
abbrev pub rest : PmPort → PmPort
rest p = record p { ovs_module_columns = λ _. none; module_info_changed = false }

-- The macros change nothing else of a port.
pub rest-set_string : (c : Column) (v : CString) (p : PmPort) → rest (set_string c v p) ≡ rest p
unfolding set_string
rest-set_string c v p = elim (Option-cases (p.ovs_module_columns c)) [
  | inl e ↦ ground arith
  | inr (old, e) ↦ ground arith
]

pub rest-set_int_string : (c : Column) (n : ℕ) (p : PmPort) → rest (set_int_string c n p) ≡ rest p
unfolding set_int_string
rest-set_int_string c n p = ground arith

pub rest-delete : (c : Column) (p : PmPort) → rest (delete c p) ≡ rest p
unfolding delete
rest-delete c p = ground arith

pub rest-delete_free : (c : Column) (p : PmPort) → rest (delete_free c p) ≡ rest p
unfolding delete_free
rest-delete_free c p = ground arith

-- After `SET_INT_STRING` the column reads as the number.
pub as_int-set_int_string :
    (c : Column) (n : ℕ) (p : PmPort)
    → n ≤ long_max
    → as_int ((set_int_string c n p).ovs_module_columns c) ≡ some (pos n)
unfolding set_int_string
as_int-set_int_string c n p h = elim (Option-cases (p.ovs_module_columns c)) [
  | inl e ↦ ground (arith, index_self c, strtol-print_int n h)
  | inr (old, e) ↦ ground (arith, index_self c, strtol-print_int n h, eq_ℤ→eq (strtol old) (pos n))
]

pub columns-set_int_string_ne :
    (c d : Column) (n : ℕ) (p : PmPort)
    → (index c == index d) ≡ false
    → (set_int_string c n p).ovs_module_columns d ≡ p.ovs_module_columns d
unfolding set_int_string
columns-set_int_string_ne c d n p h = ground arith

-- No macro takes the mark off a port.
pub set_string-marked :
    (c : Column) (v : CString) (p : PmPort)
    → p.module_info_changed ≡ true
    → (set_string c v p).module_info_changed ≡ true
unfolding set_string
set_string-marked c v p h = elim (Option-cases (p.ovs_module_columns c)) [
  | inl e ↦ ground arith
  | inr (old, e) ↦ ground arith
]

pub delete-marked :
    (c : Column) (p : PmPort)
    → p.module_info_changed ≡ true
    → (delete c p).module_info_changed ≡ true
unfolding delete
delete-marked c p h = ground arith

pub delete_free-marked :
    (c : Column) (p : PmPort)
    → p.module_info_changed ≡ true
    → (delete_free c p).module_info_changed ≡ true
unfolding delete_free
delete_free-marked c p h = ground arith
