-- ===== src/Layout/Pages.antt =====
-- include/plug.h and include/pm_dom.h: how a member of a page is read, from the place that the
-- compiler gives it.
use ops_pmd.Base.{
  ℕ, ◌+◌, ◌*◌, ◌/◌, ◌%◌, ◌≡◌, Bool, ◌&&◌, Option, none, some, List, [], ◌∷◌, ◌++◌, map, CString,
  codes, ◌==◌, if◌then◌else◌,
}
use Prim.Native.String.{String}
use ops_pmd.SerialId.{page_size, byte_at, bit_at, array_at}
use ops_pmd.Layout.{Members, size_of, place_of}

-- `page.a.b` of a one-bit field, of a byte and of an array of bytes; nothing for another member.
unfoldable pub read_flag : Members → List CString → List ℕ → Option Bool
unfolding place_of
read_flag s path page = elim (place_of s path) [
  | none ↦ none
  | some (p, n) ↦ if n == 1 then some (bit_at page (p / 8) (p % 8)) else none
]

unfoldable pub read_byte : Members → List CString → List ℕ → Option ℕ
unfolding place_of
read_byte s path page = elim (place_of s path) [
  | none ↦ none
  | some (p, n) ↦ if (n == 8) && (p % 8 == 0) then some (byte_at page (p / 8)) else none
]

unfoldable pub read_array : Members → List CString → List ℕ → Option (List ℕ)
unfolding place_of
read_array s path page = elim (place_of s path) [
  | none ↦ none
  | some (p, n) ↦
      if (n % 8 == 0) && (p % 8 == 0) then some (array_at page (p / 8) (n / 8)) else none
]

-- Members by their names, inside of the member that a path leads to.
abbrev pub inside {ℓ} : {A : Type ℓ} → List CString → List (String × A) → List (List CString × A)
inside path = map (λ n. (path ++ codes n.0 ∷ [], n.1))

-- The path of the name with `suffix` behind it.
abbrev with_suffix : CString → List CString → List CString
with_suffix suffix [] = []
with_suffix suffix (name ∷ []) = (name ++ suffix) ∷ []
with_suffix suffix (name ∷ other ∷ path) = name ∷ with_suffix suffix (other ∷ path)

-- Members of a page by their paths, with the functions that stand for them: tests, bytes, arrays, and
-- pairs of a member `…_msb` and a member `…_lsb` with the offset of the pair.
pub record Fields : Type 0 where
  pub flags : List (List CString × (List ℕ → Bool))
  pub byte_fields : List (List CString × (List ℕ → ℕ))
  pub arrays : List (List CString × (List ℕ → List ℕ))
  pub words : List (List CString × ℕ)

abbrev msb_lsb : Members → List CString → Option (ℕ × ℕ) × Option (ℕ × ℕ)
msb_lsb s path =
    (place_of s (with_suffix (codes "_msb") path), place_of s (with_suffix (codes "_lsb") path))

abbrev two_bytes : ℕ → Option (ℕ × ℕ) × Option (ℕ × ℕ)
two_bytes offset = (some (8 * offset, 8), some (8 * (offset + 1), 8))

-- The struct is a page of 128 bytes, and each of the functions reads its member where it stands.
pub record IsReadInPlace (s : Members) (fs : Fields) : Type 0 where
  pub whole_page : size_of s ≡ page_size
  pub flags_in_place :
      map (λ f. read_flag s f.0) fs.flags ≡ map (λ f page. some (f.1 page)) fs.flags
  pub bytes_in_place :
      map (λ f. read_byte s f.0) fs.byte_fields ≡ map (λ f page. some (f.1 page)) fs.byte_fields
  pub arrays_in_place :
      map (λ f. read_array s f.0) fs.arrays ≡ map (λ f page. some (f.1 page)) fs.arrays
  pub words_in_place : map (λ f. msb_lsb s f.0) fs.words ≡ map (λ f. two_bytes f.1) fs.words
