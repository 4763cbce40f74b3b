-- ===== src/Layout.antt =====
-- include/plug.h and include/pm_dom.h: the structs that describe the pages of a module, and where the
-- compiler puts their members. The rule is that of the System V ABI for little-endian machines: a
-- bit field takes the next bits of its byte from the lowest up, and the next byte where it does not
-- fit; any other member starts at the next multiple of its alignment. `char` and `unsigned char` are
-- one byte, `unsigned short` is two bytes at an even offset. Positions are counted in bits.
pub mod SfpId
pub mod QsfpId
pub mod SfpDom
pub mod QsfpFlags
pub mod QsfpDom
pub mod Pages
pub mod IdFields
pub mod DomFields
pub mod InPlace
use ops_pmd.Base.{
  ℕ, ◌+◌, ◌-◌, ◌*◌, ◌/◌, ◌%◌, Option, none, some, List, [], ◌∷◌, CString, leb, if◌then◌else◌,
  str_eq, codes,
}
use Prim.Native.String.{String}

-- A member's type: `unsigned char f:n`, an array of bytes (or one byte), `unsigned short`, and
-- aggregates.
mutual
  pub data Shape : Type 0 where
    bits : ℕ → Shape
    bytes : ℕ → Shape
    word : Shape
    struct : Members → Shape
    union : Members → Shape

  pub data Member : Type 0 where
    member : CString → Shape → Member

  pub data Members : Type 0 where
    end : Members
    ◌▸◌ : Member → Members → Members

infixr 20 ◌▸◌
abbrev pub flag : String → Member
flag name = member (codes name) (bits 1)

abbrev pub byte : String → Member
byte name = member (codes name) (bytes 1)

abbrev pub array : String → ℕ → Member
array name n = member (codes name) (bytes n)

abbrev pub field : String → Shape → Member
field name s = member (codes name) s

-- The least multiple of `m` that is not below `c`.
abbrev round_up : ℕ → ℕ → ℕ
round_up m c = (c + m - 1) / m * m

abbrev max : ℕ → ℕ → ℕ
max a b = if leb a b then b else a

unfoldable mutual
  -- In bits, as all that follows.
  pub alignment : Shape → ℕ
  alignment (bits n) = 8
  alignment (bytes n) = 8
  alignment word = 16
  alignment (struct ms) = alignment_of ms
  alignment (union ms) = alignment_of ms

  pub alignment_of : Members → ℕ
  alignment_of end = 8
  alignment_of (member name s ▸ ms) = max (alignment s) (alignment_of ms)

-- Where a member of this shape starts, if the members before it end at `c`.
unfoldable pub start_of : Shape → ℕ → ℕ
unfolding alignment alignment_of
start_of (bits n) c = if leb (c % 8 + n) 8 then c else round_up 8 c
start_of s c = round_up (alignment s) c

unfoldable mutual
  unfolding start_of alignment_of

  pub size : Shape → ℕ
  size (bits n) = n
  size (bytes n) = 8 * n
  size word = 16
  size (struct ms) = round_up (alignment_of ms) (struct_end ms 0)
  size (union ms) = round_up (alignment_of ms) (union_end ms)

  pub struct_end : Members → ℕ → ℕ
  struct_end end c = c
  struct_end (member name s ▸ ms) c = struct_end ms (start_of s c + size s)

  pub union_end : Members → ℕ
  union_end end = 0
  union_end (member name s ▸ ms) = max (size s) (union_end ms)

-- `sizeof`
unfoldable pub size_of : Members → ℕ
unfolding size
size_of ms = size (struct ms) / 8

-- The position and the size of what a path of names leads to, from a shape at `c` on.
unfoldable mutual
  unfolding start_of size str_eq

  pub place_from : Shape → List CString → ℕ → Option (ℕ × ℕ)
  place_from s [] c = some (c, size s)
  place_from (struct ms) (name ∷ path) c = struct_place ms name path c
  place_from (union ms) (name ∷ path) c = union_place ms name path c
  place_from (bits n) (name ∷ path) c = none
  place_from (bytes n) (name ∷ path) c = none
  place_from word (name ∷ path) c = none

  pub struct_place : Members → CString → List CString → ℕ → Option (ℕ × ℕ)
  struct_place end name path c = none
  struct_place (member other s ▸ ms) name path c =
      let here = place_from s path (start_of s c) in
      let later = struct_place ms name path (start_of s c + size s) in
      if str_eq other name then here else later

  pub union_place : Members → CString → List CString → ℕ → Option (ℕ × ℕ)
  union_place end name path c = none
  union_place (member other s ▸ ms) name path c =
      let here = place_from s path c in
      let later = union_place ms name path c in if str_eq other name then here else later

-- `&page->a.b`, as bits from the start of the page, and the size of the member.
unfoldable pub place_of : Members → List CString → Option (ℕ × ℕ)
unfolding place_from
place_of ms path = place_from (struct ms) path 0
