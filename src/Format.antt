-- ===== src/Format.antt =====
-- src/pm_detect.c: how binary data becomes text (`hex_to_ascii`, `pm_oui_format`,
-- `set_supported_speeds`), with the conversions of the C library that the macros of
-- include/pmd.h.in use (`asprintf` of "%d", `strtol` with base 0).
pub mod Decimal
pub mod Hex
use ops_pmd.Base.{
  ℕ, zero, suc, ◌+◌, ◌*◌, ◌/◌, ◌%◌, Bool, ◌&&◌, ◌||◌, Option, none, some, List, [], ◌∷◌, ◌++◌,
  CString, codes, ltb, leb, ◌==◌, if◌then◌else◌, get_or, ℤ, pos, negsuc, min, ◌^◌, ◌-◌, true, false,
}

abbrev pub space : ℕ
space = 0x20

abbrev pub ascii_map : List ℕ
ascii_map = codes "0123456789ABCDEF"

abbrev pub word_size : ℕ
word_size = 4

-- The size of the buffer that `hex_to_ascii` allocates, its NUL included.
abbrev pub ascii_size : ℕ → ℕ
ascii_size n = 2 * n + n / word_size + 1

-- The two digits of a byte: `(b & 0xf0) >> 4` and `b & 0xf`.
abbrev pub byte_ascii : ℕ → CString
byte_ascii b = get_or ascii_map (b / 16 % 16) 0 ∷ get_or ascii_map (b % 16) 0 ∷ []

-- The separator in front of byte `i`.
abbrev pub separator : ℕ → CString
separator i = if ltb 0 i && i % word_size == 0 then space ∷ [] else []

-- The loop of `hex_to_ascii` from index `i` on, over the bytes that are left.
unfoldable pub hex_from : ℕ → List ℕ → CString
hex_from i [] = []
hex_from i (b ∷ bs) = separator i ++ (byte_ascii b ++ hex_from (i + 1) bs)

-- `allocated` says whether `malloc` returned a buffer.
unfoldable pub hex_to_ascii : Bool → List ℕ → Option CString
hex_to_ascii allocated buf = if allocated then some (hex_from 0 buf) else none

abbrev pub lower_hex : List ℕ
lower_hex = codes "0123456789abcdef"

-- `%02x` of a byte.
abbrev pub byte_lower : ℕ → CString
byte_lower b = get_or lower_hex (b / 16 % 16) 0 ∷ get_or lower_hex (b % 16) 0 ∷ []

unfoldable pub pm_oui_format : List ℕ → CString
pm_oui_format oui =
    byte_lower (get_or oui 0 0)
    ++ (codes "-" ++ (byte_lower (get_or oui 1 0) ++ (codes "-" ++ byte_lower (get_or oui 2 0))))

-- `%d` of a number that is not negative: digits in front of `acc`. Each round divides by 10, so
-- `n + 1` rounds are enough.
unfoldable pub digits_before : ℕ → ℕ → CString → CString
digits_before zero n acc = acc
digits_before (suc fuel) n acc =
    let rest = digits_before fuel (n / 10) ((b'0' + n % 10) ∷ acc) in
    if ltb n 10 then (b'0' + n) ∷ acc else rest

unfoldable pub print_int : ℕ → CString
print_int n = digits_before (suc n) n []

-- `isspace` in the C locale.
abbrev pub is_space : ℕ → Bool
is_space c = c == 0x20 || (leb 9 c && leb c 13)

unfoldable pub skip_spaces : CString → CString
skip_spaces [] = []
skip_spaces (c ∷ cs) = if is_space c then skip_spaces cs else c ∷ cs

-- The value of a digit in bases up to 16; 16 where there is none.
abbrev pub digit_value : ℕ → ℕ
digit_value c =
    if leb b'0' c && leb c b'9'
    then c - b'0'
    else if leb b'a' c && leb c b'f'
    then c - 87
    else if leb b'A' c && leb c b'F'
    then c - 55
    else 16

-- The digits at the front of a text, read in a base behind the value `acc`.
unfoldable pub read_digits : ℕ → ℕ → CString → ℕ
read_digits base acc [] = acc
read_digits base acc (c ∷ cs) =
    let rest = read_digits base (acc * base + digit_value c) cs in
    if ltb (digit_value c) base then rest else acc

-- Base 0: "0x" and a digit begin a hexadecimal number, "0" an octal one.
unfoldable pub read_based : CString → ℕ
read_based [] = 0
read_based (c ∷ []) = read_digits 10 0 (c ∷ [])
read_based (c ∷ d ∷ cs) =
    if c == b'0'
    then if (d == b'x' || d == b'X') && ltb (digit_value (get_or cs 0 0)) 16
      then read_digits 16 0 cs
      else read_digits 8 0 (d ∷ cs)
    else read_digits 10 0 (c ∷ d ∷ cs)

abbrev pub long_max : ℕ
long_max = 2 ^ 63 - 1

abbrev pub negate : ℕ → ℤ
negate zero = pos 0
negate (suc n) = negsuc (min n long_max)

unfoldable pub read_signed : CString → ℤ
read_signed [] = pos 0
read_signed (c ∷ cs) =
    if c == b'-'
    then negate (read_based cs)
    else if c == b'+'
    then pos (min (read_based cs) long_max)
    else pos (min (read_based (c ∷ cs)) long_max)

-- `strtol(s, NULL, 0)`, on a `long` of 64 bits.
unfoldable pub strtol : CString → ℤ
strtol s = read_signed (skip_spaces s)

-- The loop of `set_supported_speeds` over the arguments that are left, with `speeds` so far.
unfoldable pub speeds_from : Option CString → List ℕ → Option CString
speeds_from speeds [] = speeds
speeds_from none (v ∷ vs) = speeds_from (some (print_int v)) vs
speeds_from (some s) (v ∷ vs) = speeds_from (some (s ++ (space ∷ print_int v))) vs
