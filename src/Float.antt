-- ===== src/Float.antt =====
-- The arithmetic that src/pm_dom.c does on `float`, and what include/pmd.h.in does with the result:
-- IEEE 754 with rounding to the nearest, ties to even. A value is a fraction with a power of two.
pub mod Bounds
use ops_pmd.Base.{
  ℕ, zero, suc, ◌+◌, ◌-◌, ◌*◌, ◌/◌, ◌%◌, ◌^◌, Bool, true, false, not, ◌&&◌, [], ◌∷◌, ◌++◌, CString,
  codes, ltb, ◌==◌, if◌then◌else◌, ℤ, pos, negsuc,
}
use ops_pmd.Format.{print_int}

-- `mantissa / 2 ^ scale`, with its sign.
pub record Float : Type 0 where
  pub negative : Bool
  pub mantissa : ℕ
  pub scale : ℕ

-- The number of binary digits of a number below `2 ^ fuel`.
unfoldable pub bit_length : ℕ → ℕ → ℕ
bit_length zero n = 0
bit_length (suc fuel) n = let rest = bit_length fuel (n / 2) in if n == 0 then 0 else suc rest

-- `n / 2 ^ k` to the nearest integer, and to the even one of two.
unfoldable pub nearest : ℕ → ℕ → ℕ
nearest k n =
    let q = n / 2 ^ k in
    let r = n % 2 ^ k in
    if ltb (2 * r) (2 ^ k) then q else if 2 * r == 2 ^ k then q + q % 2 else q + 1

-- How many of the digits of `n` a format with `digits` digits drops. Numbers here are below 2 ^ 128.
abbrev pub excess : ℕ → ℕ → ℕ
excess digits n = bit_length 128 n - digits

-- A fraction in a format of 53 or of 24 digits. Its scale exceeds what is dropped at every use.
unfoldable pub round_to : ℕ → Float → Float
round_to digits v =
    let k = excess digits v.mantissa in
    record { negative = v.negative; mantissa = nearest k v.mantissa; scale = v.scale - k }

-- `(float) n`, for the magnitude of an integer.
unfoldable pub magnitude : ℕ → ℕ
magnitude n = let k = excess 24 n in nearest k n * 2 ^ k

unfoldable pub float_of_int : ℤ → Float
float_of_int (pos n) = record { negative = false; mantissa = magnitude n; scale = 0 }
float_of_int (negsuc n) = record { negative = true; mantissa = magnitude (n + 1); scale = 0 }

-- The constants 0.0001 and 0.002 as `double`.
abbrev pub ten_thousandth : Float
ten_thousandth = record { negative = false; mantissa = 0x1a36e2eb1c432d; scale = 66 }

abbrev pub two_thousandths : Float
two_thousandths = record { negative = false; mantissa = 0x10624dd2f1a9fc; scale = 61 }

-- `(float) n * c`, assigned to a `float`: the product is a `double`.
unfoldable pub times : ℕ → Float → Float
times n c = round_to 24 (round_to 53 (record c { mantissa = magnitude n * c.mantissa }))

-- `l == v` for a `long`, which becomes a `float`.
unfoldable pub eq_long : ℤ → Float → Bool
eq_long (pos n) v = not v.negative && (magnitude n * 2 ^ v.scale == v.mantissa)
eq_long (negsuc n) v = v.negative && (magnitude (n + 1) * 2 ^ v.scale == v.mantissa)

abbrev digit : ℕ → ℕ
digit n = b'0' + n % 10

-- `%4.2f`: two decimals of the exact value. No text is shorter than 4 characters.
unfoldable pub print_float : Float → CString
print_float v =
    let hundredths = nearest v.scale (v.mantissa * 100) in
    let text =
      print_int (hundredths / 100)
      ++ (codes "." ++ (digit (hundredths / 10) ∷ digit hundredths ∷ [])) in
    if v.negative then codes "-" ++ text else text
