-- ===== src/A2.antt =====
-- include/pm_dom.h: the page of diagnostics of a module, 128 bytes, and the conversions that
-- src/pm_dom.c applies to its fields. A field is named by its offset or, if it is a bit, by its test.
pub mod Sfp
pub mod Qsfp
pub mod Degrees
pub mod Decimals
use ops_pmd.Base.{ℕ, ◌+◌, ◌-◌, ◌*◌, ◌/◌, List, leb, ltb, if◌then◌else◌, ℤ, pos, negsuc}
use ops_pmd.Float.{Float, float_of_int, times, ten_thousandth, two_thousandths}
use ops_pmd.SerialId.{byte_at}

abbrev pub a2_page_size : ℕ
a2_page_size = 128

-- `msb << 8 | lsb`, of two bytes.
abbrev pub word_at : List ℕ → ℕ → ℕ
word_at page i = byte_at page i * 256 + byte_at page (i + 1)

-- A byte as a `char`, which is signed.
unfoldable pub signed_char : ℕ → ℤ
signed_char b = if leb 128 b then negsuc (255 - b) else pos b

unfoldable pub add_byte : ℤ → ℕ → ℤ
add_byte (pos n) k = pos (n + k)
add_byte (negsuc n) k = if ltb n k then pos (k - (n + 1)) else negsuc (n - k)

-- `msb + (float)(lsb/256)`: the division is one of integers.
unfoldable pub celsius : List ℕ → ℕ → Float
celsius page i = float_of_int (add_byte (signed_char (byte_at page i)) (byte_at page (i + 1) / 256))

-- `(float)(msb << 8 | lsb) * 0.0001`, for volts and for milliwatts.
unfoldable pub by_ten_thousandth : List ℕ → ℕ → Float
by_ten_thousandth page i = times (word_at page i) ten_thousandth

-- `(float)(msb << 8 | lsb) * 0.002`, for milliamperes.
unfoldable pub by_two_thousandths : List ℕ → ℕ → Float
by_two_thousandths page i = times (word_at page i) two_thousandths
