-- ===== src/SerialId.antt =====
-- include/plug.h: the serial id page of a module, 128 bytes, and the fields of `pm_sfp_serial_id_t`
-- and `pm_qsfp_serial_id_t` that the daemon reads. A bit field takes the next bits of its byte, from
-- the lowest up. The page is one list; a cast between the two structs is another way to read it.
pub mod Sfp
pub mod Qsfp
use ops_pmd.Base.{ℕ, ◌+◌, ◌/◌, ◌%◌, ◌^◌, Bool, List, ◌==◌, if◌then◌else◌, get_or, set, take, drop}

abbrev pub page_size : ℕ
page_size = 128

abbrev pub byte_at : List ℕ → ℕ → ℕ
byte_at page i = get_or page i 0

-- A one-bit field: bit `k` of byte `i`.
abbrev pub bit_at : List ℕ → ℕ → ℕ → Bool
bit_at page i k = byte_at page i / 2 ^ k % 2 == 1

-- `page.field = 1` for a one-bit field.
abbrev pub set_bit : List ℕ → ℕ → ℕ → List ℕ
set_bit page i k = if bit_at page i k then page else set page i (byte_at page i + 2 ^ k)

-- An array of `n` bytes at offset `i`.
abbrev pub array_at : List ℕ → ℕ → ℕ → List ℕ
array_at page i n = take n (drop i page)

abbrev pub vendor_name_len : ℕ
vendor_name_len = 16

abbrev pub vendor_pn_len : ℕ
vendor_pn_len = 16

abbrev pub vendor_sn_len : ℕ
vendor_sn_len = 16

abbrev pub sfp_vendor_rev_len : ℕ
sfp_vendor_rev_len = 4

abbrev pub qsfp_vendor_rev_len : ℕ
qsfp_vendor_rev_len = 2

abbrev pub vendor_oui_len : ℕ
vendor_oui_len = 3

abbrev pub vendor_area_len : ℕ
vendor_area_len = 32
