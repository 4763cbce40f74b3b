-- ===== src/Plug/Lanes.antt =====
-- src/plug.c: the byte that disables the lanes of a QSFP module.
use ops_pmd.Base.{
  ℕ, zero, suc, ◌+◌, ◌/◌, ◌%◌, ◌^◌, ◌<◌, ◌≡◌, refl, Bool, true, false, not, arith, ◌==◌,
  if◌then◌else◌, get_or, ap, ◌∙◌, sym, ltb,
}
use ops_pmd.Port.{PmPort, max_split_count}
use ops_pmd.Plug.{disabled_lanes, disable_byte}

-- Whether a lane is to send: in a split port its subport says so, else the port.
abbrev pub lane_enabled : PmPort → ℕ → Bool
lane_enabled p lane = if p.split then get_or p.hw_enable_subport lane false else p.hw_enable

-- Bit `lane` of a byte.
abbrev pub lane_bit : ℕ → ℕ → Bool
lane_bit byte lane = byte / 2 ^ lane % 2 == 1

-- The bits that stand for four Booleans, lowest first.
lanes_byte : Bool → Bool → Bool → Bool → ℕ
lanes_byte a b c d =
    (if a then 0 else 1)
    + ((if b then 0 else 2) + ((if c then 0 else 4) + ((if d then 0 else 8) + 0)))

lanes_byte_bits :
    (a b c d : Bool)
    → (ltb (lanes_byte a b c d) 16 ≡ true)
      × (lane_bit (lanes_byte a b c d) 0 ≡ not a)
      × (lane_bit (lanes_byte a b c d) 1 ≡ not b)
      × (lane_bit (lanes_byte a b c d) 2 ≡ not c)
      × (lane_bit (lanes_byte a b c d) 3 ≡ not d)
unfolding lanes_byte
lanes_byte_bits a b c d = (ground arith, ground arith, ground arith, ground arith, ground arith)

disable_byte_lem :
    (p : PmPort)
    → disable_byte p
      ≡ lanes_byte (lane_enabled p 0) (lane_enabled p 1) (lane_enabled p 2) (lane_enabled p 3)
unfolding disable_byte disabled_lanes lanes_byte
disable_byte_lem p = ground arith

byte_lane :
    (a b c d : Bool) (f : ℕ → Bool) (lane : ℕ)
    → f 0 ≡ a
    → f 1 ≡ b
    → f 2 ≡ c
    → f 3 ≡ d
    → lane < 4
    → lane_bit (lanes_byte a b c d) lane ≡ not (f lane)
byte_lane a b c d f zero h0 h1 h2 h3 h = (lanes_byte_bits a b c d).1 ∙ ap not (sym h0)
byte_lane a b c d f (suc zero) h0 h1 h2 h3 h = (lanes_byte_bits a b c d).2 ∙ ap not (sym h1)
byte_lane a b c d f (suc (suc zero)) h0 h1 h2 h3 h = (lanes_byte_bits a b c d).3 ∙ ap not (sym h2)
byte_lane a b c d f (suc (suc (suc zero))) h0 h1 h2 h3 h =
    (lanes_byte_bits a b c d).4 ∙ ap not (sym h3)
byte_lane a b c d f (suc (suc (suc (suc k)))) h0 h1 h2 h3 h = absurd (omega arith)

-- The byte written to a QSFP module fits the four lanes, and the bit of a lane is set exactly when
-- the lane is not to send: for a split port by its subport, else by the port.
pub disable_byte-lanes :
    (p : PmPort) (lane : ℕ)
    → lane < max_split_count
    → (disable_byte p < 16) × (lane_bit (disable_byte p) lane ≡ not (lane_enabled p lane))
disable_byte-lanes p lane h = rw (disable_byte_lem p) (
  ground (
    arith,
    lanes_byte_bits (lane_enabled p 0) (lane_enabled p 1) (lane_enabled p 2) (lane_enabled p 3),
  ),
  byte_lane _ _ _ _ (lane_enabled p) lane refl refl refl refl h,
)
