-- ===== src/Float/Bounds.antt =====
-- src/pm_dom.c: how far the results of the arithmetic on `float` are from the exact values.
use native.Mathlib.Nat.{mod-add-div', mod-lt, pow-le-pow_right, mul-le-mul_right, mul-le-mul}
use native.Mathlib.Numerals.{unary_clauses}
use ops_pmd.Base.{
  ℕ, zero, suc, ◌+◌, ◌-◌, ◌*◌, ◌/◌, ◌%◌, ◌^◌, ◌≤◌, ◌<◌, ◌≡◌, ◌==◌, ltb, if◌then◌else◌, arith, ap,
  ◌∙◌, sym, subst, Bool-cases, inl, inr, ◌⊎◌,
}
use ops_pmd.Float.{Float, nearest, bit_length, excess, magnitude, round_to, times}

power_pos : (k : ℕ) → 0 < 2 ^ k
power_pos zero = omega arith
power_pos (suc k) = let h = power_pos k in simp unary_clauses (omega arith)

-- Rounding goes down by at most a half, or up by at most a half.
rounded :
    (q r d : ℕ)
    → let m = if ltb (2 * r) d then q else if 2 * r == d then q + q % 2 else q + 1 in
      ((m ≡ q) × (2 * r ≤ d)) ⊎ ((m ≡ q + 1) × (d ≤ 2 * r))
rounded q r d = ground arith

within_half :
    (q r d n m : ℕ)
    → r + q * d ≡ n
    → r < d
    → ((m ≡ q) × (2 * r ≤ d)) ⊎ ((m ≡ q + 1) × (d ≤ 2 * r))
    → (2 * (m * d) ≤ 2 * n + d) × (2 * n ≤ 2 * (m * d) + d)
within_half q r d n m e h (inl (s, c)) = rw s (omega arith, omega arith)
within_half q r d n m e h (inr (s, c)) = rw s (omega arith, omega arith)

nearest_bounds :
    (k n : ℕ)
    → (2 * (nearest k n * 2 ^ k) ≤ 2 * n + 2 ^ k) × (2 * n ≤ 2 * (nearest k n * 2 ^ k) + 2 ^ k)
unfolding nearest
nearest_bounds k n =
    within_half (n / 2 ^ k) (n % 2 ^ k) (2 ^ k) n _ (mod-add-div' n (2 ^ k))
      (mod-lt n (power_pos k)) (rounded (n / 2 ^ k) (n % 2 ^ k) (2 ^ k))

halved : (n d : ℕ) → n < d * 2 → n / 2 < d
halved n d h = omega arith

bit_length-le : (fuel j n : ℕ) → n < 2 ^ j → bit_length fuel n ≤ j
unfolding bit_length
bit_length-le zero j n h = omega arith
bit_length-le (suc fuel) zero n h = ground arith
bit_length-le (suc fuel) (suc j) n h =
    let half : n / 2 < 2 ^ j = halved n (2 ^ j) (simp unary_clauses at h) in
    ground (arith, bit_length-le fuel j (n / 2) half)

power_add : (j k : ℕ) → 2 ^ (j + k) ≡ 2 ^ j * 2 ^ k
power_add j zero = simp unary_clauses (omega arith)
power_add j (suc k) = let ih = power_add j k in simp unary_clauses (omega arith)

-- A number lies below the power of two with as many digits.
below_bit_length : (fuel n : ℕ) → n < 2 ^ fuel → n < 2 ^ bit_length fuel n
unfolding bit_length
below_bit_length zero n h = h
below_bit_length (suc fuel) n h = elim (Bool-cases (n == 0)) [
  | inl e ↦
      let none_left : n ≡ 0 = ground arith in
      rw e (subst (λ k. k < 1) (sym none_left) (omega arith))
  | inr e ↦
      let ih = below_bit_length fuel (n / 2) (halved n (2 ^ fuel) (simp unary_clauses at h)) in
      rw e (simp unary_clauses (doubled n (2 ^ bit_length fuel (n / 2)) ih))
]
  where
    doubled : (n d : ℕ) → n / 2 < d → n < d * 2
    doubled n d h = omega arith

-- The greatest of the powers that matter.
at_most : (k j : ℕ) → k ≤ j → 2 ^ k ≤ 2 ^ j
at_most k j h = pow-le-pow_right (omega arith) h

magnitude_small : (n : ℕ) → n < 2 ^ 24 → magnitude n ≡ n
unfolding magnitude
magnitude_small n h =
    let short = bit_length-le 128 24 n h in
    let none_dropped : excess 24 n ≡ 0 = omega arith in
    rw none_dropped (whole (nearest 0 n) (nearest_bounds 0 n))
  where
    whole :
        (m : ℕ)
        → (2 * (m * 2 ^ 0) ≤ 2 * n + 2 ^ 0) × (2 * n ≤ 2 * (m * 2 ^ 0) + 2 ^ 0)
        → m * 2 ^ 0 ≡ n
    whole m (low, high) = omega arith

-- Three roundings in a row, of a product, of what is left, and of a hundred times that.
three_roundings :
    (x a b h p q s unit : ℕ)
    → (2 * (a * p) ≤ 2 * x + p) × (2 * x ≤ 2 * (a * p) + p)
    → (2 * (b * q) ≤ 2 * a + q) × (2 * a ≤ 2 * (b * q) + q)
    → (2 * (h * s) ≤ 2 * (b * 100) + s) × (2 * (b * 100) ≤ 2 * (h * s) + s)
    → s * (q * p) ≡ unit
    → (2 * (h * unit) ≤ 200 * x + 100 * p + 100 * (q * p) + unit)
      × (200 * x ≤ 2 * (h * unit) + 100 * p + 100 * (q * p) + unit)
three_roundings x a b h p q s unit (a1, a2) (b1, b2) (c1, c2) e =
    let b1' = mul-le-mul_right p b1 in
    let b2' = mul-le-mul_right p b2 in
    let c1' = mul-le-mul_right (q * p) c1 in
    let c2' = mul-le-mul_right (q * p) c2 in
    let e' : h * (s * (q * p)) ≡ h * unit = ap (λ k. h * k) e in (omega arith, omega arith)

at_most_quotient :
    (m n d e : ℕ) → 2 * (m * e) ≤ 2 * n + e → n < d * e → (m ≤ d) ⊎ (d + 1 ≤ m) → m ≤ d
at_most_quotient m n d e h k (inl l) = l
at_most_quotient m n d e h k (inr g) = let more = mul-le-mul_right e g in absurd (omega arith)

-- What a format with `digits` digits keeps of a number below `2 ^ (digits + room)`.
kept :
    (digits room n : ℕ)
    → n < 2 ^ (digits + room)
    → n < 2 ^ 128
    → (excess digits n ≤ room) × (nearest (excess digits n) n ≤ 2 ^ digits)
kept digits room n h fits =
    let short = bit_length-le 128 (digits + room) n h in
    let k = excess digits n in
    let below : n < 2 ^ digits * 2 ^ k =
      subst (λ d. n < d) (power_add digits k)
        (widen (below_bit_length 128 n fits)
          (at_most (bit_length 128 n) (digits + k) (omega arith))) in
    (
      omega arith,
      at_most_quotient (nearest k n) n (2 ^ digits) (2 ^ k) (nearest_bounds k n).0 below
          (either (nearest k n) (2 ^ digits)),
    )
  where
    widen : {m j k : ℕ} → m < j → j ≤ k → m < k
    widen h l = omega arith

    either : (m d : ℕ) → (m ≤ d) ⊎ (d + 1 ≤ m)
    either m d = omega arith

split_power : (e j k : ℕ) → k + j ≤ e → 2 ^ (e - k - j) * (2 ^ j * 2 ^ k) ≡ 2 ^ e
split_power e j k h =
    let whole : e - k - j + (j + k) ≡ e = omega arith in
    ap (λ d. 2 ^ (e - k - j) * d) (sym (power_add j k))
    ∙ sym (power_add (e - k - j) (j + k))
    ∙ ap (λ d. 2 ^ d) whole

-- The number of hundredths that `%4.2f` shows.
abbrev pub hundredths : Float → ℕ
hundredths v = nearest v.scale (v.mantissa * 100)

-- A product of a word with a constant of 53 digits: the exact product, in units of the constant's last
-- digit, against the hundredths that are shown.
pub hundredths-times :
    (n : ℕ) (c : Float)
    → n < 2 ^ 16
    → c.mantissa < 2 ^ 53
    → 46 ≤ c.scale
    → (2 * (hundredths (times n c) * 2 ^ c.scale)
        ≤ 200 * (n * c.mantissa) + 100 * 2 ^ 16 + 100 * 2 ^ 46 + 2 ^ c.scale)
      × (200 * (n * c.mantissa)
          ≤ 2 * (hundredths (times n c) * 2 ^ c.scale) + 100 * 2 ^ 16 + 100 * 2 ^ 46 + 2 ^ c.scale)
unfolding times round_to
hundredths-times n c h small wide =
    let x = n * c.mantissa in
    let k = excess 53 x in
    let a = nearest k x in
    let j = excess 24 a in
    let b = nearest j a in
    let s = c.scale - k - j in
    let below : x < 2 ^ 69 = product_below n c.mantissa h small in
    let (k_small, a_small) = kept 53 16 x below (omega arith) in
    let (j_small, b_small) = kept 24 30 a (omega arith) (omega arith) in
    let (low, high) =
      three_roundings x a b (nearest s (b * 100)) (2 ^ k) (2 ^ j) (2 ^ s) (2 ^ c.scale)
        (nearest_bounds k x) (nearest_bounds j a) (nearest_bounds s (b * 100))
        (split_power c.scale j k (omega arith)) in
    let p_small = at_most k 16 k_small in
    let qp_small = mul-le-mul (at_most j 30 j_small) p_small in
    rw (magnitude_small n (omega arith)) (omega arith, omega arith)
  where
    at_most_word : (n : ℕ) → n < 2 ^ 16 → n ≤ 65535
    at_most_word n h = omega arith

    product_below : (n m : ℕ) → n < 2 ^ 16 → m < 2 ^ 53 → n * m < 2 ^ 69
    product_below n m h k = let most = mul-le-mul_right m (at_most_word n h) in omega arith
