-- ===== src/Detect/Checksum.antt =====
-- src/pm_detect.c: the checksums of a serial id page (`pm_byte_sum`, `sfpp_sum_verify`).
use ops_pmd.Base.{
  ℕ, zero, suc, ◌+◌, ◌-◌, ◌%◌, ◌<◌, ◌≡◌, ◌≢◌, refl, ◌↔◌, List, [], ◌∷◌, arith, set, take, length,
  get_or-set_ne, ap, ◌∙◌,
}
use ops_pmd.SerialId.{byte_at, array_at}
use ops_pmd.Detect.{sum_from, pm_byte_sum, sfpp_sum_verify}

-- The sum of the bytes of a list.
unfoldable pub total : List ℕ → ℕ
total [] = 0
total (b ∷ bs) = b + total bs

total-take_nil : (n : ℕ) → total (take n []) ≡ 0
unfolding total
total-take_nil zero = refl
total-take_nil (suc n) = refl

total-array_suc :
    (i n : ℕ) (page : List ℕ)
    → total (array_at page i (suc n)) ≡ byte_at page i + total (array_at page (suc i) n)
unfolding total
total-array_suc zero n [] = ground (arith, total-take_nil n)
total-array_suc zero n (b ∷ page) = refl
total-array_suc (suc i) n [] = ground (arith, total-take_nil n)
total-array_suc (suc i) n (b ∷ page) = total-array_suc i n page

total-array_at :
    (i n : ℕ) (page : List ℕ)
    → total (array_at page i (suc n)) ≡ byte_at page i + total (array_at page (i + 1) n)
total-array_at i n page =
    total-array_suc i n page
    ∙ ap (λ k. byte_at page i + total (array_at page k n)) {x = suc i} (omega arith)

sum_from-total :
    (page : List ℕ) (i n v : ℕ)
    → v < 256
    → sum_from page i n v ≡ (v + total (array_at page i n)) % 256
unfolding sum_from
sum_from-total page i zero v h = unfold total in omega arith
sum_from-total page i (suc n) v h =
    sum_from-total page (i + 1) n ((v + byte_at page i) % 256) (omega arith)
    ∙ omega (arith, total-array_at i n page)

pm_byte_sum_iff :
    (page : List ℕ) (start end offset : ℕ)
    → (pm_byte_sum page start end offset ≡ 0)
      ↔ (total (array_at page start (end + 1 - start)) % 256 ≡ byte_at page offset)
unfolding pm_byte_sum
pm_byte_sum_iff page start end offset =
    let sum = sum_from-total page start (end + 1 - start) 0 (omega arith) in
    (λ h. ground arith, λ h. ground arith)

-- The checksum test accepts a page exactly when both check codes are right: byte 63 is the sum of
-- bytes 0 to 62 and byte 95 that of bytes 64 to 94, each in eight bits.
pub sfpp_sum_verify_iff :
    (page : List ℕ)
    → (sfpp_sum_verify page ≡ 0) ↔ (
        (total (array_at page 0 63) % 256 ≡ byte_at page 63)
        × (total (array_at page 64 31) % 256 ≡ byte_at page 95))
unfolding sfpp_sum_verify
sfpp_sum_verify_iff page = (
  λ h. (
    (pm_byte_sum_iff page 0 62 63).0 (omega arith),
    (pm_byte_sum_iff page 64 94 95).0 (omega arith),
  ),
  λ h. add_zeros _ _ ((pm_byte_sum_iff page 0 62 63).1 h.0) ((pm_byte_sum_iff page 64 94 95).1 h.1),
)
  where
    add_zeros : (a b : ℕ) → a ≡ 0 → b ≡ 0 → a + b ≡ 0
    add_zeros a b p q = omega arith

total-take-set :
    (n i v : ℕ) (page : List ℕ)
    → i < n
    → i < length page
    → total (take n (set page i v)) + byte_at page i ≡ total (take n page) + v
unfolding total
total-take-set n i v [] h k = absurd (omega arith)
total-take-set zero i v (b ∷ page) h k = absurd (omega arith)
total-take-set (suc n) zero v (b ∷ page) h k = ground arith
total-take-set (suc n) (suc i) v (b ∷ page) h k = ground (arith, total-take-set n i v page)

-- A change of one byte among bytes 0 to 62 of a page that passes is found.
pub sfpp_sum_verify-detects :
    (page : List ℕ) (i v : ℕ)
    → sfpp_sum_verify page ≡ 0
    → i < 63
    → i < length page
    → byte_at page i < 256
    → v < 256
    → v ≢ byte_at page i
    → sfpp_sum_verify (set page i v) ≢ 0
sfpp_sum_verify-detects page i v ok small inside b bv ne bad =
    let (before, _) = (sfpp_sum_verify_iff page).0 ok in
    let (after, _) = (sfpp_sum_verify_iff (set page i v)).0 bad in
    absurd (
      omega
        (arith, total-take-set 63 i v page small inside, get_or-set_ne page i 63 v 0 (omega arith)))
