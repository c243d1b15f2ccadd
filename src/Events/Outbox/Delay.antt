-- ===== src/Events/Outbox/Delay.antt =====
-- The backoff of failed deliveries.
use native.Mathlib.Nat.{one-le-pow, pow-le-pow_right}
use ssf_transmitter.Prelude.{
  ℕ, ◌-◌, ◌*◌, ◌^◌, ◌≤◌, ◌≡◌, min, arith, ap, ◌⊎◌, inl, inr, leb, Bool-cases,
}
use ssf_transmitter.Events.Outbox.{retry_delay}

-- The wait before the next attempt is between five seconds and an hour and never shorter after more
-- attempts; it doubles from five seconds over the first ten failures and is an hour from the
-- eleventh on.
pub retry_delay_lem :
    (m n : ℕ)
    → m ≤ n
    → (5 ≤ retry_delay m)
      × (retry_delay m ≤ retry_delay n)
      × (retry_delay n ≤ 3600)
      × ((n ≤ 10) × (retry_delay n ≡ 5 * 2 ^ (n - 1)) ⊎ (11 ≤ n) × (retry_delay n ≡ 3600))
unfolding retry_delay
retry_delay_lem m n h =
    let low = one-le-pow (min (m - 1) 10) 2 (omega arith) in
    let rise =
      pow-le-pow_right {n = 2} (omega arith) {i = min (m - 1) 10} {j = min (n - 1) 10}
        (omega arith) in
    (omega (arith, low), omega (arith, rise), omega arith, stages)
  where
    early : n ≤ 10 → min 3600 (5 * 2 ^ min (n - 1) 10) ≡ 5 * 2 ^ (n - 1)
    early few =
        let same : min (n - 1) 10 ≡ n - 1 = omega arith in
        let bound = pow-le-pow_right {n = 2} (omega arith) {i = n - 1} {j = 9} (omega arith) in
        omega (arith, ap (λ (k : ℕ). 2 ^ k) same, bound)

    late : 11 ≤ n → min 3600 (5 * 2 ^ min (n - 1) 10) ≡ 3600
    late many =
        let same : min (n - 1) 10 ≡ 10 = omega arith in omega (arith, ap (λ (k : ℕ). 2 ^ k) same)

    stages :
        (n ≤ 10) × (min 3600 (5 * 2 ^ min (n - 1) 10) ≡ 5 * 2 ^ (n - 1))
        ⊎ (11 ≤ n) × (min 3600 (5 * 2 ^ min (n - 1) 10) ≡ 3600)
    stages = elim (Bool-cases (leb n 10)) [
      | inl few ↦ inl (ground arith, early (ground arith))
      | inr many ↦ inr (ground arith, late (ground arith))
    ]
