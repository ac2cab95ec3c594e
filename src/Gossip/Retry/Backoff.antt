-- ===== src/Gossip/Retry/Backoff.antt =====
-- `calculateBackoff`: src/gossip/retry_service.cpp.
use bright_chain_cpp.Prelude.{
  ℕ, zero, suc, ◌*◌, ◌^◌, ◌≤◌, ◌≡◌, refl, sym, ap, subst, ◌∙◌, ltb, if◌then◌else◌, arith,
}
use native.Mathlib.Nat.{pow-le-pow_right, mul-le-mul_left, pow-zero, pow-suc, mul_assoc}
use bright_chain_cpp.Gossip.Retry.{RetryConfig, calculate_backoff}

delay_grows :
    (c : RetryConfig) (i j : ℕ)
    → 1 ≤ c.backoff_multiplier
    → i ≤ j
    → c.initial_timeout_ms * c.backoff_multiplier ^ i
      ≤ c.initial_timeout_ms * c.backoff_multiplier ^ j
delay_grows c i j m h = mul-le-mul_left c.initial_timeout_ms (pow-le-pow_right m h)

abbrev pub at_most : ℕ → ℕ → ℕ
at_most cap delay = if ltb cap delay then cap else delay

-- Cutting a delay before it is multiplied does not change the cut product.
at_most_step : (cap d m : ℕ) → 1 ≤ m → at_most cap (d * m) ≡ at_most cap (at_most cap d * m)
at_most_step cap d m h =
    let longer : d ≤ d * m = grown d in
    let larger : cap ≤ cap * m = grown cap in ground (arith, longer, larger)
  where
    grown : (a : ℕ) → a ≤ a * m
    grown a = subst (λ n. n ≤ a * m) (ground arith) (mul-le-mul_left a h)

delay_suc :
    (c : RetryConfig) (i : ℕ)
    → c.initial_timeout_ms * c.backoff_multiplier ^ suc i
      ≡ c.initial_timeout_ms * c.backoff_multiplier ^ i * c.backoff_multiplier
delay_suc c i =
    ap (λ n. c.initial_timeout_ms * n) (pow-suc c.backoff_multiplier i)
    ∙ sym (mul_assoc c.initial_timeout_ms (c.backoff_multiplier ^ i) c.backoff_multiplier)

backoff_grows :
    (c : RetryConfig) (i j : ℕ)
    → i ≤ j
    → 1 ≤ c.backoff_multiplier
    → c.initial_timeout_ms ≤ c.max_backoff_ms
    → (calculate_backoff c i ≤ calculate_backoff c j) × (calculate_backoff c j ≤ c.max_backoff_ms)
unfolding calculate_backoff
backoff_grows c zero zero h m k = ground arith
backoff_grows c zero (suc j) h m k =
    ground (arith, delay_grows c zero j m, pow-zero c.backoff_multiplier)
backoff_grows c (suc i) zero h m k = absurd (elim h [ ])
backoff_grows c (suc i) (suc j) h m k =
    ground (arith, delay_grows c zero i m, delay_grows c i j m, pow-zero c.backoff_multiplier)

-- With a multiplier of at least 1 and a cap that is at least the initial timeout: the delay is the
-- initial timeout before a retry and after the first one, and from then on the delay of before
-- times the multiplier, cut to the cap. It does not shrink from one retry to a later one, and does
-- not exceed the cap.
pub backoff_mono :
    (c : RetryConfig) (i j : ℕ)
    → i ≤ j
    → 1 ≤ c.backoff_multiplier
    → c.initial_timeout_ms ≤ c.max_backoff_ms
    → (calculate_backoff c 0 ≡ c.initial_timeout_ms)
      × (calculate_backoff c 1 ≡ c.initial_timeout_ms)
      × (calculate_backoff c (suc (suc i))
          ≡ at_most c.max_backoff_ms (calculate_backoff c (suc i) * c.backoff_multiplier))
      × (calculate_backoff c i ≤ calculate_backoff c j)
      × (calculate_backoff c j ≤ c.max_backoff_ms)
unfolding calculate_backoff
backoff_mono c i j h m k =
    let (grows, capped) = backoff_grows c i j h m k in
    (
      refl,
      ground (arith, pow-zero c.backoff_multiplier),
      ap (at_most c.max_backoff_ms) (delay_suc c i)
          ∙ at_most_step c.max_backoff_ms (c.initial_timeout_ms * c.backoff_multiplier ^ i)
              c.backoff_multiplier m,
      grows,
      capped,
    )

-- Whatever the configuration, a retry waits no longer than the cap.
pub backoff_capped : (c : RetryConfig) (n : ℕ) → calculate_backoff c (suc n) ≤ c.max_backoff_ms
unfolding calculate_backoff
backoff_capped c n = ground arith
