-- ===== src/Gossip/Retry/Check.antt =====
-- What `checkRetries` does to one delivery: src/gossip/retry_service.cpp.
use mathlib.Core.List.{Mem, mem-append_left, mem-append_right}
use bright_chain_cpp.Prelude.{
  ℕ, suc, ◌+◌, ◌≤◌, ◌≡◌, ◌∙◌, refl, ◌⊎◌, inl, inr, String, true, false, none, some, List, [], ◌∷◌,
  arith, if◌then◌else◌, Bool-cases, str_eq, eq_iff,
}
use bright_chain_cpp.Prelude.Map.{Map, contains_key, find, erase, find-erase}
use bright_chain_cpp.Gossip.Retry.{
  RetryConfig, PendingDelivery, RetryService, Checked, given_up, retried, check_delivery,
  check_pass, erase_all, check_retries, FailureCall,
}
use bright_chain_cpp.Gossip.Retry.Cases.{check_delivery_cases}
use bright_chain_cpp.Gossip.Retry.Backoff.{backoff_capped}

pub find-check_pass :
    (c : RetryConfig) (handlers : List ℕ) (now : ℕ) (k : String) (m : Map PendingDelivery)
    (pd : PendingDelivery)
    → find k m ≡ some pd
    → (find k (check_pass c handlers now m).deliveries
        ≡ some (check_delivery c handlers now k pd).delivery)
      × ((check_delivery c handlers now k pd).exhausted ≡ true
          → contains_key k (check_pass c handlers now m).to_remove ≡ true)
unfolding check_pass find
find-check_pass c handlers now k [] pd e = cc
find-check_pass c handlers now k ((j, w) ∷ m) pd e =
    ground (arith, eq_iff j k, find-check_pass c handlers now k m pd)

pub find-check_pass-none :
    (c : RetryConfig) (handlers : List ℕ) (now : ℕ) (k : String) (m : Map PendingDelivery)
    → find k m ≡ none
    → find k (check_pass c handlers now m).deliveries ≡ none
unfolding check_pass find
find-check_pass-none c handlers now k [] e = refl
find-check_pass-none c handlers now k ((j, w) ∷ m) e =
    ground (arith, find-check_pass-none c handlers now k m)

pub find-erase_all :
    (ks : List String) (k : String) (m : Map PendingDelivery)
    → find k (erase_all ks m) ≡ (if contains_key k ks then none else find k m)
unfolding erase_all
find-erase_all [] k m = refl
find-erase_all (j ∷ ks) k m = find-erase_all ks k (erase j m) ∙ ground (arith, find-erase j k m)

-- A delivery that a check has not removed is the one that its round left.
pub check_kept :
    (s : RetryService) (now : ℕ) (k : String) (pd : PendingDelivery)
    → find k s.pending_deliveries ≡ some pd
    → (find k (check_retries s now).0.pending_deliveries ≡ none)
      ⊎ (((check_delivery s.config s.failure_handlers now k pd).exhausted ≡ false)
          × (find k (check_retries s now).0.pending_deliveries
              ≡ some (check_delivery s.config s.failure_handlers now k pd).delivery))
unfolding check_retries
check_kept s now k pd e = ground (
  arith,
  find-check_pass s.config s.failure_handlers now k s.pending_deliveries pd e,
  find-erase_all (check_pass s.config s.failure_handlers now s.pending_deliveries).to_remove k
      (check_pass s.config s.failure_handlers now s.pending_deliveries).deliveries,
)

pub check_none :
    (s : RetryService) (now : ℕ) (k : String)
    → find k s.pending_deliveries ≡ none
    → find k (check_retries s now).0.pending_deliveries ≡ none
unfolding check_retries
check_none s now k e = ground (
  arith,
  find-check_pass-none s.config s.failure_handlers now k s.pending_deliveries e,
  find-erase_all (check_pass s.config s.failure_handlers now s.pending_deliveries).to_remove k
      (check_pass s.config s.failure_handlers now s.pending_deliveries).deliveries,
)

-- A delivery with one more retry, within the limit, and a next check that the cap bounds.
abbrev pub IsRetried : RetryConfig → ℕ → PendingDelivery → PendingDelivery → Type 0
IsRetried c now pd after =
    (after.retry_count ≡ suc pd.retry_count)
    × (after.retry_count ≤ c.max_retries)
    × (after.next_retry_at ≤ now + c.max_backoff_ms)

pub check_delivery_due :
    (c : RetryConfig) (handlers : List ℕ) (now : ℕ) (k : String) (pd : PendingDelivery)
    → pd.next_retry_at ≤ now
    → (check_delivery c handlers now k pd).exhausted ≡ false
    → IsRetried c now pd (check_delivery c handlers now k pd).delivery
unfolding given_up retried
check_delivery_due c handlers now k pd due =
    check_delivery_cases
      (λ (one : Checked). one.exhausted ≡ false → IsRetried c now pd one.delivery) c handlers now k
      pd (λ early e. absurd (omega arith)) (λ _ last e. cc)
      (λ _ more e. (refl, more, omega (arith, backoff_capped c pd.retry_count)))

-- What a check that is due leaves of a delivery.
pub check_due :
    (s : RetryService) (now : ℕ) (k : String) (pd : PendingDelivery)
    → find k s.pending_deliveries ≡ some pd
    → pd.next_retry_at ≤ now
    → (find k (check_retries s now).0.pending_deliveries ≡ none)
      ⊎ ((after : PendingDelivery) × (find k (check_retries s now).0.pending_deliveries
            ≡ some after)
          × IsRetried s.config now pd after)
check_due s now k pd e due = elim (check_kept s now k pd e) [
  | inl gone ↦ inl gone
  | inr (kept, rest) ↦
      inr (_, rest, check_delivery_due s.config s.failure_handlers now k pd due kept)
]

pub mem-check_pass-calls :
    (c : RetryConfig) (handlers : List ℕ) (now : ℕ) (k : String) (m : Map PendingDelivery)
    (pd : PendingDelivery) (call : FailureCall)
    → find k m ≡ some pd
    → Mem call (check_delivery c handlers now k pd).calls
    → Mem call (check_pass c handlers now m).calls
unfolding check_pass find
mem-check_pass-calls c handlers now k [] pd call e h = cc
mem-check_pass-calls c handlers now k ((j, w) ∷ m) pd call e h = elim (Bool-cases (str_eq j k)) [
  | inl same ↦
      let here : j ≡ k = (eq_iff j k).0 same in
      let there : w ≡ pd = ground arith in
      let first : Mem call (check_delivery c handlers now j w).calls = rw (here, there) h in
      mem-append_left (check_pass c handlers now m).calls first
  | inr other ↦
      mem-append_right (check_delivery c handlers now j w).calls
        (mem-check_pass-calls c handlers now k m pd call (ground arith) h)
]

pub mem-check_retries :
    (s : RetryService) (now : ℕ) (k : String) (pd : PendingDelivery) (call : FailureCall)
    → find k s.pending_deliveries ≡ some pd
    → Mem call (check_delivery s.config s.failure_handlers now k pd).calls
    → Mem call (check_retries s now).1
unfolding check_retries
mem-check_retries s now k pd call =
    mem-check_pass-calls s.config s.failure_handlers now k s.pending_deliveries pd call
