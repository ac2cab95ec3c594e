-- ===== src/Gossip/Retry/Removed.antt =====
-- Which deliveries `checkRetries` of src/gossip/retry_service.cpp removes.
use bright_chain_cpp.Prelude.{
  ℕ, suc, ◌≤◌, ◌<◌, ◌≡◌, refl, inl, inr, String, true, false, none, some, arith, Bool-cases, eq_iff,
  List, [], ◌∷◌, str_eq, subst,
}
use bright_chain_cpp.Prelude.Map.{Map, find, contains_key, Lacks, Distinct}
use bright_chain_cpp.Gossip.Retry.{
  RetryConfig, PendingDelivery, RetryService, Checked, given_up, retried, check_delivery,
  check_retries, check_pass,
}
use bright_chain_cpp.Gossip.Retry.Cases.{check_delivery_cases}
use bright_chain_cpp.Gossip.Retry.Check.{find-check_pass, find-erase_all}

pub exhausted-last :
    (c : RetryConfig) (handlers : List ℕ) (now : ℕ) (k : String) (pd : PendingDelivery)
    → (check_delivery c handlers now k pd).exhausted ≡ true
    → (pd.next_retry_at ≤ now) × (c.max_retries < suc pd.retry_count)
unfolding given_up retried
exhausted-last c handlers now k pd =
    check_delivery_cases
      (λ (one : Checked).
        one.exhausted ≡ true → (pd.next_retry_at ≤ now) × (c.max_retries < suc pd.retry_count))
      c handlers now k pd (λ early e. cc) (λ due last e. (due, last)) (λ due more e. cc)

to_remove-Lacks :
    (c : RetryConfig) (handlers : List ℕ) (now : ℕ) (k : String) (m : Map PendingDelivery)
    → Lacks k m
    → contains_key k (check_pass c handlers now m).to_remove ≡ false
unfolding check_pass
to_remove-Lacks c handlers now k [] lacks = refl
to_remove-Lacks c handlers now k ((j, w) ∷ m) (other, lacks) =
    ground (arith, other, to_remove-Lacks c handlers now k m lacks)

to_remove-kept :
    (c : RetryConfig) (handlers : List ℕ) (now : ℕ) (k : String) (m : Map PendingDelivery)
    (pd : PendingDelivery)
    → Distinct m
    → find k m ≡ some pd
    → (check_delivery c handlers now k pd).exhausted ≡ false
    → contains_key k (check_pass c handlers now m).to_remove ≡ false
unfolding check_pass find
to_remove-kept c handlers now k [] pd distinct e kept = cc
to_remove-kept c handlers now k ((j, w) ∷ m) pd (fresh, distinct) e kept =
    elim (Bool-cases (str_eq j k)) [
      | inl same ↦
          let lacks = subst (λ i. Lacks i m) ((eq_iff j k).0 same) fresh in
          ground (arith, eq_iff j k, to_remove-Lacks c handlers now k m lacks)
      | inr other ↦ ground (arith, to_remove-kept c handlers now k m pd distinct)
    ]

pub check-exhausted :
    (s : RetryService) (now : ℕ) (k : String) (pd : PendingDelivery)
    → find k s.pending_deliveries ≡ some pd
    → (check_delivery s.config s.failure_handlers now k pd).exhausted ≡ true
    → find k (check_retries s now).0.pending_deliveries ≡ none
unfolding check_retries
check-exhausted s now k pd e exhausted = ground (
  arith,
  find-check_pass s.config s.failure_handlers now k s.pending_deliveries pd e,
  find-erase_all (check_pass s.config s.failure_handlers now s.pending_deliveries).to_remove k
      (check_pass s.config s.failure_handlers now s.pending_deliveries).deliveries,
)

pub check-not_exhausted :
    (s : RetryService) (now : ℕ) (k : String) (pd : PendingDelivery)
    → Distinct s.pending_deliveries
    → find k s.pending_deliveries ≡ some pd
    → (check_delivery s.config s.failure_handlers now k pd).exhausted ≡ false
    → find k (check_retries s now).0.pending_deliveries
      ≡ some (check_delivery s.config s.failure_handlers now k pd).delivery
unfolding check_retries
check-not_exhausted s now k pd distinct e kept =
    let stays =
      to_remove-kept s.config s.failure_handlers now k s.pending_deliveries pd distinct e kept in
    ground (
      arith,
      find-check_pass s.config s.failure_handlers now k s.pending_deliveries pd e,
      find-erase_all (check_pass s.config s.failure_handlers now s.pending_deliveries).to_remove k
          (check_pass s.config s.failure_handlers now s.pending_deliveries).deliveries,
      stays,
    )
