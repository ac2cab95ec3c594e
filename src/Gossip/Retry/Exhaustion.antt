-- ===== src/Gossip/Retry/Exhaustion.antt =====
-- A delivery that nobody acknowledges in full is given up in time: src/gossip/retry_service.cpp.
use mathlib.Core.List.{Mem, mem-map_of_mem}
use bright_chain_cpp.Prelude.{
  ℕ, ◌+◌, ◌≤◌, ◌<◌, ◌≡◌, ◌∙◌, refl, ap, subst, inl, inr, String, true, false, none, some, List, [],
  ◌∷◌, arith, length,
}
use bright_chain_cpp.Prelude.Map.{find, find-emplace_new}
use bright_chain_cpp.Gossip.Announcement.{MessageDeliveryMetadata}
use bright_chain_cpp.Gossip.Retry.{
  RetryConfig, PendingDelivery, RetryService, Checked, given_up, check_delivery, check_retries,
  new_delivery, track_delivery, FailureCall, unacknowledged,
}
use bright_chain_cpp.Gossip.Retry.Cases.{check_delivery_cases}
use bright_chain_cpp.Gossip.Retry.Check.{
  check_none, check_due, check_kept, IsRetried, mem-check_retries,
}
use bright_chain_cpp.Gossip.Retry.Schedule.{
  handle_acks, Round, rounds, handle_acks-none, handle_acks-SameSchedule, config-handle_acks,
  config-check_retries,
}

-- The first check comes at `due` or later, and each further one a full cap after the one before.
abbrev pub AreSpaced : RetryConfig → ℕ → List Round → Type 0
AreSpaced c due [] = Unit
AreSpaced c due ((acks, now) ∷ rs) = (due ≤ now) × AreSpaced c (now + c.max_backoff_ms) rs

AreSpaced-mono :
    (c : RetryConfig) (m n : ℕ) (rs : List Round) → m ≤ n → AreSpaced c n rs → AreSpaced c m rs
AreSpaced-mono c m n [] h a = tt
AreSpaced-mono c m n ((acks, now) ∷ rs) h a = (omega arith, a.1)

rounds_none :
    (s : RetryService) (rs : List Round) (k : String)
    → find k s.pending_deliveries ≡ none
    → find k (rounds s rs).pending_deliveries ≡ none
unfolding rounds
rounds_none s [] k e = e
rounds_none s ((acks, now) ∷ rs) k e =
    rounds_none (check_retries (handle_acks s acks) now).0 rs k
      (check_none (handle_acks s acks) now k (handle_acks-none s acks k e))

-- The rounds that are left suffice.
rounds_suffice :
    (c : RetryConfig) (s : RetryService) (rs : List Round) (k : String) (pd : PendingDelivery)
    → s.config ≡ c
    → find k s.pending_deliveries ≡ some pd
    → pd.retry_count ≤ c.max_retries
    → c.max_retries < pd.retry_count + length rs
    → AreSpaced c pd.next_retry_at rs
    → find k (rounds s rs).pending_deliveries ≡ none
unfolding rounds
rounds_suffice c s [] k pd same e within enough spaced = absurd (omega arith)
rounds_suffice c s ((acks, now) ∷ rs) k pd same e within enough spaced =
    let acked_s : RetryService = handle_acks s acks in
    let checked : RetryService = (check_retries acked_s now).0 in
    let config_same : acked_s.config ≡ c = config-handle_acks s acks ∙ same in
    elim (handle_acks-SameSchedule s acks k pd (inr (pd, e, refl, refl))) [
      | inl gone ↦ rounds_none checked rs k (check_none acked_s now k gone)
      | inr (x, here, count, next) ↦ elim (check_due acked_s now k x here (omega arith)) [
        | inl gone ↦ rounds_none checked rs k gone
        | inr (after, there, more) ↦
            let once_more : IsRetried c now x after =
              subst (λ d. IsRetried d now x after) config_same more in
            rounds_suffice c (check_retries (handle_acks s acks) now).0 rs k after
              (config-check_retries acked_s now ∙ config_same) there (omega arith) (omega arith)
              (AreSpaced-mono c after.next_retry_at (now + c.max_backoff_ms) rs (omega arith)
                spaced.1)
      ]
    ]

-- A delivery that is tracked anew is no longer pending after `max_retries + 1` checks, the first one
-- when the initial timeout is over and each further one a full backoff cap after the one before,
-- whatever acknowledgements come in between.
pub tracked_ends :
    (s : RetryService) (message_id : String) (block_ids : List String)
    (metadata : MessageDeliveryMetadata) (now : ℕ) (rs : List Round)
    → find message_id s.pending_deliveries ≡ none
    → s.config.max_retries < length rs
    → AreSpaced s.config (now + s.config.initial_timeout_ms) rs
    → find message_id
        (rounds (track_delivery s message_id block_ids metadata now) rs).pending_deliveries
      ≡ none
unfolding track_delivery
tracked_ends s message_id block_ids metadata now rs new enough spaced =
    rounds_suffice s.config (track_delivery s message_id block_ids metadata now) rs message_id
      (new_delivery s.config message_id block_ids metadata now) refl
      (find-emplace_new message_id _ s.pending_deliveries new) (omega arith) (omega arith) spaced

check_delivery_last :
    (c : RetryConfig) (handlers : List ℕ) (now : ℕ) (k : String) (pd : PendingDelivery)
    → pd.next_retry_at ≤ now
    → c.max_retries ≤ pd.retry_count
    → check_delivery c handlers now k pd ≡ given_up handlers k pd
check_delivery_last c handlers now k pd due last =
    check_delivery_cases (λ one. one ≡ given_up handlers k pd) c handlers now k pd
      (λ early. absurd (omega arith)) (λ _ _. refl) (λ _ more. absurd (omega arith))

abbrev pub failure_call : String → PendingDelivery → ℕ → FailureCall
failure_call k pd h = record {
  handler = h;
  message_id = k;
  failed_recipients = unacknowledged pd.recipient_statuses;
}

given_up-calls :
    (handlers : List ℕ) (k : String) (pd : PendingDelivery) (h : ℕ)
    → Mem h handlers
    → Mem (failure_call k pd h) (given_up handlers k pd).calls
unfolding given_up
given_up-calls handlers k pd h m = mem-map_of_mem (failure_call k pd) m

given_up-exhausted :
    (handlers : List ℕ) (k : String) (pd : PendingDelivery)
    → (given_up handlers k pd).exhausted ≡ true
unfolding given_up
given_up-exhausted handlers k pd = refl

still_there :
    (s : RetryService) (now : ℕ) (k : String) (pd : PendingDelivery)
    → check_delivery s.config s.failure_handlers now k pd ≡ given_up s.failure_handlers k pd
    → (check_delivery s.config s.failure_handlers now k pd).exhausted ≡ false
    → ⊥
still_there s now k pd round kept =
    cc (
      ap (λ (one : Checked). one.exhausted) round,
      kept,
      given_up-exhausted s.failure_handlers k pd,
    )

-- A check that is due after the last retry gives the delivery up: it is no longer pending, and each
-- failure handler is called with it and with exactly the recipients that are `Announced` or
-- `Pending`.
pub give_up_notifies :
    (s : RetryService) (now : ℕ) (k : String) (pd : PendingDelivery) (h : ℕ)
    → find k s.pending_deliveries ≡ some pd
    → pd.next_retry_at ≤ now
    → s.config.max_retries ≤ pd.retry_count
    → Mem h s.failure_handlers
    → (find k (check_retries s now).0.pending_deliveries ≡ none)
      × Mem (failure_call k pd h) (check_retries s now).1
give_up_notifies s now k pd h e due last m =
    let round = check_delivery_last s.config s.failure_handlers now k pd due last in
    (
      elim (check_kept s now k pd e) [
        | inl gone ↦ gone
        | inr (kept, _) ↦ absurd (still_there s now k pd round kept)
      ],
      mem-check_retries s now k pd (failure_call k pd h) e
          (rw round (given_up-calls s.failure_handlers k pd h m)),
    )
