-- ===== src/Gossip/Retry/Transitions.antt =====
-- The status of a recipient moves along the state machine of `validateTransition`:
-- src/gossip/retry_service.cpp.
use bright_chain_cpp.Prelude.{
  ℕ, suc, ◌≤◌, ◌<◌, ◌≡◌, refl, ◌⊎◌, inl, inr, String, true, false, none, some, arith, Bool-cases,
  eq_iff, List, [], ◌∷◌, str_eq, sym, subst,
}
use bright_chain_cpp.Prelude.Map.{
  Map, find, put, erase, find-put, find-erase, find-emplace_kept, Distinct,
}
use bright_chain_cpp.Gossip.Announcement.{DeliveryAckMetadata}
use bright_chain_cpp.Gossip.Retry.{
  DeliveryStatus, RetryConfig, PendingDelivery, RetryService, validate_transition, handle_ack,
  Checked, update_all, retry_status, given_up, retried, check_delivery, check_retries, all_done,
  new_delivery,
}
use bright_chain_cpp.Gossip.Retry.Cases.{
  handle_ack_cases, acked, with_deliveries, check_delivery_cases,
}
use bright_chain_cpp.Gossip.Retry.Removed.{exhausted-last, check-exhausted, check-not_exhausted}
use bright_chain_cpp.Gossip.Retry.Invariant.{Call, tracks, acks, checks, step}

abbrev pub Follows : DeliveryStatus → DeliveryStatus → Type 0
Follows old new = (new ≡ old) ⊎ (validate_transition old new ≡ true)

-- Recipient `r` of a delivery has a status that follows `old`.
abbrev pub HasNext : String → DeliveryStatus → PendingDelivery → Type 0
HasNext r old pd =
    (new : DeliveryStatus) × (find r pd.recipient_statuses ≡ some new) × Follows old new

-- Delivery `k` is still pending, and recipient `r` has a status that follows `old`.
abbrev pub Stays : String → String → DeliveryStatus → RetryService → Type 0
Stays k r old after =
    (pd : PendingDelivery) × (find k after.pending_deliveries ≡ some pd) × HasNext r old pd

-- An acknowledgement of a permitted transition after which all recipients are done.
pub record Completes (s : RetryService) (c : Call) (k : String) (pd : PendingDelivery)
    : Type 0 where
  pub ack : DeliveryAckMetadata
  pub before : DeliveryStatus
  pub reached : DeliveryStatus
  pub called : c ≡ acks ack
  pub named : ack.message_id ≡ k
  pub recipient : find ack.recipient_id pd.recipient_statuses ≡ some before
  pub permitted : validate_transition before reached ≡ true
  pub done : all_done (put ack.recipient_id reached pd.recipient_statuses) ≡ true

-- A check that is due after the last retry.
pub record GivesUp (s : RetryService) (c : Call) (pd : PendingDelivery) : Type 0 where
  pub now : ℕ
  pub called : c ≡ checks now
  pub due : pd.next_retry_at ≤ now
  pub last : s.config.max_retries < suc pd.retry_count

-- Delivery `k` is removed, and for one of two reasons.
abbrev pub Ends : RetryService → Call → String → PendingDelivery → RetryService → Type 0
Ends s c k pd after =
    (find k after.pending_deliveries ≡ none) × (Completes s c k pd ⊎ GivesUp s c pd)

abbrev pub Moves :
    RetryService → Call → String → String → PendingDelivery → DeliveryStatus → RetryService → Type 0
Moves s c k r pd old after = Stays k r old after ⊎ Ends s c k pd after

retried_status :
    (r : String) (m : Map DeliveryStatus) (old : DeliveryStatus)
    → find r m ≡ some old
    → find r (update_all retry_status m) ≡ some (retry_status old)
unfolding find
retried_status r [] old h = cc
retried_status r ((j, d) ∷ m) old h = ground (arith, retried_status r m old)

retry_status-Follows : (old : DeliveryStatus) → Follows old (retry_status old)
unfolding validate_transition
retry_status-Follows old = ground arith

-- What a round of `checkRetries` does to a recipient: it moves on, or the delivery is given up.
check_delivery-HasNext :
    (c : RetryConfig) (handlers : List ℕ) (now : ℕ) (k r : String) (pd : PendingDelivery)
    (old : DeliveryStatus)
    → find r pd.recipient_statuses ≡ some old
    → (check_delivery c handlers now k pd).exhausted ≡ false
    → HasNext r old (check_delivery c handlers now k pd).delivery
unfolding given_up retried
check_delivery-HasNext c handlers now k r pd old h =
    check_delivery_cases (λ (one : Checked). one.exhausted ≡ false → HasNext r old one.delivery) c
      handlers now k pd (λ early e. (old, h, inl refl)) (λ due last e. cc)
      λ due more e.
        (retry_status old, retried_status r pd.recipient_statuses old h, retry_status-Follows old)

acked-HasNext :
    (ack : DeliveryAckMetadata) (pd : PendingDelivery) (old new : DeliveryStatus) (r : String)
    (d : DeliveryStatus)
    → find ack.recipient_id pd.recipient_statuses ≡ some old
    → validate_transition old new ≡ true
    → find r pd.recipient_statuses ≡ some d
    → HasNext r d (acked ack pd new)
acked-HasNext ack pd old new r d here ok h = elim (Bool-cases (str_eq ack.recipient_id r)) [
  | inl same ↦
      let it : d ≡ old = ground (arith, eq_iff ack.recipient_id r) in
      (
        new,
        ground (arith, find-put ack.recipient_id r new pd.recipient_statuses),
        inr (subst (λ x. validate_transition x new ≡ true) (sym it) ok),
      )
  | inr other ↦ (d, ground (arith, find-put ack.recipient_id r new pd.recipient_statuses), inl refl)
]

module _ (s : RetryService) (k r : String) (pd : PendingDelivery) (d : DeliveryStatus)
    (known : find k s.pending_deliveries ≡ some pd)
    (h : find r pd.recipient_statuses ≡ some d) where
  same-Stays :
      (after : RetryService) → find k after.pending_deliveries ≡ some pd → Stays k r d after
  same-Stays after e = (pd, e, (d, h, inl refl))

  handle_ack-Moves : (ack : DeliveryAckMetadata) → Moves s (acks ack) k r pd d (handle_ack s ack)
  handle_ack-Moves ack =
      handle_ack_cases (Moves s (acks ack) k r pd d) s ack (inl (same-Stays s known))
        λ found old new ok.
          elim (Bool-cases (all_done (put ack.recipient_id new found.recipient_statuses))) [
            | inl done ↦ rw done (elim (Bool-cases (str_eq ack.message_id k)) [
              | inl same ↦
                  let it : found ≡ pd = ground (arith, eq_iff ack.message_id k, ok.delivery) in
                  inr (
                    ground (arith, find-erase ack.message_id k s.pending_deliveries),
                    inl (record {
                      ack = ack;
                      before = old;
                      reached = new;
                      called = refl;
                      named = (eq_iff ack.message_id k).0 same;
                      recipient =
                          subst
                            (λ (q : PendingDelivery).
                              find ack.recipient_id q.recipient_statuses ≡ some old)
                            it ok.recipient;
                      permitted = ok.permitted;
                      done =
                          subst
                            (λ (q : PendingDelivery).
                              all_done (put ack.recipient_id new q.recipient_statuses) ≡ true)
                            it done;
                    }),
                  )
              | inr other ↦ inl (
                  same-Stays (with_deliveries s (erase ack.message_id s.pending_deliveries))
                    (ground (arith, find-erase ack.message_id k s.pending_deliveries)))
            ])
            | inr more ↦ rw more (
                inl (elim (Bool-cases (str_eq ack.message_id k)) [
                  | inl same ↦
                      let it : pd ≡ found = ground (arith, eq_iff ack.message_id k, ok.delivery) in
                      (
                        acked ack found new,
                        ground (
                          arith,
                          find-put ack.message_id k (acked ack found new) s.pending_deliveries,
                        ),
                        acked-HasNext ack found old new r d ok.recipient ok.permitted (
                            subst (λ (q : PendingDelivery). find r q.recipient_statuses ≡ some d) it
                              h),
                      )
                  | inr other ↦
                      same-Stays
                        (with_deliveries s
                          (put ack.message_id (acked ack found new) s.pending_deliveries))
                        (ground (
                          arith,
                          find-put ack.message_id k (acked ack found new) s.pending_deliveries,
                        ))
                ]))
          ]

  check_retries-Moves :
      (now : ℕ)
      → Distinct s.pending_deliveries
      → Moves s (checks now) k r pd d (check_retries s now).0
  check_retries-Moves now distinct =
      elim (Bool-cases (check_delivery s.config s.failure_handlers now k pd).exhausted) [
        | inl exhausted ↦
            let (due, last) = exhausted-last s.config s.failure_handlers now k pd exhausted in
            inr (
              check-exhausted s now k pd known exhausted,
              inr (record { now = now; called = refl; due = due; last = last }),
            )
        | inr kept ↦ inl (
          _,
          check-not_exhausted s now k pd distinct known kept,
          check_delivery-HasNext s.config s.failure_handlers now k r pd d h kept,
        )
      ]

-- Each delivery stands once in the map. Whatever is called while a delivery is pending, for each of its recipients: the delivery stays, and
-- the recipient keeps his status or moves to another by a transition that `validateTransition`
-- permits; or the delivery is removed, by an acknowledgement of a permitted transition after which
-- all recipients are done, or by a check that is due after the last retry.
pub step-Follows :
    (s : RetryService) (c : Call) (k r : String) (pd : PendingDelivery) (old : DeliveryStatus)
    → Distinct s.pending_deliveries
    → find k s.pending_deliveries ≡ some pd
    → find r pd.recipient_statuses ≡ some old
    → Moves s c k r pd old (step s c)
unfolding step
step-Follows s (tracks message_id block_ids metadata now) k r pd old distinct e h =
    let kept =
      find-emplace_kept message_id k (new_delivery s.config message_id block_ids metadata now) pd
        s.pending_deliveries e in
    inl (pd, kept, (old, h, inl refl))
step-Follows s (acks ack) k r pd old distinct e h = handle_ack-Moves s k r pd old e h ack
step-Follows s (checks now) k r pd old distinct e h =
    check_retries-Moves s k r pd old e h now distinct
