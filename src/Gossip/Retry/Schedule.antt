-- ===== src/Gossip/Retry/Schedule.antt =====
-- Acknowledgements leave the schedule of a delivery alone: src/gossip/retry_service.cpp.

use bright_chain_cpp.Prelude.{
  ℕ, ◌≡◌, ◌∙◌, refl, ◌⊎◌, inl, inr, String, none, some, List, [], ◌∷◌, arith, Bool-cases, str_eq,
  eq_iff,
}
use bright_chain_cpp.Prelude.Map.{find, put, erase, find-put, find-erase}
use bright_chain_cpp.Gossip.Announcement.{DeliveryAckMetadata}
use bright_chain_cpp.Gossip.Retry.{
  DeliveryStatus, PendingDelivery, RetryService, handle_ack, check_retries, all_done,
}
use bright_chain_cpp.Gossip.Retry.Cases.{handle_ack_cases, acked, with_deliveries}

-- Acknowledgements leave the schedule of a delivery alone.
abbrev pub SameSchedule : PendingDelivery → String → RetryService → Type 0
SameSchedule pd k after =
    (find k after.pending_deliveries ≡ none)
    ⊎ ((pd' : PendingDelivery) × (find k after.pending_deliveries ≡ some pd')
        × (pd'.retry_count ≡ pd.retry_count)
        × (pd'.next_retry_at ≡ pd.next_retry_at))

pub erase-SameSchedule :
    (s : RetryService) (j k : String) (pd : PendingDelivery)
    → find k s.pending_deliveries ≡ some pd
    → SameSchedule pd k (with_deliveries s (erase j s.pending_deliveries))
erase-SameSchedule s j k pd e = elim (Bool-cases (str_eq j k)) [
  | inl same ↦ inl (ground (arith, find-erase j k s.pending_deliveries))
  | inr other ↦ inr (pd, ground (arith, find-erase j k s.pending_deliveries), refl, refl)
]

pub acked-SameSchedule :
    (s : RetryService) (ack : DeliveryAckMetadata) (k : String) (pd pd' : PendingDelivery)
    (new : DeliveryStatus)
    → find k s.pending_deliveries ≡ some pd
    → find ack.message_id s.pending_deliveries ≡ some pd'
    → SameSchedule pd k
        (with_deliveries s (put ack.message_id (acked ack pd' new) s.pending_deliveries))
acked-SameSchedule s ack k pd pd' new e f = elim (Bool-cases (str_eq ack.message_id k)) [
  | inl same ↦ inr (
    acked ack pd' new,
    ground (arith, find-put ack.message_id k (acked ack pd' new) s.pending_deliveries),
    ground (arith, eq_iff ack.message_id k),
    ground (arith, eq_iff ack.message_id k),
  )
  | inr other ↦ inr (
    pd,
    ground (arith, find-put ack.message_id k (acked ack pd' new) s.pending_deliveries),
    refl,
    refl,
  )
]

pub handle_ack-SameSchedule :
    (s : RetryService) (ack : DeliveryAckMetadata) (k : String) (pd : PendingDelivery)
    → find k s.pending_deliveries ≡ some pd
    → SameSchedule pd k (handle_ack s ack)
handle_ack-SameSchedule s ack k pd e =
    handle_ack_cases (SameSchedule pd k) s ack (inr (pd, e, refl, refl)) λ pd' old new ok.
      elim (Bool-cases (all_done (put ack.recipient_id new pd'.recipient_statuses))) [
        | inl done ↦ rw done (erase-SameSchedule s ack.message_id k pd e)
        | inr more ↦ rw more (acked-SameSchedule s ack k pd pd' new e ok.delivery)
      ]

pub handle_ack-none :
    (s : RetryService) (ack : DeliveryAckMetadata) (k : String)
    → find k s.pending_deliveries ≡ none
    → find k (handle_ack s ack).pending_deliveries ≡ none
handle_ack-none s ack k e =
    handle_ack_cases (λ after. find k after.pending_deliveries ≡ none) s ack e
      λ pd' old new ok. ground (
        arith,
        find-erase ack.message_id k s.pending_deliveries,
        find-put ack.message_id k (acked ack pd' new) s.pending_deliveries,
        eq_iff ack.message_id k,
        ok.delivery,
      )

pub config-handle_ack :
    (s : RetryService) (ack : DeliveryAckMetadata) → (handle_ack s ack).config ≡ s.config
config-handle_ack s ack =
    handle_ack_cases (λ after. after.config ≡ s.config) s ack refl λ pd old new ok. ground arith

-- Rounds of the timer, each with the acknowledgements that came before its check.
unfoldable pub handle_acks : RetryService → List DeliveryAckMetadata → RetryService
handle_acks s [] = s
handle_acks s (ack ∷ acks) = handle_acks (handle_ack s ack) acks

abbrev pub Round : Type 0
Round = List DeliveryAckMetadata × ℕ

unfoldable pub rounds : RetryService → List Round → RetryService
unfolding handle_acks
rounds s [] = s
rounds s ((acks, now) ∷ rs) = rounds (check_retries (handle_acks s acks) now).0 rs

pub handle_acks-none :
    (s : RetryService) (acks : List DeliveryAckMetadata) (k : String)
    → find k s.pending_deliveries ≡ none
    → find k (handle_acks s acks).pending_deliveries ≡ none
unfolding handle_acks
handle_acks-none s [] k e = e
handle_acks-none s (ack ∷ acks) k e =
    handle_acks-none (handle_ack s ack) acks k (handle_ack-none s ack k e)

pub handle_acks-SameSchedule :
    (s : RetryService) (acks : List DeliveryAckMetadata) (k : String) (pd : PendingDelivery)
    → SameSchedule pd k s
    → SameSchedule pd k (handle_acks s acks)
unfolding handle_acks
handle_acks-SameSchedule s [] k pd e = e
handle_acks-SameSchedule s (ack ∷ acks) k pd (inl gone) =
    handle_acks-SameSchedule (handle_ack s ack) acks k pd (inl (handle_ack-none s ack k gone))
handle_acks-SameSchedule s (ack ∷ acks) k pd (inr (x, here, count, next)) =
    handle_acks-SameSchedule (handle_ack s ack) acks k pd
      (elim (handle_ack-SameSchedule s ack k x here) [
        | inl gone ↦ inl gone
        | inr (y, there, count', next') ↦ inr (y, there, count' ∙ count, next' ∙ next)
      ])

pub config-handle_acks :
    (s : RetryService) (acks : List DeliveryAckMetadata) → (handle_acks s acks).config ≡ s.config
unfolding handle_acks
config-handle_acks s [] = refl
config-handle_acks s (ack ∷ acks) =
    config-handle_acks (handle_ack s ack) acks ∙ config-handle_ack s ack

pub config-check_retries : (s : RetryService) (now : ℕ) → (check_retries s now).0.config ≡ s.config
unfolding check_retries
config-check_retries s now = refl
