-- ===== src/Gossip/Retry/Cases.antt =====
-- The outcomes of `handleAck` and of a round of `checkRetries`, as rules for the proofs about them.
use bright_chain_cpp.Prelude.{
  ℕ, ◌≡◌, ◌≤◌, ◌<◌, suc, ltb, List, inl, inr, String, true, some, arith, if◌then◌else◌, Bool-cases,
  Option-cases,
}
use bright_chain_cpp.Prelude.Map.{Map, find, put, erase}
use bright_chain_cpp.Gossip.Announcement.{DeliveryAckMetadata}
use bright_chain_cpp.Gossip.Retry.{
  DeliveryStatus, PendingDelivery, RetryService, validate_transition, parse_status, all_done,
  apply_ack, handle_ack, RetryConfig, Checked, waiting, given_up, retried, check_delivery,
}

-- What an acknowledgement that is accepted found.
pub record Accepted (s : RetryService) (ack : DeliveryAckMetadata) (pd : PendingDelivery)
    (old new : DeliveryStatus) : Type 0 where
  pub delivery : find ack.message_id s.pending_deliveries ≡ some pd
  pub recipient : find ack.recipient_id pd.recipient_statuses ≡ some old
  pub status : parse_status ack.status ≡ some new
  pub permitted : validate_transition old new ≡ true

abbrev pub acked : DeliveryAckMetadata → PendingDelivery → DeliveryStatus → PendingDelivery
acked ack pd new = record pd { recipient_statuses = put ack.recipient_id new pd.recipient_statuses }

abbrev pub with_deliveries : RetryService → Map PendingDelivery → RetryService
with_deliveries s m = record s { pending_deliveries = m }

module _ {ℓ} (P : RetryService → Type ℓ) (s : RetryService) (ack : DeliveryAckMetadata) where
  abbrev Rule : Type ℓ
  Rule =
      (pd : PendingDelivery) (old new : DeliveryStatus)
      → Accepted s ack pd old new
      → P (
          if all_done (put ack.recipient_id new pd.recipient_statuses)
          then with_deliveries s (erase ack.message_id s.pending_deliveries)
          else with_deliveries s (put ack.message_id (acked ack pd new) s.pending_deliveries))

  apply_ack_cases :
      (pd : PendingDelivery) (old new : DeliveryStatus)
      → find ack.message_id s.pending_deliveries ≡ some pd
      → find ack.recipient_id pd.recipient_statuses ≡ some old
      → parse_status ack.status ≡ some new
      → P s
      → Rule
      → P (apply_ack s ack.message_id ack.recipient_id pd old new)
  unfolding apply_ack
  apply_ack_cases pd old new found here parsed same rule =
      elim (Bool-cases (validate_transition old new)) [
        | inl ok ↦ rw ok (
            rule pd old new
              (record { delivery = found; recipient = here; status = parsed; permitted = ok }))
        | inr bad ↦ rw bad same
      ]

  -- An acknowledgement is ignored, or it is accepted.
  pub handle_ack_cases : P s → Rule → P (handle_ack s ack)
  unfolding handle_ack
  handle_ack_cases same rule = elim (Option-cases (find ack.message_id s.pending_deliveries)) [
    | inl e ↦ rw (e, handle_ack) same
    | inr (pd, e) ↦ elim (Option-cases (find ack.recipient_id pd.recipient_statuses)) [
      | inl f ↦ rw (e, handle_ack) (rw (f, handle_ack) same)
      | inr (old, f) ↦ elim (Option-cases (parse_status ack.status)) [
        | inl g ↦ rw (e, handle_ack) (rw (f, handle_ack) (rw (g, handle_ack) same))
        | inr (new, g) ↦
            rw (e, handle_ack)
              (rw (f, handle_ack) (rw (g, handle_ack) (apply_ack_cases pd old new e f g same rule)))
      ]
    ]
  ]

-- A delivery waits, is given up, or is retried.
pub check_delivery_cases {ℓ} :
    (P : Checked → Type ℓ) (c : RetryConfig) (handlers : List ℕ) (now : ℕ) (message_id : String)
    (pd : PendingDelivery)
    → (now < pd.next_retry_at → P (waiting pd))
    → (pd.next_retry_at ≤ now
        → c.max_retries < suc pd.retry_count
        → P (given_up handlers message_id pd))
    → (pd.next_retry_at ≤ now → suc pd.retry_count ≤ c.max_retries → P (retried c now pd))
    → P (check_delivery c handlers now message_id pd)
unfolding check_delivery
check_delivery_cases P c handlers now message_id pd early last due =
    elim (Bool-cases (ltb now pd.next_retry_at)) [
      | inl h ↦ rw h (early (ground arith))
      | inr h ↦ elim (Bool-cases (ltb c.max_retries (suc pd.retry_count))) [
        | inl k ↦ rw h (rw k (last (ground arith) (ground arith)))
        | inr k ↦ rw h (rw k (due (ground arith) (ground arith)))
      ]
    ]
