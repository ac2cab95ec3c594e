-- ===== src/Gossip/Retry/Tests.antt =====
-- Instances of the theorems on src/gossip/retry_service.cpp.
use mathlib.Core.List.{Mem, mem-cons_self}
use bright_chain_cpp.Prelude.{ℕ, ◌≤◌, ◌*◌, ◌≡◌, refl, true, false, none, List, [], ◌∷◌, arith}
use bright_chain_cpp.Prelude.Map.{find}
use bright_chain_cpp.Gossip.Announcement.{MessageDeliveryMetadata, DeliveryAckMetadata}
use bright_chain_cpp.Gossip.Retry.{
  DeliveryStatus, announced, pending, RetryConfig, PendingDelivery, RetryService, init,
  track_delivery, handle_ack, check_retries, calculate_backoff,
}
use bright_chain_cpp.Gossip.Retry.Invariant.{
  Inv, tracks, checks, step, run, run-init-Inv, ack_before_retry,
}
use bright_chain_cpp.Gossip.Retry.Backoff.{at_most, backoff_mono}
use bright_chain_cpp.Gossip.Retry.Schedule.{Round, rounds}
use bright_chain_cpp.Gossip.Retry.Exhaustion.{tracked_ends, give_up_notifies, failure_call}
use bright_chain_cpp.Gossip.Retry.Transitions.{Moves, step-Follows}

abbrev config : RetryConfig
config = record {
  initial_timeout_ms = 100;
  backoff_multiplier = 2;
  max_retries = 1;
  max_backoff_ms = 400;
}

abbrev letter : MessageDeliveryMetadata
letter = record {
  message_id = "m1";
  recipient_ids = "ann" ∷ "bob" ∷ [];
  priority = "high";
  block_ids = "b1" ∷ [];
  cbl_block_id = "b1";
  ack_required = true;
  gateway_outbound = false;
}

abbrev two_checks : List Round
two_checks = ([], 100) ∷ ([], 500) ∷ []

tracked_ends_example :
    find "m1"
      (rounds
        (track_delivery (init config) "m1" ("b1" ∷ []) letter 0)
        two_checks).pending_deliveries
    ≡ none
unfolding find
tracked_ends_example =
    tracked_ends (init config) "m1" ("b1" ∷ []) letter 0 two_checks refl (omega arith)
      (omega arith, (omega arith, tt))

-- A delivery that has had its one retry.
abbrev delivery : ℕ → DeliveryStatus → PendingDelivery
delivery retries status = record {
  message_id = "m1";
  block_ids = "b1" ∷ [];
  metadata = letter;
  recipient_statuses = ("ann", status) ∷ [];
  retry_count = retries;
  next_retry_at = 300;
  created_at = 0;
}

abbrev service : ℕ → DeliveryStatus → RetryService
service retries status = record {
  config = config;
  pending_deliveries = ("m1", delivery retries status) ∷ [];
  failure_handlers = 7 ∷ [];
  running = true;
}

give_up_notifies_example :
    (find "m1" (check_retries (service 1 pending) 300).0.pending_deliveries ≡ none)
    × Mem (failure_call "m1" (delivery 1 pending) 7) (check_retries (service 1 pending) 300).1
unfolding find
give_up_notifies_example =
    give_up_notifies (service 1 pending) 300 "m1" (delivery 1 pending) 7 refl (omega arith)
      (omega arith) mem-cons_self

step-Follows_example :
    Moves
      (service 0 announced)
      (checks 300)
      "m1"
      "ann"
      (delivery 0 announced)
      announced
      (step (service 0 announced) (checks 300))
unfolding find
step-Follows_example =
    step-Follows (service 0 announced) (checks 300) "m1" "ann" (delivery 0 announced) announced
      (tt, tt) refl refl

run-init-Inv_example : Inv (run (init config) (tracks "m1" ("b1" ∷ []) letter 0 ∷ checks 100 ∷ []))
run-init-Inv_example = run-init-Inv config (tracks "m1" ("b1" ∷ []) letter 0 ∷ checks 100 ∷ [])

abbrev early_ack : DeliveryAckMetadata
early_ack = record {
  message_id = "m1";
  recipient_id = "ann";
  status = "delivered";
  original_sender_node = "n1";
}

ack_before_retry_example : handle_ack (service 0 announced) early_ack ≡ service 0 announced
unfolding find
ack_before_retry_example =
    ack_before_retry (service 0 announced) early_ack (delivery 0 announced)
      (record { fits = ((omega arith, (refl, tt)), tt) }) refl refl

backoff_mono_example :
    (calculate_backoff config 0 ≡ 100)
    × (calculate_backoff config 1 ≡ 100)
    × (calculate_backoff config 3 ≡ at_most 400 (calculate_backoff config 2 * 2))
    × (calculate_backoff config 1 ≤ calculate_backoff config 4)
    × (calculate_backoff config 4 ≤ 400)
backoff_mono_example = backoff_mono config 1 4 (omega arith) (omega arith) (omega arith)
