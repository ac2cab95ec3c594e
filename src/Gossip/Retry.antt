-- ===== src/Gossip/Retry.antt =====
-- include/brightchain/gossip/retry_service.hpp and src/gossip/retry_service.cpp. Time is in
-- milliseconds and an argument of each call; `int` settings are natural numbers.
pub mod Backoff
pub mod Cases
pub mod Check
pub mod Exhaustion
pub mod Invariant
pub mod Removed
pub mod Schedule
mod Tests
pub mod Transitions
use bright_chain_cpp.Prelude.{
  ℕ, zero, suc, ◌+◌, ◌*◌, ◌^◌, String, Bool, true, false, ◌&&◌, ◌||◌, not, Option, none, some, List,
  [], ◌∷◌, ◌++◌, map, ltb, str_eq, if◌then◌else◌, length,
}
use bright_chain_cpp.Prelude.Map.{Map, find, put, emplace, erase}
use bright_chain_cpp.Gossip.Announcement.{MessageDeliveryMetadata, DeliveryAckMetadata}

pub data DeliveryStatus : Type 0 where
  announced pending delivered read failed bounced : DeliveryStatus

pub record RetryConfig : Type 0 where
  pub initial_timeout_ms : ℕ
  pub backoff_multiplier : ℕ
  pub max_retries : ℕ
  pub max_backoff_ms : ℕ

pub record PendingDelivery : Type 0 where
  pub message_id : String
  pub block_ids : List String
  pub metadata : MessageDeliveryMetadata
  pub recipient_statuses : Map DeliveryStatus
  pub retry_count : ℕ
  pub next_retry_at : ℕ
  pub created_at : ℕ

-- A registered failure handler is known by its number.
pub record RetryService : Type 0 where
  pub config : RetryConfig
  pub pending_deliveries : Map PendingDelivery
  pub failure_handlers : List ℕ
  pub running : Bool

-- One call of a failure handler.
pub record FailureCall : Type 0 where
  pub handler : ℕ
  pub message_id : String
  pub failed_recipients : List String

abbrev pub init : RetryConfig → RetryService
init c = record { config = c; pending_deliveries = []; failure_handlers = []; running = false }

pub announce_all : List String → Map DeliveryStatus → Map DeliveryStatus
announce_all [] m = m
announce_all (r ∷ rs) m = announce_all rs (put r announced m)

new_delivery : RetryConfig → String → List String → MessageDeliveryMetadata → ℕ → PendingDelivery
unfolding announce_all
new_delivery c message_id block_ids metadata now = record {
  message_id = message_id;
  block_ids = block_ids;
  metadata = metadata;
  recipient_statuses = announce_all metadata.recipient_ids [];
  retry_count = 0;
  next_retry_at = now + c.initial_timeout_ms;
  created_at = now;
}

unfoldable pub track_delivery :
    RetryService → String → List String → MessageDeliveryMetadata → ℕ → RetryService
unfolding new_delivery
track_delivery s message_id block_ids metadata now = record s {
  pending_deliveries =
      emplace message_id (new_delivery s.config message_id block_ids metadata now)
        s.pending_deliveries;
}

unfoldable pub validate_transition : DeliveryStatus → DeliveryStatus → Bool
validate_transition announced pending = true
validate_transition announced _ = false
validate_transition pending delivered = true
validate_transition pending failed = true
validate_transition pending bounced = true
validate_transition pending _ = false
validate_transition delivered read = true
validate_transition delivered _ = false
validate_transition read _ = false
validate_transition failed _ = false
validate_transition bounced _ = false

unfoldable pub parse_status : String → Option DeliveryStatus
parse_status s =
    if str_eq s "delivered"
    then some delivered
    else if str_eq s "read"
    then some read
    else if str_eq s "failed"
    then some failed
    else if str_eq s "bounced"
    then some bounced
    else none

abbrev pub is_done : DeliveryStatus → Bool
is_done delivered = true
is_done read = true
is_done _ = false

abbrev pub all_done : Map DeliveryStatus → Bool
all_done [] = true
all_done ((r, d) ∷ m) = is_done d && all_done m

-- The end of `handleAck`, once the delivery and the recipient are found and the status is read.
apply_ack :
    RetryService
    → String
    → String
    → PendingDelivery
    → DeliveryStatus
    → DeliveryStatus
    → RetryService
unfolding validate_transition
apply_ack s message_id recipient pd old new =
    let statuses = put recipient new pd.recipient_statuses in
    if validate_transition old new
    then (if all_done statuses
        then record s { pending_deliveries = erase message_id s.pending_deliveries }
        else record s {
          pending_deliveries =
              put message_id (record pd { recipient_statuses = statuses }) s.pending_deliveries;
        })
    else s

unfoldable pub handle_ack : RetryService → DeliveryAckMetadata → RetryService
unfolding apply_ack parse_status
handle_ack s ack = elim (find ack.message_id s.pending_deliveries) [
  | none ↦ s
  | some pd ↦ elim (find ack.recipient_id pd.recipient_statuses) [
    | none ↦ s
    | some old ↦ elim (parse_status ack.status) [
      | none ↦ s
      | some new ↦ apply_ack s ack.message_id ack.recipient_id pd old new
    ]
  ]
]

-- `std::pow` of whole numbers, compared with the cap before it is cut to an `int`.
unfoldable pub calculate_backoff : RetryConfig → ℕ → ℕ
calculate_backoff c zero = c.initial_timeout_ms
calculate_backoff c (suc n) =
    let delay = c.initial_timeout_ms * c.backoff_multiplier ^ n in
    if ltb c.max_backoff_ms delay then c.max_backoff_ms else delay

abbrev pub is_unacknowledged : DeliveryStatus → Bool
is_unacknowledged announced = true
is_unacknowledged pending = true
is_unacknowledged _ = false

abbrev pub fail_status : DeliveryStatus → DeliveryStatus
fail_status d = if is_unacknowledged d then failed else d

abbrev pub retry_status : DeliveryStatus → DeliveryStatus
retry_status announced = pending
retry_status d = d

abbrev pub update_all {ℓ} : {V : Type ℓ} → (V → V) → Map V → Map V
update_all f [] = []
update_all f ((k, v) ∷ m) = (k, f v) ∷ update_all f m

unfoldable pub unacknowledged : Map DeliveryStatus → List String
unacknowledged [] = []
unacknowledged ((r, d) ∷ m) =
    let rest = unacknowledged m in if is_unacknowledged d then r ∷ rest else rest

unfoldable pub notify : List ℕ → String → List String → List FailureCall
notify handlers message_id recipients =
    map (λ h. record { handler = h; message_id = message_id; failed_recipients = recipients })
      handlers

-- What one round of the loop of `checkRetries` does to a delivery: the delivery after it, the calls
-- of the failure handlers, and whether the delivery is to be removed.
pub record Checked : Type 0 where
  pub delivery : PendingDelivery
  pub calls : List FailureCall
  pub exhausted : Bool

-- `continue` before the retry is due
abbrev pub waiting : PendingDelivery → Checked
waiting pd = record { delivery = pd; calls = []; exhausted = false }

-- the retries are used up
unfoldable pub given_up : List ℕ → String → PendingDelivery → Checked
unfolding unacknowledged notify
given_up handlers message_id pd = record {
  delivery = record pd {
    retry_count = suc pd.retry_count;
    recipient_statuses = update_all fail_status pd.recipient_statuses;
  };
  calls = notify handlers message_id (unacknowledged pd.recipient_statuses);
  exhausted = true;
}

unfoldable pub retried : RetryConfig → ℕ → PendingDelivery → Checked
unfolding calculate_backoff
retried c now pd = record {
  delivery = record pd {
    retry_count = suc pd.retry_count;
    recipient_statuses = update_all retry_status pd.recipient_statuses;
    next_retry_at = now + calculate_backoff c (suc pd.retry_count);
  };
  calls = [];
  exhausted = false;
}

unfoldable pub check_delivery : RetryConfig → List ℕ → ℕ → String → PendingDelivery → Checked
unfolding given_up retried
check_delivery c handlers now message_id pd =
    if ltb now pd.next_retry_at
    then waiting pd
    else if ltb c.max_retries (suc pd.retry_count)
    then given_up handlers message_id pd
    else retried c now pd

pub record Pass : Type 0 where
  pub deliveries : Map PendingDelivery
  pub calls : List FailureCall
  pub to_remove : List String

-- The loop over `pendingDeliveries_`.
unfoldable pub check_pass : RetryConfig → List ℕ → ℕ → Map PendingDelivery → Pass
check_pass c handlers now [] = record { deliveries = []; calls = []; to_remove = [] }
check_pass c handlers now ((message_id, pd) ∷ m) =
    let rest = check_pass c handlers now m in
    let one = check_delivery c handlers now message_id pd in
    record {
      deliveries = (message_id, one.delivery) ∷ rest.deliveries;
      calls = one.calls ++ rest.calls;
      to_remove = if one.exhausted then message_id ∷ rest.to_remove else rest.to_remove;
    }

unfoldable pub erase_all : List String → Map PendingDelivery → Map PendingDelivery
erase_all [] m = m
erase_all (k ∷ ks) m = erase_all ks (erase k m)

unfoldable pub check_retries : RetryService → ℕ → RetryService × List FailureCall
unfolding check_pass erase_all
check_retries s now =
    let pass = check_pass s.config s.failure_handlers now s.pending_deliveries in
    (record s { pending_deliveries = erase_all pass.to_remove pass.deliveries }, pass.calls)

unfoldable pub on_delivery_failed : RetryService → ℕ → RetryService
on_delivery_failed s handler = record s { failure_handlers = s.failure_handlers ++ handler ∷ [] }

unfoldable pub get_pending_delivery : RetryService → String → Option PendingDelivery
get_pending_delivery s message_id = find message_id s.pending_deliveries

unfoldable pub get_pending_count : RetryService → ℕ
get_pending_count s = length s.pending_deliveries

-- The timer is armed exactly while the service runs.
unfoldable pub start : RetryService → RetryService
start s = record s { running = true }

unfoldable pub stop : RetryService → RetryService
stop s = record s { running = false }

-- The handler of the timer, called with an error when the timer is cancelled.
unfoldable pub on_timer : RetryService → Bool → ℕ → RetryService × List FailureCall
unfolding check_retries
on_timer s ec now = if ec || not s.running then (s, []) else check_retries s now
