-- ===== src/Logs/Events/Order.antt =====
-- The numbers of the events of src/event_logger.cpp.
use mathlib.Core.List.{append-nil, append_assoc}
use bright_chain_cpp.Prelude.{
  ℕ, suc, ◌+◌, ◌^◌, ◌<◌, ◌≡◌, refl, sym, ap, ◌∙◌, true, false, Option, List, [], ◌∷◌, ◌++◌, length,
  length-append, ◌==◌, if◌then◌else◌, if_true, arith,
}
use bright_chain_cpp.Prelude.Map.{Map}
use bright_chain_cpp.Json.{JsonLibrary}
use bright_chain_cpp.Voting.Bytes.{Bytes}
use bright_chain_cpp.Logs.Events.{
  EventType, PollConfiguration, EventLogEntry, EventLogger, append_event, in_sequence,
  verify_sequence,
}

module _ (lib : JsonLibrary) where
  -- The arguments of a call of `logEvent`, and the time.
  pub record Event : Type 0 where
    pub event_type : EventType
    pub poll_id : Bytes
    pub creator_id : Option Bytes
    pub voter_token : Option Bytes
    pub configuration : Option PollConfiguration
    pub tally_hash : Option Bytes
    pub metadata : Option (Map lib.Json)
    pub time : ℕ

  abbrev pub log_event : Event → EventLogger lib → EventLogger lib
  log_event e l =
      (append_event lib e.event_type e.poll_id e.creator_id e.voter_token e.configuration
        e.tally_hash e.metadata e.time l).0

  abbrev pub log_events : List Event → EventLogger lib → EventLogger lib
  log_events [] l = l
  log_events (e ∷ es) l = log_events es (log_event e l)

  -- The numbers are those of the positions, and the next one is that of the next position.
  abbrev pub IsOrdered : EventLogger lib → Type 0
  IsOrdered l = (verify_sequence lib l ≡ true) × (l.sequence ≡ length l.events)

  -- The entry that `logEvent` adds.
  abbrev added : Event → EventLogger lib → EventLogEntry lib
  added e l = record {
    sequence = l.sequence;
    event_type = e.event_type;
    timestamp = e.time;
    poll_id = e.poll_id;
    creator_id = e.creator_id;
    voter_token = e.voter_token;
    configuration = e.configuration;
    tally_hash = e.tally_hash;
    metadata = e.metadata;
  }

  in_sequence-append :
      (i : ℕ) (es : List (EventLogEntry lib)) (e : EventLogEntry lib)
      → in_sequence lib i es ≡ true
      → e.sequence ≡ i + length es
      → in_sequence lib i (es ++ e ∷ []) ≡ true
  unfolding in_sequence
  in_sequence-append i [] e ok next =
      let here : (e.sequence == i) ≡ true = ground (arith, next) in
      ap (λ b. if b then true else false) here
  in_sequence-append i (x ∷ es) e ok next =
      let (here, rest) = if_true (x.sequence == i) (in_sequence lib (suc i) es) ok in
      let later = in_sequence-append (suc i) es e rest (omega (arith, next)) in
      ap (λ b. if b then in_sequence lib (suc i) (es ++ e ∷ []) else false) here ∙ later

  log_event-IsOrdered :
      (e : Event) (l : EventLogger lib)
      → suc (length l.events) < 2 ^ 64
      → IsOrdered l
      → IsOrdered (log_event e l)
  unfolding append_event verify_sequence
  log_event-IsOrdered e l fits (ok, next) =
      let size = length-append l.events (added e l ∷ []) in
      (
        in_sequence-append 0 l.events (added e l) ok (omega (arith, next)),
        omega (arith, next, size, fits),
      )

  -- Of fewer than 2^64 events: logging keeps the events of before in their order and puts one new
  -- one for each call behind them, and where `verifySequence` held it holds afterwards.
  pub log_events-IsOrdered :
      (es : List Event) (l : EventLogger lib)
      → length l.events + length es < 2 ^ 64
      → IsOrdered l
      → IsOrdered (log_events es l)
        × ((more : List (EventLogEntry lib)) × ((log_events es l).events ≡ l.events ++ more)
            × (length more ≡ length es))
  unfolding append_event
  log_events-IsOrdered [] l fits ok = (ok, ([], sym (append-nil l.events), refl))
  log_events-IsOrdered (e ∷ es) l fits ok =
      let size = length-append l.events (added e l ∷ []) in
      let here = log_event-IsOrdered e l (omega (arith, fits)) ok in
      let (later, (more, same, count)) =
        log_events-IsOrdered es (log_event e l) (omega (arith, fits, size)) here in
      (later, (added e l ∷ more, same ∙ append_assoc l.events (added e l ∷ []) more, ap suc count))
