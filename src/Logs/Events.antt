-- ===== src/Logs/Events.antt =====
-- `EventLogger` of src/event_logger.cpp: the events of polls, numbered in order, and their export.
pub mod Order
use mathlib.Core.Option
use bright_chain_cpp.Prelude.{
  ℕ, zero, suc, ◌+◌, ◌%◌, ◌^◌, String, Bool, true, false, Option, none, some, List, [], ◌∷◌, ◌++◌,
  map, length, str_eq, ◌==◌, if◌then◌else◌,
}
use bright_chain_cpp.Prelude.Int.{ℤ}
use bright_chain_cpp.Prelude.Map.{Map, put}
use bright_chain_cpp.Json.{JsonLibrary}
use bright_chain_cpp.Json.Fields.{put_optional}
use bright_chain_cpp.Gossip.Handle.{codes}
use bright_chain_cpp.Voting.Bytes.{Bytes}
use bright_chain_cpp.Voting.Method.{VotingMethod, voting_method_to_string}
use bright_chain_cpp.Voting.Poll.{to_key}
use bright_chain_cpp.Logs.{concat, encode_number}

pub data EventType : Type 0 where
  poll_created vote_cast poll_closed vote_verified tally_computed audit_requested : EventType

abbrev pub event_type_to_string : EventType → String
event_type_to_string poll_created = "poll_created"
event_type_to_string vote_cast = "vote_cast"
event_type_to_string poll_closed = "poll_closed"
event_type_to_string vote_verified = "vote_verified"
event_type_to_string tally_computed = "tally_computed"
event_type_to_string audit_requested = "audit_requested"

abbrev pub event_code : EventType → ℕ
event_code poll_created = 0
event_code vote_cast = 1
event_code poll_closed = 2
event_code vote_verified = 3
event_code tally_computed = 4
event_code audit_requested = 5

pub record PollConfiguration : Type 0 where
  pub method : VotingMethod
  pub choices : List String
  pub max_weight : Option ℤ
  pub threshold : Option ℤ

pub record EventLogEntry (lib : JsonLibrary) : Type 0 where
  pub sequence : ℕ
  pub event_type : EventType
  pub timestamp : ℕ
  pub poll_id : Bytes
  pub creator_id : Option Bytes
  pub voter_token : Option Bytes
  pub configuration : Option PollConfiguration
  pub tally_hash : Option Bytes
  pub metadata : Option (Map lib.Json)

pub record EventLogger (lib : JsonLibrary) : Type 0 where
  pub events : List (EventLogEntry lib)
  pub sequence : ℕ

-- An optional part: a flag, the length and the bytes.
abbrev pub optional_bytes : Option Bytes → Bytes
optional_bytes none = encode_number 0
optional_bytes (some b) = concat (encode_number 1 ∷ encode_number (length b) ∷ b ∷ [])

module _ (lib : JsonLibrary) where
  open lib use {Json, text, integer, array, object}

  abbrev pub new_logger : EventLogger lib
  new_logger = record { events = []; sequence = 0 }

  -- `appendEvent`, which all the calls that log an event end in.
  unfoldable pub append_event :
      EventType
      → Bytes
      → Option Bytes
      → Option Bytes
      → Option PollConfiguration
      → Option Bytes
      → Option (Map Json)
      → ℕ
      → EventLogger lib
      → EventLogger lib × EventLogEntry lib
  append_event type id creator token configuration tally metadata now l =
      let entry : EventLogEntry lib = record {
        sequence = l.sequence;
        event_type = type;
        timestamp = now;
        poll_id = id;
        creator_id = creator;
        voter_token = token;
        configuration = configuration;
        tally_hash = tally;
        metadata = metadata;
      } in
      (record { events = l.events ++ (entry ∷ []); sequence = suc l.sequence % 2 ^ 64 }, entry)

  unfoldable pub log_poll_created :
      Bytes → Bytes → PollConfiguration → ℕ → EventLogger lib → EventLogger lib × EventLogEntry lib
  unfolding append_event
  log_poll_created id creator configuration =
      append_event poll_created id (some creator) none (some configuration) none none

  unfoldable pub log_vote_cast :
      Bytes → Bytes → Option (Map Json) → ℕ → EventLogger lib → EventLogger lib × EventLogEntry lib
  unfolding append_event
  log_vote_cast id token metadata = append_event vote_cast id none (some token) none none metadata

  unfoldable pub log_poll_closed :
      Bytes → Bytes → Option (Map Json) → ℕ → EventLogger lib → EventLogger lib × EventLogEntry lib
  unfolding append_event
  log_poll_closed id tally metadata =
      append_event poll_closed id none none none (some tally) metadata

  unfoldable pub events_with_key : String → List (EventLogEntry lib) → List (EventLogEntry lib)
  unfolding to_key
  events_with_key key [] = []
  events_with_key key (e ∷ es) =
      let rest = events_with_key key es in if str_eq (to_key e.poll_id) key then e ∷ rest else rest

  unfoldable pub get_events_for_poll : Bytes → EventLogger lib → List (EventLogEntry lib)
  unfolding events_with_key to_key
  get_events_for_poll id l = events_with_key (to_key id) l.events

  unfoldable pub events_of_type : EventType → List (EventLogEntry lib) → List (EventLogEntry lib)
  events_of_type type [] = []
  events_of_type type (e ∷ es) =
      let rest = events_of_type type es in
      if event_code e.event_type == event_code type then e ∷ rest else rest

  -- The loop of `verifySequence` from index `i` on.
  unfoldable pub in_sequence : ℕ → List (EventLogEntry lib) → Bool
  in_sequence i [] = true
  in_sequence i (e ∷ es) =
      let rest = in_sequence (suc i) es in if e.sequence == i then rest else false

  unfoldable pub verify_sequence : EventLogger lib → Bool
  unfolding in_sequence
  verify_sequence l = in_sequence 0 l.events

  abbrev pub configuration_to_json : PollConfiguration → Json
  unfolding put put_optional voting_method_to_string
  configuration_to_json c = object (
      put_optional "threshold" (Option.map integer c.threshold) (
        put_optional "maxWeight" (Option.map integer c.max_weight) (
          put "choices" (array (map text c.choices))
            (put "method" (text (voting_method_to_string c.method)) []))))

  -- `text_bytes` gives the bytes of a text that `dump()` returns.
  module _ (text_bytes : lib.Bytes → Bytes) where
    abbrev pub dumped : Json → Bytes
    dumped j = text_bytes (lib.dump j)

    unfoldable pub serialize_event : EventLogEntry lib → Bytes
    unfolding configuration_to_json
    serialize_event e = concat (
        encode_number e.sequence
        ∷ encode_number e.timestamp
        ∷ codes (event_type_to_string e.event_type)
        ∷ encode_number (length e.poll_id)
        ∷ e.poll_id
        ∷ optional_bytes e.creator_id
        ∷ optional_bytes e.voter_token
        ∷ optional_bytes (Option.map (λ c. dumped (configuration_to_json c)) e.configuration)
        ∷ optional_bytes e.tally_hash
        ∷ optional_bytes (Option.map (λ m. dumped (object m)) e.metadata)
        ∷ [])

    unfoldable pub export_events : EventLogger lib → Bytes
    unfolding serialize_event
    export_events l = concat (encode_number (length l.events) ∷ map serialize_event l.events)
