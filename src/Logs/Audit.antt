-- ===== src/Logs/Audit.antt =====
-- `AuditLog` of src/audit_log.cpp: a log of the events of polls, in which each entry holds the hash of
-- the one before it.
pub mod Chain
pub mod Tamper
use bright_chain_cpp.Prelude.{
  ℕ, suc, ◌%◌, String, Bool, true, false, ◌&&◌, Option, none, some, List, [], ◌∷◌, ◌++◌, replicate,
  if◌then◌else◌,
}
use bright_chain_cpp.Prelude.Map.{Map}
use bright_chain_cpp.Voting.Bytes.{Bytes}
use bright_chain_cpp.Voting.Poll.{timestamp_bytes}
use bright_chain_cpp.Logs.{Signer, arrays_equal}

pub data AuditEventType : Type 0 where
  poll_created vote_cast poll_closed : AuditEventType

pub record AuditEntry : Type 0 where
  pub sequence : ℕ
  pub event_type : AuditEventType
  pub timestamp : ℕ
  pub poll_id : Bytes
  pub voter_id_hash : Option Bytes
  pub authority_id : Option Bytes
  pub previous_hash : Bytes
  pub entry_hash : Bytes
  pub signature : Bytes
  pub metadata : Option (Map String)

pub record AuditLog : Type 0 where
  pub entries : List AuditEntry
  pub sequence : ℕ

abbrev pub new_log : AuditLog
new_log = record { entries = []; sequence = 0 }

abbrev pub event_code : AuditEventType → ℕ
event_code poll_created = 0
event_code vote_cast = 1
event_code poll_closed = 2

abbrev pub bytes_or_none : Option Bytes → Bytes
bytes_or_none none = []
bytes_or_none (some b) = b

-- The hash of the last entry, or 32 zeros.
unfoldable pub last_hash : Bytes → List AuditEntry → Bytes
last_hash h [] = h
last_hash h (e ∷ es) = last_hash e.entry_hash es

abbrev pub metadata_of : Map String → Option (Map String)
metadata_of [] = none
metadata_of (e ∷ m) = some (e ∷ m)

unfoldable pub get_entries_for_poll : Bytes → List AuditEntry → List AuditEntry
get_entries_for_poll id [] = []
get_entries_for_poll id (e ∷ es) =
    let rest = get_entries_for_poll id es in if arrays_equal e.poll_id id then e ∷ rest else rest

module _ (signer : Signer) where
  -- Eight bytes of an `int`, of which the upper four come from shifts beyond its width.
  abbrev pub sequence_bytes : ℕ → Bytes
  sequence_bytes n =
      timestamp_bytes 4 n
      ++ signer.shift_int n 32 % 256
        ∷ signer.shift_int n 40 % 256
        ∷ signer.shift_int n 48 % 256
        ∷ signer.shift_int n 56 % 256
        ∷ []

  -- The parts one after the other, with no lengths; the metadata is not among them.
  unfoldable pub serialize_for_hashing : AuditEntry → Bytes
  serialize_for_hashing e =
      sequence_bytes e.sequence
      ++ (event_code e.event_type ∷ [])
      ++ timestamp_bytes 8 e.timestamp
      ++ (e.poll_id
          ++ (e.previous_hash ++ (bytes_or_none e.voter_id_hash ++ bytes_or_none e.authority_id)))

  unfoldable pub compute_entry_hash : AuditEntry → Bytes
  unfolding serialize_for_hashing
  compute_entry_hash e = signer.sha3 (serialize_for_hashing e)

  unfoldable pub serialize_for_signing : AuditEntry → Bytes
  unfolding serialize_for_hashing
  serialize_for_signing e = serialize_for_hashing e ++ e.entry_hash

  unfoldable pub verify_entry : AuditEntry → Bool
  unfolding serialize_for_signing
  verify_entry e = signer.verify (serialize_for_signing e) e.signature

  -- The first entry has none to follow.
  abbrev pub follows : Option AuditEntry → AuditEntry → Bool
  follows none e = true
  follows (some previous) e = arrays_equal e.previous_hash previous.entry_hash

  unfoldable pub verify_from : Option AuditEntry → List AuditEntry → Bool
  unfolding compute_entry_hash verify_entry
  verify_from previous [] = true
  verify_from previous (e ∷ es) =
      let rest = verify_from (some e) es in
      if arrays_equal (compute_entry_hash e) e.entry_hash
      then if verify_entry e then if follows previous e then rest else false else false
      else false

  unfoldable pub verify_chain : AuditLog → Bool
  unfolding verify_from
  verify_chain log = verify_from none log.entries

  abbrev pub hashed : AuditEntry → AuditEntry
  unfolding compute_entry_hash
  hashed e = record e { entry_hash = compute_entry_hash e }

  -- The entry is added once it is signed; the number is used up even where signing fails.
  abbrev pub push_signed : AuditEntry → AuditLog → Option Bytes → AuditLog × Option AuditEntry
  push_signed e log none = (log, none)
  push_signed e log (some signature) =
      let signed = record e { signature = signature } in
      (record log { entries = log.entries ++ (signed ∷ []) }, some signed)

  abbrev pub unsigned_entry :
      AuditEventType → Bytes → Option Bytes → Option Bytes → Map String → ℕ → AuditLog → AuditEntry
  unfolding last_hash
  unsigned_entry type id voter authority metadata now log = record {
    sequence = log.sequence;
    event_type = type;
    timestamp = now;
    poll_id = id;
    voter_id_hash = voter;
    authority_id = authority;
    previous_hash = last_hash (replicate 32 0) log.entries;
    entry_hash = [];
    signature = [];
    metadata = metadata_of metadata;
  }

  unfoldable pub append_entry :
      AuditEventType
      → Bytes
      → Option Bytes
      → Option Bytes
      → Map String
      → ℕ
      → AuditLog
      → AuditLog × Option AuditEntry
  unfolding serialize_for_signing unsigned_entry hashed
  append_entry type id voter authority metadata now log =
      let e = hashed (unsigned_entry type id voter authority metadata now log) in
      push_signed e (record log { sequence = suc log.sequence })
        (signer.sign (serialize_for_signing e))

  unfoldable pub record_poll_created :
      Bytes → Map String → ℕ → AuditLog → AuditLog × Option AuditEntry
  unfolding append_entry
  record_poll_created id metadata = append_entry poll_created id none (some signer.id) metadata

  unfoldable pub record_vote_cast : Bytes → Bytes → ℕ → AuditLog → AuditLog × Option AuditEntry
  unfolding append_entry
  record_vote_cast id voter = append_entry vote_cast id (some voter) none []

  unfoldable pub record_poll_closed :
      Bytes → Map String → ℕ → AuditLog → AuditLog × Option AuditEntry
  unfolding append_entry
  record_poll_closed id metadata = append_entry poll_closed id none (some signer.id) metadata
