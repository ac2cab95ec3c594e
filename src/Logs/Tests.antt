-- ===== src/Logs/Tests.antt =====
-- Instances of the theorems on the logs.
use bright_chain_cpp.Prelude.{
  ◌≡◌, refl, String, true, none, some, length, arith, List, [], ◌∷◌, ◌++◌, map, take, drop,
}
use bright_chain_cpp.Logs.{Signer, arrays_equal, arrays_equal_refl}
use bright_chain_cpp.Json.Example.{values}
use bright_chain_cpp.Voting.Method.{plurality}
use bright_chain_cpp.Logs.Events.{
  EventType, EventLogEntry, new_logger, verify_sequence, in_sequence,
}
use bright_chain_cpp.Logs.Events.Order.{Event, IsOrdered, log_events, log_events-IsOrdered}
use bright_chain_cpp.Logs.Audit.{
  AuditLog, new_log, last_hash, serialize_for_hashing, compute_entry_hash, serialize_for_signing,
  verify_entry, verify_from, verify_chain, append_entry, record_poll_created, record_vote_cast,
}
use bright_chain_cpp.Logs.Audit.Chain.{Verifies, Call, created, cast, run, Extends, run-Extends}
use bright_chain_cpp.Logs.Audit.Tamper.{bytes_of, verify_chain_same, verify_chain_later}
use bright_chain_cpp.Prelude.Text.{put_ordered}
use bright_chain_cpp.Voting.Poll.{to_key}
use bright_chain_cpp.Logs.Board.{
  BulletinBoardEntry, BulletinBoard, new_board, verify_merkle_tree, verify_roots, compute_root,
  merkle, pair_up, publish_vote, publish_tally, serialize_entry_data, serialize_tally_proof,
}
use bright_chain_cpp.Logs.Board.Merkle.{hashes, compute_root_same}
use bright_chain_cpp.Logs.Board.Published.{
  Publication, a_vote, a_tally, publish_all, Keeps, publish_all-Keeps, publish_vote-Returns,
}

-- A signature is the text itself, and so is a hash.
abbrev signer : Signer
signer = record {
  id = 9 ∷ [];
  sign = λ b. some b;
  verify = arrays_equal;
  sha3 = λ b. b;
  sha256 = λ b. b;
  shift_int = λ n s. 0;
}

signer-Verifies : Verifies signer
signer-Verifies data' s e = let same : data' ≡ s = cc e in rw same (arrays_equal_refl s)

abbrev calls : String → List (Call signer)
calls note = created (1 ∷ []) (("note", note) ∷ []) 5 ∷ cast (1 ∷ []) (2 ∷ []) 6 ∷ []

abbrev first : AuditLog
first = run signer (calls "a") new_log

abbrev other : AuditLog
other = run signer (calls "b") new_log

run-Extends_example : Extends signer new_log first
unfolding verify_chain verify_from verify_entry compute_entry_hash serialize_for_hashing
    serialize_for_signing record_poll_created record_vote_cast append_entry last_hash
run-Extends_example = run-Extends signer (calls "a") new_log signer-Verifies refl

-- Two logs that differ in their metadata.
verify_chain_same_example :
    map (bytes_of signer) first.entries ≡ map (bytes_of signer) other.entries
unfolding verify_chain verify_from verify_entry compute_entry_hash serialize_for_hashing
    serialize_for_signing record_poll_created record_vote_cast append_entry last_hash
verify_chain_same_example =
    verify_chain_same signer first other [] refl refl
      (((refl, refl), (λ e. e), ((refl, refl), (λ e. e), tt))) refl

verify_chain_later_example :
    verify_chain signer (record { entries = drop 1 first.entries; sequence = 2 }) ≡ true
unfolding verify_chain verify_from verify_entry compute_entry_hash serialize_for_hashing
    serialize_for_signing record_poll_created record_vote_cast append_entry last_hash
verify_chain_later_example =
    verify_chain_later signer (take 1 first.entries) (drop 1 first.entries) 2 refl

-- A board with a vote for poll 1, and the tally of the poll.
abbrev publications : List (Publication signer)
publications =
    a_vote (1 ∷ []) ((7 ∷ []) ∷ []) (2 ∷ []) 5
    ∷ a_vote (1 ∷ []) ((8 ∷ []) ∷ []) (3 ∷ []) 6
    ∷ a_vote (1 ∷ []) ((9 ∷ []) ∷ []) (4 ∷ []) 7
    ∷ a_tally (1 ∷ []) ((3 ∷ []) ∷ []) ("yes" ∷ []) [] 8
    ∷ []

abbrev board : BulletinBoard
board = publish_all signer publications new_board

publish_all-Keeps_example : Keeps signer new_board board
unfolding verify_merkle_tree verify_roots compute_root merkle pair_up publish_vote publish_tally
    serialize_entry_data serialize_tally_proof put_ordered to_key
publish_all-Keeps_example =
    publish_all-Keeps signer publications new_board signer-Verifies (tt, refl)

publish_vote-Returns_example :
    (after : BulletinBoard) × (e : BulletinBoardEntry) × (publish_vote signer
        (1 ∷ [])
        ((7 ∷ []) ∷ [])
        (2 ∷ [])
        9
        board
      ≡ some (after, e))
    × (after.entries ≡ board.entries ++ e ∷ [])
    × (e.sequence ≡ board.sequence)
    × (e.encrypted_vote ≡ (7 ∷ []) ∷ [])
    × (compute_root signer board.entries ≡ some e.merkle_root)
publish_vote-Returns_example =
    publish_vote-Returns signer (1 ∷ []) ((7 ∷ []) ∷ []) (2 ∷ []) 9 board (λ b. (b, refl))

-- The same entries with other signatures.
abbrev strip : BulletinBoardEntry → BulletinBoardEntry
strip e = record e { signature = [] }

abbrev unsigned : List BulletinBoardEntry
unsigned = map strip board.entries

compute_root_same_example : hashes signer board.entries ≡ hashes signer unsigned
unfolding verify_merkle_tree verify_roots compute_root merkle pair_up publish_vote publish_tally
    serialize_entry_data serialize_tally_proof put_ordered to_key
compute_root_same_example =
    compute_root_same signer board.entries unsigned refl
      (((λ e. (refl, refl)), tt), (((λ e. (refl, refl)), tt), tt)) refl

-- A poll that is created and closed.
abbrev events : List (Event values)
events =
    record {
      event_type = EventType.poll_created;
      poll_id = 1 ∷ [];
      creator_id = some (9 ∷ []);
      voter_token = none;
      configuration = some (record {
        method = plurality;
        choices = "yes" ∷ "no" ∷ [];
        max_weight = none;
        threshold = none;
      });
      tally_hash = none;
      metadata = none;
      time = 5;
    }
    ∷ record {
      event_type = EventType.poll_closed;
      poll_id = 1 ∷ [];
      creator_id = none;
      voter_token = none;
      configuration = none;
      tally_hash = some (7 ∷ []);
      metadata = none;
      time = 6;
    }
    ∷ []

log_events-IsOrdered_example :
    IsOrdered values (log_events values events (new_logger values))
    × ((more : List (EventLogEntry values)) × ((log_events values events (new_logger values)).events
          ≡ [] ++ more)
        × (length more ≡ 2))
unfolding verify_sequence in_sequence
log_events-IsOrdered_example =
    log_events-IsOrdered values events (new_logger values) (omega arith) (refl, refl)
