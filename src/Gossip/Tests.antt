-- ===== src/Gossip/Tests.antt =====
-- Instances of the theorems on src/gossip/gossip_engine.cpp, src/gossip/peer_manager.cpp and
-- src/gossip/bloom_filter.cpp.
use Prim.Native.String.{len}
use bright_chain_cpp.Prelude.{
  ℕ, ◌+◌, ◌*◌, ◌≡◌, ◌≢◌, refl, String, true, false, none, some, [], ◌∷◌, arith, replicate,
}
use bright_chain_cpp.Prelude.Map.{contains_key}
use bright_chain_cpp.Prelude.Int.{pos}
use bright_chain_cpp.Gossip.Bloom.{BloomFilter, might_contain}
use bright_chain_cpp.Gossip.Bloom.Members.{add_all, add_all-might_contain}
use bright_chain_cpp.Gossip.Announcement.{
  AnnouncementType, BlockAnnouncement, MessageDeliveryMetadata, HeadUpdateMetadata, WriteProof,
  validate,
}
use bright_chain_cpp.Gossip.Config.{default_config}
use bright_chain_cpp.Gossip.Peers.{PeerInfo, PeerManager, get_connected_peer_ids, connected_ids}
use bright_chain_cpp.Gossip.Engine.{Env, Engine}
use bright_chain_cpp.Gossip.Select.{IsUniform}
use bright_chain_cpp.Gossip.Hex.{decode_hex}
use bright_chain_cpp.Gossip.Handle.{handle_announcement, first_local, check_proof}
use bright_chain_cpp.Gossip.Handle.Heads.{HeadsGuarded, heads_guarded, new_heads, proof_not_bound}
use bright_chain_cpp.Gossip.Handle.Sends.{SendsBounded, sends_bounded}
use bright_chain_cpp.Gossip.Handle.Local.{Delivered, local_message}
use bright_chain_cpp.Gossip.Flush.{batch_flush}
use bright_chain_cpp.Gossip.Flush.Deliveries.{Flushed, emptied, flush_sends_all}

abbrev env : Env
env = record {
  now = "2026-01-01";
  draw = λ n i. 0;
  encrypt = λ key batch. some (1 ∷ 2 ∷ []);
  verify_signature = λ text signature key. true;
  registry_lock = true;
  registry_persist = true;
}

env-IsUniform : IsUniform env
env-IsUniform n i = omega arith

abbrev peer : String → PeerInfo
peer id = record {
  node_id = id;
  address = "host";
  http_port = 80;
  ws_port = 81;
  last_seen = "";
  capabilities = [];
  connected = true;
  public_key = 4 ∷ [];
}

abbrev block : BlockAnnouncement
block = record {
  type = AnnouncementType.add;
  block_id = "b1";
  node_id = "n9";
  timestamp = "2025-12-31";
  ttl = pos 3;
  message_delivery = none;
  delivery_ack = none;
  pool_id = none;
  cbl_index_entry = none;
  head_update = none;
  acl_block_id = none;
  pool_announcement = none;
  quorum_proposal = none;
  quorum_vote = none;
  write_proof = none;
}

abbrev letter : MessageDeliveryMetadata
letter = record {
  message_id = "m1";
  recipient_ids = "ann" ∷ "bob" ∷ [];
  priority = "high";
  block_ids = "b1" ∷ [];
  cbl_block_id = "b1";
  ack_required = true;
  gateway_outbound = false;
}

abbrev message : BlockAnnouncement
message = record block { message_delivery = some letter }

-- A proof for another database than that of the announcement it comes in.
abbrev other_proof : WriteProof
other_proof = record {
  signer_public_key = "04";
  signature = "aa";
  db_name = "other";
  collection_name = "c";
  block_id = "b7";
}

abbrev update : HeadUpdateMetadata
update = record { db_name = "db"; collection_name = "users" }

abbrev head : BlockAnnouncement
head = record block {
  type = AnnouncementType.head_update;
  head_update = some update;
  write_proof = some other_proof;
}

abbrev two_peers : PeerManager
two_peers = record {
  sessions =
      (
        "p1",
        record {
          info = peer "p1";
          has_socket = true;
          last_pong_received = 0;
          reconnect_attempts = 0;
        },
      )
      ∷ (
        "p2",
        record {
          info = peer "p2";
          has_socket = true;
          last_pong_received = 0;
          reconnect_attempts = 0;
        },
      )
      ∷ [];
  pool_cache = [];
  sent_messages = [];
}

abbrev engine : PeerManager → Engine
engine peers = record {
  config = default_config;
  local_node = "n1";
  peers = peers;
  heads = [];
  pending_announcements = block ∷ message ∷ [];
  announcement_handlers = 1 ∷ [];
  message_delivery_handlers = 2 ∷ [];
  delivery_ack_handlers = [];
  bright_trust_proposal_handlers = [];
  bright_trust_vote_handlers = [];
  local_user_ids = "bob" ∷ [];
  calls = [];
  selections = 0;
}

abbrev no_peers : PeerManager
no_peers = record { sessions = []; pool_cache = []; sent_messages = [] }

heads_guarded_example :
    HeadsGuarded env
      (engine two_peers)
      head
      (handle_announcement env (engine two_peers) head).0.heads
heads_guarded_example = heads_guarded env (engine two_peers) head

sends_bounded_example :
    SendsBounded env (engine two_peers) block (handle_announcement env (engine two_peers) block).0
sends_bounded_example = sends_bounded env (engine two_peers) block env-IsUniform

local_message_example :
    Delivered env
      (engine two_peers)
      message
      letter
      "bob"
      (handle_announcement env (engine two_peers) message)
unfolding first_local validate
local_message_example =
    local_message env (engine two_peers) message letter "bob" refl refl refl refl

proof_not_bound_example :
    (handle_announcement env (engine two_peers) head).0.heads
    ≡ new_heads env (engine two_peers) head update
unfolding check_proof decode_hex validate
proof_not_bound_example =
    proof_not_bound env (engine two_peers) head update other_proof refl refl refl refl refl refl

some_connected : get_connected_peer_ids two_peers ≡ "p1" ∷ "p2" ∷ []
unfolding get_connected_peer_ids connected_ids
some_connected = refl

two_connected : get_connected_peer_ids two_peers ≢ []
two_connected e = cc (e, some_connected)

flush_sends_all_example :
    (after : Engine) × (batch_flush env (engine two_peers) ≡ some after)
    × Flushed env (emptied (engine two_peers)) (block ∷ message ∷ []) after
flush_sends_all_example =
    flush_sends_all env (engine two_peers) env-IsUniform (omega arith) two_connected

-- A filter of 64 bits and two hashes.
abbrev filter : BloomFilter
filter = record { bits = replicate 64 false; hash_count = 2; size = 64 }

abbrev lengths : String → ℕ → ℕ
lengths s i = 10 * len s + i

add_all-might_contain_example :
    (g : BloomFilter) × (add_all lengths ("a" ∷ "bc" ∷ []) filter ≡ some g)
    × ((s : String)
        → contains_key s ("a" ∷ "bc" ∷ []) ≡ true
        → might_contain lengths s g ≡ some true)
add_all-might_contain_example =
    add_all-might_contain lengths ("a" ∷ "bc" ∷ []) filter (refl, omega arith)
