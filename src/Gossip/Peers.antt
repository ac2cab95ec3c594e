-- ===== src/Gossip/Peers.antt =====
-- The peer registry, the pool cache and the reconnection delay of
-- include/brightchain/gossip/peer_manager.hpp and src/gossip/peer_manager.cpp.
-- Sockets and timers are not modelled: a session says whether it has a socket, and a message that
-- is sent is recorded in `sent_messages`, as the source records it. `latencyMs` is never read.
pub mod Reconnect
use bright_chain_cpp.Prelude.{
  ℕ, ◌+◌, ◌-◌, ◌^◌, String, Bool, false, ◌&&◌, Option, none, some, List, [], ◌∷◌, ◌++◌, ltb, min,
  if◌then◌else◌,
}
use bright_chain_cpp.Prelude.Int.{ℤ, pos, negsuc}
use bright_chain_cpp.Prelude.Map.{Map, find, put, erase}
use bright_chain_cpp.Gossip.Announcement.{BlockAnnouncement, PoolAnnouncementMetadata}

pub record PeerInfo : Type 0 where
  pub node_id : String
  pub address : String
  pub http_port : ℕ
  pub ws_port : ℕ
  pub last_seen : String
  pub capabilities : List String
  pub connected : Bool
  pub public_key : List ℕ

pub record PeerSession : Type 0 where
  pub info : PeerInfo
  pub has_socket : Bool
  pub last_pong_received : ℕ
  pub reconnect_attempts : ℕ

pub record PoolCacheEntry : Type 0 where
  pub metadata : PoolAnnouncementMetadata
  pub host_node_id : String

-- What goes over the wire: the JSON text of a batch, or the envelope round its encryption.
pub data Payload : Type 0 where
  plaintext : List BlockAnnouncement → Payload
  envelope : List ℕ → Payload

pub record PeerManager : Type 0 where
  pub sessions : Map PeerSession
  pub pool_cache : Map PoolCacheEntry
  pub sent_messages : List (String × Payload)

unfoldable pub add_peer : PeerManager → PeerInfo → ℕ → PeerManager
add_peer p info now = record p {
  sessions =
      put info.node_id
        (record {
          info = info;
          has_socket = false;
          last_pong_received = now;
          reconnect_attempts = 0;
        })
        p.sessions;
}

unfoldable pub disconnect_peer : PeerManager → String → PeerManager
disconnect_peer p node_id = record p { sessions = erase node_id p.sessions }

unfoldable pub get_peer : PeerManager → String → Option PeerInfo
get_peer p node_id = elim (find node_id p.sessions) [ none ↦ none | some s ↦ some s.info ]

unfoldable pub connected_ids : Map PeerSession → List String
connected_ids [] = []
connected_ids ((id, s) ∷ m) =
    let rest = connected_ids m in if s.info.connected then id ∷ rest else rest

unfoldable pub get_connected_peer_ids : PeerManager → List String
unfolding connected_ids
get_connected_peer_ids p = connected_ids p.sessions

unfoldable pub send_to_peer : PeerManager → String → Payload → PeerManager
send_to_peer p node_id message = record p {
  sent_messages = p.sent_messages ++ (node_id, message) ∷ [];
}

unfoldable pub broadcast_to_peers : PeerManager → List String → Payload → PeerManager
unfolding send_to_peer
broadcast_to_peers p [] message = p
broadcast_to_peers p (id ∷ ids) message = broadcast_to_peers (send_to_peer p id message) ids message

unfoldable pub update_pool_cache :
    PeerManager → String → PoolAnnouncementMetadata → String → PeerManager
update_pool_cache p pool_id meta host = record p {
  pool_cache = put pool_id (record { metadata = meta; host_node_id = host }) p.pool_cache;
}

unfoldable pub remove_pool_from_cache : PeerManager → String → PeerManager
remove_pool_from_cache p pool_id = record p { pool_cache = erase pool_id p.pool_cache }

-- The change that `handlePongTimeout` makes before it schedules a reconnection.
unfoldable pub drop_session : PeerManager → String → PeerManager
drop_session p node_id = elim (find node_id p.sessions) [
  | none ↦ p
  | some s ↦ record p {
    sessions =
        put node_id (record s { info = record s.info { connected = false }; has_socket = false })
          p.sessions;
  }
]

-- The sessions that a heartbeat finds silent for longer than the timeout.
unfoldable pub timed_out : ℕ → ℕ → Map PeerSession → List String
timed_out timeout now [] = []
timed_out timeout now ((id, s) ∷ m) =
    let rest = timed_out timeout now m in
    if s.info.connected && ltb (s.last_pong_received + timeout) now then id ∷ rest else rest

-- `1 << attempt` in an `int`. From 32 on the shift has no defined result: `wide` stands for it.
unfoldable pub shift_one : (ℕ → ℤ) → ℕ → ℤ
shift_one wide attempt =
    if ltb attempt 31
    then pos (2 ^ attempt)
    else if ltb attempt 32
    then negsuc (2 ^ 31 - 1)
    else wide attempt

-- `delay > 60 || delay < 0`, then `min(delay, 60)`
abbrev pub cap_delay : ℤ → ℕ
cap_delay (pos n) = if ltb 60 n then 60 else min n 60
cap_delay (negsuc n) = 60

unfoldable pub calculate_reconnect_delay : (ℕ → ℤ) → ℤ → ℕ
unfolding shift_one
calculate_reconnect_delay wide (negsuc n) = 1
calculate_reconnect_delay wide (pos attempt) = cap_delay (shift_one wide attempt)
