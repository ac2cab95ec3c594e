-- ===== src/Gossip/Flush.antt =====
-- `batchFlush` of src/gossip/gossip_engine.cpp.
pub mod Deliveries
use bright_chain_cpp.Prelude.{
  ℕ, zero, suc, String, Option, none, some, List, [], ◌∷◌, take, drop, length,
}
use bright_chain_cpp.Gossip.Announcement.{BlockAnnouncement}
use bright_chain_cpp.Gossip.Config.{to_size}
use bright_chain_cpp.Gossip.Peers.{get_connected_peer_ids}
use bright_chain_cpp.Gossip.Engine.{Env, Engine, fanout_for, select_random_peers, send_encrypted}

-- One announcement of a chunk, to the peers that its fanout selects.
unfoldable pub send_one : Env → BlockAnnouncement → Engine → Engine
unfolding fanout_for select_random_peers send_encrypted
send_one env a e =
    let (targets, e') = select_random_peers env e (fanout_for e.config a) in
    record e' { peers = send_encrypted env targets a e'.peers }

unfoldable pub send_chunk : Env → List BlockAnnouncement → Engine → Engine
unfolding send_one
send_chunk env [] e = e
send_chunk env (a ∷ as') e = send_chunk env as' (send_one env a e)

-- The loop over the chunks; the list is the batch from `offset` on. Each round takes one unit of
-- fuel, and `none` means that it ran out.
unfoldable pub send_chunks : ℕ → Env → ℕ → List BlockAnnouncement → Engine → Option Engine
unfolding send_chunk
send_chunks fuel env max_batch [] e = some e
send_chunks zero env max_batch (a ∷ as') e = none
send_chunks (suc fuel) env max_batch (a ∷ as') e =
    send_chunks fuel env max_batch (drop max_batch (a ∷ as'))
      (send_chunk env (take max_batch (a ∷ as')) e)

-- The sends of a batch where `peer_ids` are connected.
unfoldable pub send_batch : Env → Engine → List BlockAnnouncement → List String → Option Engine
unfolding send_chunks
send_batch env e batch [] = some e
send_batch env e batch (id ∷ ids) =
    send_chunks (length batch) env (to_size e.config.max_batch_size) batch e

-- The queue is emptied first; without a connected peer nothing is sent.
unfoldable pub batch_flush : Env → Engine → Option Engine
unfolding send_batch get_connected_peer_ids
batch_flush env e =
    send_batch env (record e { pending_announcements = [] }) e.pending_announcements
      (get_connected_peer_ids e.peers)
