-- ===== src/Gossip/Engine.antt =====
-- include/brightchain/gossip/gossip_engine.hpp and src/gossip/gossip_engine.cpp.
use bright_chain_cpp.Prelude.{
  ℕ, zero, suc, String, Bool, true, false, ◌||◌, Option, none, some, List, [], ◌∷◌, ◌++◌, min,
  str_eq, if◌then◌else◌, length, get_or, set, take,
}
use bright_chain_cpp.Prelude.Int.{ℤ, pos, negsuc}
use bright_chain_cpp.Prelude.Map.{Map}
use bright_chain_cpp.Gossip.Announcement.{
  AnnouncementType, BlockAnnouncement, has_value, is_positive,
}
use bright_chain_cpp.Gossip.Config.{GossipConfig, to_size}
use bright_chain_cpp.Gossip.Peers.{
  PeerManager, Payload, plaintext, envelope, get_peer, get_connected_peer_ids, send_to_peer,
}

-- What the engine takes from outside: the time as text, the result of the `i`-th draw of a shuffle
-- at each position, the ECIES encryption of the JSON text of a batch (`none` when it throws), the
-- check of an ECDSA signature (data, signature, key), and whether the head registry gets its lock and
-- then writes its file.
pub record Env : Type 0 where
  pub now : String
  pub draw : ℕ → ℕ → ℕ
  pub encrypt : List ℕ → List BlockAnnouncement → Option (List ℕ)
  pub verify_signature : String → List ℕ → List ℕ → Bool
  pub registry_lock : Bool
  pub registry_persist : Bool

pub record HeadEntry : Type 0 where
  pub block_id : String
  pub timestamp : String

pub data HandlerKind : Type 0 where
  announcements message_deliveries delivery_acks proposals votes : HandlerKind

pub record HandlerCall : Type 0 where
  pub kind : HandlerKind
  pub handler : ℕ
  pub announcement : BlockAnnouncement

-- Registered handlers are known by their numbers, and `calls` holds their calls in order.
-- `selections` counts the shuffles made so far.
pub record Engine : Type 0 where
  pub config : GossipConfig
  pub local_node : String
  pub peers : PeerManager
  pub heads : Map HeadEntry
  pub pending_announcements : List BlockAnnouncement
  pub announcement_handlers : List ℕ
  pub message_delivery_handlers : List ℕ
  pub delivery_ack_handlers : List ℕ
  pub bright_trust_proposal_handlers : List ℕ
  pub bright_trust_vote_handlers : List ℕ
  pub local_user_ids : List String
  pub calls : List HandlerCall
  pub selections : ℕ

unfoldable pub queue_announcement : Engine → BlockAnnouncement → Engine
queue_announcement e a = record e { pending_announcements = e.pending_announcements ++ a ∷ [] }

-- `std::swap(v[i], v[j])`
unfoldable pub swap : List String → ℕ → ℕ → List String
swap xs i j = set (set xs i (get_or xs j "")) j (get_or xs i "")

-- The Fisher-Yates loop, from position `i` down to 1.
unfoldable pub shuffle : (ℕ → ℕ) → ℕ → List String → List String
unfolding swap
shuffle dist zero xs = xs
shuffle dist (suc i) xs = shuffle dist i (swap xs (suc i) (dist (suc i)))

-- The peers chosen from those that are connected, by the `n`-th shuffle.
unfoldable pub choose : Env → ℕ → ℤ → List String → List String
unfolding shuffle
choose env n count [] = []
choose env n count (id ∷ ids) =
    take (min (to_size count) (length (id ∷ ids))) (shuffle (env.draw n) (length ids) (id ∷ ids))

-- Without a connected peer no shuffle is made.
abbrev pub next_selection : ℕ → List String → ℕ
next_selection n [] = n
next_selection n (id ∷ ids) = suc n

unfoldable pub select_random_peers : Env → Engine → ℤ → List String × Engine
unfolding choose get_connected_peer_ids
select_random_peers env e count =
    let all_peers = get_connected_peer_ids e.peers in
    (
      choose env e.selections count all_peers,
      record e { selections = next_selection e.selections all_peers },
    )

abbrev pub is_sensitive : BlockAnnouncement → Bool
is_sensitive a = has_value a.message_delivery || has_value a.delivery_ack

abbrev pub any_sensitive : List BlockAnnouncement → Bool
any_sensitive [] = false
any_sensitive (a ∷ as') = is_sensitive a || any_sensitive as'

abbrev pub sealed : Env → List ℕ → List BlockAnnouncement → Payload
sealed env [] batch = plaintext batch
sealed env (b ∷ key) batch = elim (env.encrypt (b ∷ key) batch) [
  | none ↦ plaintext batch
  | some bytes ↦ envelope bytes
]

-- The payload that `encryptAndSendBatch` chooses for a peer.
unfoldable pub payload_for : Env → PeerManager → String → List BlockAnnouncement → Payload
unfolding get_peer
payload_for env p peer_id batch =
    if any_sensitive batch
    then elim (get_peer p peer_id) [
      | none ↦ plaintext batch
      | some info ↦ sealed env info.public_key batch
    ]
    else plaintext batch

unfoldable pub encrypt_and_send_batch :
    Env → PeerManager → String → List BlockAnnouncement → PeerManager
unfolding payload_for send_to_peer
encrypt_and_send_batch env p peer_id batch =
    send_to_peer p peer_id (payload_for env p peer_id batch)

abbrev pub is_quorum : AnnouncementType → Bool
is_quorum AnnouncementType.quorum_proposal = true
is_quorum AnnouncementType.quorum_vote = true
is_quorum _ = false

unfoldable pub fanout_for : GossipConfig → BlockAnnouncement → ℤ
fanout_for c a = elim a.message_delivery [
  | some m ↦
      if str_eq m.priority "high"
      then c.message_priority.high.fanout
      else c.message_priority.normal.fanout
  | none ↦ if is_quorum a.type then c.message_priority.high.fanout else c.fanout
]

unfoldable pub send_encrypted : Env → List String → BlockAnnouncement → PeerManager → PeerManager
unfolding encrypt_and_send_batch
send_encrypted env [] a p = p
send_encrypted env (t ∷ ts) a p = send_encrypted env ts a (encrypt_and_send_batch env p t (a ∷ []))

unfoldable pub send_plaintext : List String → BlockAnnouncement → PeerManager → PeerManager
unfolding send_to_peer
send_plaintext [] a p = p
send_plaintext (t ∷ ts) a p = send_plaintext ts a (send_to_peer p t (plaintext (a ∷ [])))

abbrev pub decremented : BlockAnnouncement → BlockAnnouncement
decremented a = record a {
  ttl = elim a.ttl [ pos zero ↦ negsuc 0 | pos (suc n) ↦ pos n | negsuc n ↦ negsuc (suc n) ];
}

unfoldable pub forward_live : Env → Engine → BlockAnnouncement → Engine
unfolding fanout_for select_random_peers send_encrypted send_plaintext
forward_live env e forwarded =
    let (targets, e') = select_random_peers env e (fanout_for e.config forwarded) in
    record e' {
      peers =
          if is_sensitive forwarded
          then send_encrypted env targets forwarded e'.peers
          else send_plaintext targets forwarded e'.peers;
    }

unfoldable pub forward_announcement : Env → Engine → BlockAnnouncement → Engine
unfolding forward_live
forward_announcement env e a = if is_positive a.ttl then forward_live env e (decremented a) else e
