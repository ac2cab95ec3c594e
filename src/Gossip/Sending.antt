-- ===== src/Gossip/Sending.antt =====
-- What the sends of src/gossip/gossip_engine.cpp record, and to whom.
use mathlib.Core.List.{append-nil, append_assoc}
use bright_chain_cpp.Prelude.{
  ◌-◌, ◌≡◌, ◌∙◌, refl, sym, String, Bool, true, false, List, [], ◌∷◌, ◌++◌, map, arith,
  if◌then◌else◌,
}
use bright_chain_cpp.Prelude.Int.{ℤ, pos, pos_part}
use bright_chain_cpp.Gossip.Announcement.{BlockAnnouncement, is_positive}
use bright_chain_cpp.Gossip.Peers.{
  PeerManager, Payload, plaintext, send_to_peer, get_connected_peer_ids,
}
use bright_chain_cpp.Gossip.Engine.{
  Env, Engine, payload_for, encrypt_and_send_batch, send_encrypted, send_plaintext, is_sensitive,
  decremented, fanout_for, select_random_peers, forward_live, forward_announcement,
}
use bright_chain_cpp.Gossip.Select.{IsSelection, IsUniform, select_random_peers-IsSelection}

-- One payload for each target, in order.
abbrev pub addressed : (String → Payload) → List String → List (String × Payload)
addressed f = map (λ t. (t, f t))

abbrev pub with_sent : PeerManager → List (String × Payload) → PeerManager
with_sent p ms = record p { sent_messages = p.sent_messages ++ ms }

with_sent-nil : (p : PeerManager) → p ≡ with_sent p []
with_sent-nil p = λ i. record p { sent_messages = sym (append-nil p.sent_messages) i }

with_sent-cons :
    (p : PeerManager) (m : String × Payload) (ms : List (String × Payload))
    → with_sent (with_sent p (m ∷ [])) ms ≡ with_sent p (m ∷ ms)
with_sent-cons p m ms = λ i. record p { sent_messages = append_assoc p.sent_messages (m ∷ []) ms i }

pub send_encrypted_lem :
    (env : Env) (ts : List String) (a : BlockAnnouncement) (p : PeerManager)
    → send_encrypted env ts a p ≡ with_sent p (addressed (λ t. payload_for env p t (a ∷ [])) ts)
unfolding send_encrypted payload_for
send_encrypted_lem env [] a p = with_sent-nil p
send_encrypted_lem env (t ∷ ts) a p =
    send_encrypted_lem env ts a (encrypt_and_send_batch env p t (a ∷ []))
    ∙ with_sent-cons p (t, payload_for env p t (a ∷ []))
        (addressed (λ t'. payload_for env p t' (a ∷ [])) ts)

pub send_plaintext_lem :
    (ts : List String) (a : BlockAnnouncement) (p : PeerManager)
    → send_plaintext ts a p ≡ with_sent p (addressed (λ t. plaintext (a ∷ [])) ts)
unfolding send_plaintext
send_plaintext_lem [] a p = with_sent-nil p
send_plaintext_lem (t ∷ ts) a p =
    send_plaintext_lem ts a (send_to_peer p t (plaintext (a ∷ [])))
    ∙ with_sent-cons p (t, plaintext (a ∷ [])) (addressed (λ t'. plaintext (a ∷ [])) ts)

send_either :
    (env : Env) (b : Bool) (ts : List String) (a : BlockAnnouncement) (p : PeerManager)
    → (if b then send_encrypted env ts a p else send_plaintext ts a p)
      ≡ with_sent p
          (addressed (λ t. if b then payload_for env p t (a ∷ []) else plaintext (a ∷ [])) ts)
send_either env true ts a p = send_encrypted_lem env ts a p
send_either env false ts a p = send_plaintext_lem ts a p

-- What `forwardAnnouncement` sends to a peer.
abbrev pub forwarded_payload : Env → PeerManager → BlockAnnouncement → String → Payload
forwarded_payload env p a t =
    if is_sensitive a
    then payload_for env p t (decremented a ∷ [])
    else plaintext (decremented a ∷ [])

-- The engine after a send to `targets` differs from the one before in the messages sent, and in the
-- count of shuffles.
pub record IsSent (e : Engine) (fanout : ℤ) (payload : String → Payload) (targets : List String)
    (after : Engine) : Type 0 where
  pub selection : IsSelection (get_connected_peer_ids e.peers) fanout targets
  pub sent : after.peers ≡ with_sent e.peers (addressed payload targets)
  pub heads : after.heads ≡ e.heads
  pub pending : after.pending_announcements ≡ e.pending_announcements
  pub calls : after.calls ≡ e.calls
  pub config : after.config ≡ e.config

forward_live-peers :
    (env : Env) (e : Engine) (a : BlockAnnouncement)
    → (forward_live env e (decremented a)).peers
      ≡ with_sent e.peers (
          addressed
            (forwarded_payload env e.peers a)
            (select_random_peers env e (fanout_for e.config a)).0)
unfolding forward_live
forward_live-peers env e a =
    send_either env (is_sensitive a) (select_random_peers env e (fanout_for e.config a)).0
      (decremented a) e.peers

forward_live-IsSent :
    (env : Env) (e : Engine) (a : BlockAnnouncement)
    → IsUniform env
    → IsSent e
        (fanout_for e.config a)
        (forwarded_payload env e.peers a)
        (select_random_peers env e (fanout_for e.config a)).0
        (forward_live env e (decremented a))
unfolding forward_live
forward_live-IsSent env e a law = record {
  selection = select_random_peers-IsSelection env e (fanout_for e.config a) law;
  sent = forward_live-peers env e a;
  heads = refl;
  pending = refl;
  calls = refl;
  config = refl;
}

abbrev pub IsForwarded : Env → Engine → BlockAnnouncement → Engine → Type 0
IsForwarded env e a after =
    (targets : List String) × IsSent e (fanout_for e.config a) (forwarded_payload env e.peers a)
      targets after

-- Where the draws of a shuffle are in range, an announcement with hops left goes to a selection of
-- the connected peers, of the size that its fanout allows.
pub forward_announcement-IsForwarded :
    (env : Env) (e : Engine) (a : BlockAnnouncement)
    → IsUniform env
    → is_positive a.ttl ≡ true
    → IsForwarded env e a (forward_announcement env e a)
unfolding forward_announcement
forward_announcement-IsForwarded env e a law live = rw live (_, forward_live-IsSent env e a law)

-- The hop count falls by one.
pub decremented-ttl :
    (a : BlockAnnouncement)
    → is_positive a.ttl ≡ true
    → (decremented a).ttl ≡ pos (pos_part a.ttl - 1)
decremented-ttl a h = ground arith
