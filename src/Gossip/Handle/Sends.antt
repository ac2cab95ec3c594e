-- ===== src/Gossip/Handle/Sends.antt =====
-- What `handleAnnouncement` of src/gossip/gossip_engine.cpp sends.
use bright_chain_cpp.Prelude.{
  ◌≡◌, ◌∙◌, refl, sym, ap, ◌⊎◌, inl, inr, String, Bool, true, ◌&&◌, List, ◌++◌, arith, if_cases,
  option_cases,
}
use bright_chain_cpp.Gossip.Announcement.{
  AnnouncementType, BlockAnnouncement, MessageDeliveryMetadata, validate, is_positive,
}
use bright_chain_cpp.Gossip.Peers.{
  get_peer, get_connected_peer_ids, update_pool_cache, remove_pool_from_cache,
}
use bright_chain_cpp.Gossip.Engine.{
  Env, Engine, announcements, fanout_for, payload_for, queue_announcement, forward_announcement,
}
use bright_chain_cpp.Gossip.Announce.{send_delivery_ack}
use bright_chain_cpp.Gossip.Select.{IsSelection, IsUniform}
use bright_chain_cpp.Gossip.Sending.{
  addressed, forwarded_payload, IsForwarded, forward_announcement-IsForwarded,
}
use bright_chain_cpp.Gossip.Handle.{
  Outcome, done, thrown, call_handlers, deliver, handle_message, handle_add, handle_head_update,
  apply_update, set_head, handle_type, finish, handle_announcement,
}

-- What the `switch` leaves alone.
record Kept (e after : Engine) : Type 0 where
  pub sessions : after.peers.sessions ≡ e.peers.sessions
  pub sent : after.peers.sent_messages ≡ e.peers.sent_messages
  pub config : after.config ≡ e.config

same : (e : Engine) → Kept e e
same e = record { sessions = refl; sent = refl; config = refl }

handle_message-Kept :
    (env : Env) (e : Engine) (a : BlockAnnouncement) (m : MessageDeliveryMetadata)
    → Kept e (handle_message env e a m).engine
unfolding handle_message deliver send_delivery_ack queue_announcement call_handlers
handle_message-Kept env e a m = record {
  sessions = ground arith;
  sent = ground arith;
  config = ground arith;
}

handle_head_update-Kept :
    (env : Env) (e : Engine) (a : BlockAnnouncement)
    → Kept e (handle_head_update env e a a.head_update).engine
unfolding handle_head_update apply_update set_head
handle_head_update-Kept env e a = record {
  sessions = ground arith;
  sent = ground arith;
  config = ground arith;
}

handle_type-Kept :
    (env : Env) (t : AnnouncementType) (e : Engine) (a : BlockAnnouncement)
    → Kept e (handle_type env t e a).engine
unfolding handle_type update_pool_cache remove_pool_from_cache call_handlers
handle_type-Kept env AnnouncementType.add e a =
    option_cases (λ o. Kept e (handle_add env e a o).engine) a.message_delivery (λ _. same e)
      (λ m _. handle_message-Kept env e a m)
handle_type-Kept env AnnouncementType.head_update e a = handle_head_update-Kept env e a
handle_type-Kept env _ e a = record {
  sessions = ground arith;
  sent = ground arith;
  config = ground arith;
}

-- The announcement goes on, with one hop less, to a selection of the connected peers.
pub record PassedOn (env : Env) (e : Engine) (a : BlockAnnouncement) (after : Engine) : Type 0 where
  pub live : is_positive a.ttl ≡ true
  pub targets : List String
  pub selection : IsSelection (get_connected_peer_ids e.peers) (fanout_for e.config a) targets
  pub sent :
      after.peers.sent_messages
      ≡ e.peers.sent_messages ++ addressed (forwarded_payload env e.peers a) targets

-- Nothing is sent, or the announcement goes on.
abbrev pub SendsBounded : Env → Engine → BlockAnnouncement → Engine → Type 0
SendsBounded env e a after =
    (after.peers.sent_messages ≡ e.peers.sent_messages) ⊎ PassedOn env e a after

-- The choice of the peers and of the payload reads no more than what the `switch` leaves alone.
IsForwarded-PassedOn :
    (env : Env) (e e' : Engine) (a : BlockAnnouncement) (after : Engine)
    → is_positive a.ttl ≡ true
    → Kept e e'
    → IsForwarded env e' a after
    → PassedOn env e a after
unfolding payload_for get_peer get_connected_peer_ids
IsForwarded-PassedOn env e e' a after live kept (targets, f) = record {
  live = live;
  targets = targets;
  selection = rw (sym kept.sessions, sym kept.config) f.selection;
  sent = ap (λ p. p.sent_messages) f.sent ∙ rw (kept.sessions, kept.sent) refl;
}

and-right : (b c : Bool) → (b && c) ≡ true → c ≡ true
and-right b c h = ground arith

finish-SendsBounded :
    (env : Env) (e e' : Engine) (a : BlockAnnouncement) (b : Bool) (o : Outcome)
    → IsUniform env
    → Kept e e'
    → SendsBounded env e a
        (finish env a (record { engine = e'; should_forward = b; outcome = o })).0
unfolding finish
finish-SendsBounded env e e' a b thrown law kept = inl kept.sent
finish-SendsBounded env e e' a b done law kept =
    if_cases (SendsBounded env e a) (b && is_positive a.ttl) _ _
      (λ go.
        let live = and-right b (is_positive a.ttl) go in
        inr (
          IsForwarded-PassedOn env e e' a (forward_announcement env e' a) live kept
            (forward_announcement-IsForwarded env e' a law live)))
      (λ _. inl kept.sent)

-- Where the draws of a shuffle are in range: an announcement that arrives leads to no message, or,
-- while it has hops left, to one message with one hop less for each of a selection of the connected
-- peers, of the size that its fanout allows and with no peer chosen more often than it stands there;
-- the messages are those that `forwardAnnouncement` builds for these peers.
pub sends_bounded :
    (env : Env) (e : Engine) (a : BlockAnnouncement)
    → IsUniform env
    → SendsBounded env e a (handle_announcement env e a).0
unfolding handle_announcement call_handlers
sends_bounded env e a law =
    let h = handle_type env a.type (call_handlers announcements e.announcement_handlers a e) a in
    let k =
      handle_type-Kept env a.type (call_handlers announcements e.announcement_handlers a e) a in
    let kept : Kept e h.engine = record {
      sessions = k.sessions;
      sent = k.sent;
      config = k.config;
    } in
    if_cases (λ (r : Engine × Outcome). SendsBounded env e a r.0) (validate a) _ _
      (λ _. finish-SendsBounded env e h.engine a h.should_forward h.outcome law kept)
      (λ _. inl refl)
