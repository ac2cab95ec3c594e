-- ===== src/Gossip/Handle/Local.antt =====
-- What `handleAnnouncement` of src/gossip/gossip_engine.cpp does with a message for a local user.
use bright_chain_cpp.Prelude.{
  ◌≡◌, refl, sym, subst, String, Bool, true, false, some, List, [], ◌∷◌, ◌++◌, arith, map,
  if◌then◌else◌,
}
use bright_chain_cpp.Prelude.Map.{contains_key}
use bright_chain_cpp.Gossip.Announcement.{
  AnnouncementType, BlockAnnouncement, MessageDeliveryMetadata, DeliveryAckMetadata, validate,
}
use bright_chain_cpp.Gossip.Engine.{
  Env, Engine, announcements, message_deliveries, queue_announcement,
}
use bright_chain_cpp.Gossip.Announce.{new_announcement, send_delivery_ack}
use bright_chain_cpp.Gossip.Handle.{
  Outcome, done, Handled, call_handlers, delivered_ack, deliver, handle_message, handle_add,
  handle_type, finish, handle_announcement, first_local,
}

first_local_lem :
    (users rs : List String) (r : String)
    → first_local users rs ≡ some r
    → contains_key r users ≡ true
unfolding first_local
first_local_lem users [] r h = absurd (ground arith)
first_local_lem users (x ∷ rs) r h = ground (arith, first_local_lem users rs r)

-- What a message for a local user does: its handlers are called, and an ack is queued where one is
-- asked for.
pub record Delivered (env : Env) (e : Engine) (a : BlockAnnouncement) (m : MessageDeliveryMetadata)
    (r : String) (after : Engine × Outcome) : Type 0 where
  pub local : contains_key r e.local_user_ids ≡ true
  pub calls :
      after.0.calls
      ≡ (e.calls
          ++ map
              (λ h. record { kind = announcements; handler = h; announcement = a })
              e.announcement_handlers)
        ++ map
            (λ h. record { kind = message_deliveries; handler = h; announcement = a })
            e.message_delivery_handlers
  pub pending : after.0.pending_announcements ≡ (
      if m.ack_required
      then e.pending_announcements
        ++ record (new_announcement env e AnnouncementType.ack m.message_id e.config.default_ttl) {
          delivery_ack = some (delivered_ack a m r);
        }
          ∷ []
      else e.pending_announcements)
  pub peers : after.0.peers ≡ e.peers
  pub heads : after.0.heads ≡ e.heads
  pub outcome : after.1 ≡ done

pending-send_delivery_ack :
    (env : Env) (e : Engine) (ack : DeliveryAckMetadata) (b : Bool)
    → (if b then send_delivery_ack env e ack else e).pending_announcements ≡ (
        if b
        then e.pending_announcements
          ++ record (new_announcement env e AnnouncementType.ack ack.message_id
              e.config.default_ttl) { delivery_ack = some ack }
            ∷ []
        else e.pending_announcements)
unfolding send_delivery_ack queue_announcement new_announcement
pending-send_delivery_ack env e ack true = refl
pending-send_delivery_ack env e ack false = refl

delivered :
    (env : Env) (e : Engine) (a : BlockAnnouncement) (m : MessageDeliveryMetadata) (r : String)
    → contains_key r e.local_user_ids ≡ true
    → Delivered env e a m r (
        finish env a
          (deliver env (call_handlers announcements e.announcement_handlers a e) a m (some r)))
unfolding call_handlers deliver finish send_delivery_ack queue_announcement new_announcement
delivered env e a m r local = record {
  local = local;
  calls = ground arith;
  pending =
      pending-send_delivery_ack env
        (call_handlers message_deliveries e.message_delivery_handlers a
          (call_handlers announcements e.announcement_handlers a e))
        (delivered_ack a m r) m.ack_required;
  peers = ground arith;
  heads = ground arith;
  outcome = refl;
}

-- A valid message with a recipient among the local users reaches the handlers, after the handlers
-- for every announcement; where it asks for an ack, exactly one is queued, for the first such
-- recipient; it is not forwarded, and the peers and the head registry stay as they were.
pub local_message :
    (env : Env) (e : Engine) (a : BlockAnnouncement) (m : MessageDeliveryMetadata) (r : String)
    → validate a ≡ true
    → a.type ≡ AnnouncementType.add
    → a.message_delivery ≡ some m
    → first_local e.local_user_ids m.recipient_ids ≡ some r
    → Delivered env e a m r (handle_announcement env e a)
unfolding handle_announcement handle_type handle_add handle_message call_handlers
local_message env e a m r valid is_add has_message found =
    let e' = call_handlers announcements e.announcement_handlers a e in
    let ends : Handled → Type 0 = λ h. Delivered env e a m r (finish env a h) in
    let taken : ends (handle_message env e' a m) =
      subst (λ o. ends (deliver env e' a m o)) (sym found)
        (delivered env e a m r (first_local_lem e.local_user_ids m.recipient_ids r found)) in
    let added : ends (handle_add env e' a a.message_delivery) =
      subst (λ o. ends (handle_add env e' a o)) (sym has_message) taken in
    simp valid (subst (λ t. ends (handle_type env t e' a)) (sym is_add) added)
