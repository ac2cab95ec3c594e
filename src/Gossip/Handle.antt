-- ===== src/Gossip/Handle.antt =====
-- `handleAnnouncement` of src/gossip/gossip_engine.cpp.
pub mod Heads
pub mod Local
pub mod Sends
use Prim.Native.Char.{code}
use Prim.Native.String.{◌++◌ as str_append}
use bright_chain_cpp.Prelude.{
  ℕ, String, Bool, true, false, ◌&&◌, Option, none, some, List, [], ◌∷◌, ◌++◌, map, str_eq,
  if◌then◌else◌,
}
use bright_chain_cpp.Prelude.Int.{ℤ}
use bright_chain_cpp.Prelude.Map.{Map, contains_key, put}
use bright_chain_cpp.Gossip.Announcement.{
  AnnouncementType, BlockAnnouncement, MessageDeliveryMetadata, DeliveryAckMetadata,
  HeadUpdateMetadata, PoolAnnouncementMetadata, WriteProof, validate, is_positive,
}
use bright_chain_cpp.Gossip.Peers.{update_pool_cache, remove_pool_from_cache}
use bright_chain_cpp.Gossip.Engine.{
  Env, Engine, HeadEntry, HandlerKind, HandlerCall, announcements, message_deliveries,
  delivery_acks, proposals, votes, forward_announcement,
}
use bright_chain_cpp.Gossip.Announce.{send_delivery_ack}
use bright_chain_cpp.Gossip.Hex.{decode_hex}

-- How a call ends: it returns, or an exception leaves it.
pub data Outcome : Type 0 where
  done thrown : Outcome

-- What the `switch` leaves: the engine, `shouldForward`, and how it ended.
pub record Handled : Type 0 where
  pub engine : Engine
  pub should_forward : Bool
  pub outcome : Outcome

abbrev pub passed : Engine → Handled
passed e = record { engine = e; should_forward = true; outcome = done }

unfoldable pub call_handlers : HandlerKind → List ℕ → BlockAnnouncement → Engine → Engine
call_handlers kind hs a e = record e {
  calls = e.calls ++ map (λ h. record { kind = kind; handler = h; announcement = a }) hs;
}

-- The first recipient that is a local user.
unfoldable pub first_local : List String → List String → Option String
first_local users [] = none
first_local users (r ∷ rs) =
    let rest = first_local users rs in if contains_key r users then some r else rest

abbrev pub delivered_ack :
    BlockAnnouncement → MessageDeliveryMetadata → String → DeliveryAckMetadata
delivered_ack a m recipient = record {
  message_id = m.message_id;
  recipient_id = recipient;
  status = "delivered";
  original_sender_node = a.node_id;
}

unfoldable pub deliver :
    Env → Engine → BlockAnnouncement → MessageDeliveryMetadata → Option String → Handled
unfolding call_handlers send_delivery_ack
deliver env e a m none = passed e
deliver env e a m (some recipient) =
    let e' = call_handlers message_deliveries e.message_delivery_handlers a e in
    record {
      engine =
          if m.ack_required then send_delivery_ack env e' (delivered_ack a m recipient) else e';
      should_forward = false;
      outcome = done;
    }

unfoldable pub handle_message : Env → Engine → BlockAnnouncement → MessageDeliveryMetadata → Handled
unfolding first_local deliver
handle_message env e a m = deliver env e a m (first_local e.local_user_ids m.recipient_ids)

unfoldable pub handle_add :
    Env → Engine → BlockAnnouncement → Option MessageDeliveryMetadata → Handled
unfolding handle_message
handle_add env e a none = passed e
handle_add env e a (some m) = handle_message env e a m

-- `setHead`: without the lock nothing changes; where the file is not written, the entry stays set.
unfoldable pub set_head : Env → Engine → String → String → Handled
set_head env e key block_id =
    let e' = record e {
      heads = put key (record { block_id = block_id; timestamp = env.now }) e.heads;
    } in
    if env.registry_lock
    then record {
      engine = e';
      should_forward = true;
      outcome = if env.registry_persist then done else thrown;
    }
    else record { engine = e; should_forward = true; outcome = thrown }

unfoldable pub head_key : HeadUpdateMetadata → String
head_key h = str_append h.db_name (str_append ":" h.collection_name)

-- The data that a write proof signs.
unfoldable pub signed_data : WriteProof → String
signed_data p = str_append p.db_name (str_append p.collection_name p.block_id)

abbrev pub codes : String → List ℕ
codes String.[] = []
codes (String.◌∷◌ c s) = code c ∷ codes s

-- Whether the proof holds, with `none` for an exception from the hex decoding.
unfoldable pub check_proof : Env → WriteProof → Option Bool
unfolding decode_hex signed_data
check_proof env p = elim (decode_hex (codes p.signer_public_key)) [
  | none ↦ none
  | some key ↦ elim (decode_hex (codes p.signature)) [
    | none ↦ none
    | some signature ↦ some (env.verify_signature (signed_data p) signature key)
  ]
]

-- Whether the update may be applied: without a proof it may.
unfoldable pub accepts_update : Env → Option WriteProof → Option Bool
unfolding check_proof
accepts_update env none = some true
accepts_update env (some proof) = check_proof env proof

-- An invalid signature leaves the `switch`, and an exception the whole call.
unfoldable pub apply_update :
    Env → Engine → BlockAnnouncement → HeadUpdateMetadata → Option Bool → Handled
unfolding set_head head_key
apply_update env e a h none = record { engine = e; should_forward = true; outcome = thrown }
apply_update env e a h (some false) = passed e
apply_update env e a h (some true) = set_head env e (head_key h) a.block_id

unfoldable pub handle_head_update :
    Env → Engine → BlockAnnouncement → Option HeadUpdateMetadata → Handled
unfolding accepts_update apply_update
handle_head_update env e a none = passed e
handle_head_update env e a (some h) = apply_update env e a h (accepts_update env a.write_proof)

-- The `switch` on the type.
unfoldable pub handle_type : Env → AnnouncementType → Engine → BlockAnnouncement → Handled
unfolding call_handlers handle_add handle_head_update update_pool_cache remove_pool_from_cache
handle_type env AnnouncementType.add e a = handle_add env e a a.message_delivery
handle_type env AnnouncementType.ack e a = elim a.delivery_ack [
  | none ↦ passed e
  | some _ ↦ passed (call_handlers delivery_acks e.delivery_ack_handlers a e)
]
handle_type env AnnouncementType.quorum_proposal e a =
    passed (call_handlers proposals e.bright_trust_proposal_handlers a e)
handle_type env AnnouncementType.quorum_vote e a =
    passed (call_handlers votes e.bright_trust_vote_handlers a e)
handle_type env AnnouncementType.head_update e a = handle_head_update env e a a.head_update
handle_type env AnnouncementType.pool_announce e a = elim a.pool_id [
  | none ↦ passed e
  | some id ↦ elim a.pool_announcement [
    | none ↦ passed e
    | some meta ↦ passed (record e { peers = update_pool_cache e.peers id meta a.node_id })
  ]
]
handle_type env AnnouncementType.pool_deleted e a = elim a.pool_id [
  | none ↦ passed e
  | some id ↦ passed (record e { peers = remove_pool_from_cache e.peers id })
]
handle_type env _ e a = passed e

-- `if (shouldForward && announcement.ttl > 0) forward`, which an exception skips.
unfoldable pub finish : Env → BlockAnnouncement → Handled → Engine × Outcome
unfolding forward_announcement
finish env a h = elim h.outcome [
  | thrown ↦ (h.engine, thrown)
  | done ↦ (
    if h.should_forward && is_positive a.ttl then forward_announcement env h.engine a else h.engine,
    done,
  )
]

unfoldable pub handle_announcement : Env → Engine → BlockAnnouncement → Engine × Outcome
unfolding call_handlers handle_type finish
handle_announcement env e a =
    if validate a
    then finish env a
        (handle_type env a.type (call_handlers announcements e.announcement_handlers a e) a)
    else (e, done)
