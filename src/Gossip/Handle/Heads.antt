-- ===== src/Gossip/Handle/Heads.antt =====
-- When `handleAnnouncement` of src/gossip/gossip_engine.cpp writes to the head registry.
use bright_chain_cpp.Prelude.{
  ◌≡◌, ◌∙◌, refl, sym, ◌⊎◌, inl, inr, Bool, true, false, Option, none, some, arith, ap, subst,
  Bool-cases, if_cases, option_cases,
}
use bright_chain_cpp.Prelude.Map.{Map, put}
use bright_chain_cpp.Gossip.Announcement.{
  AnnouncementType, BlockAnnouncement, MessageDeliveryMetadata, HeadUpdateMetadata, WriteProof,
  validate,
}
use bright_chain_cpp.Gossip.Engine.{
  Env, Engine, HeadEntry, announcements, forward_announcement, forward_live, select_random_peers,
}
use bright_chain_cpp.Gossip.Handle.{
  Handled, call_handlers, deliver, handle_message, handle_add, set_head, head_key, check_proof,
  accepts_update, apply_update, handle_head_update, handle_type, finish, handle_announcement,
}

-- Why the registry may change: a head update with no write proof, or with one that verifies.
pub record Authorized (env : Env) (a : BlockAnnouncement) (h : HeadUpdateMetadata) : Type 0 where
  pub head : a.head_update ≡ some h
  pub proof :
      (a.write_proof ≡ none)
      ⊎ ((p : WriteProof) × (a.write_proof ≡ some p) × (check_proof env p ≡ some true))

abbrev pub new_heads : Env → Engine → BlockAnnouncement → HeadUpdateMetadata → Map HeadEntry
new_heads env e a h =
    put (head_key h) (record { block_id = a.block_id; timestamp = env.now }) e.heads

abbrev pub HeadsGuarded : Env → Engine → BlockAnnouncement → Map HeadEntry → Type 0
HeadsGuarded env e a heads =
    (heads ≡ e.heads)
    ⊎ ((h : HeadUpdateMetadata) × Authorized env a h × (heads ≡ new_heads env e a h))

set_head-heads :
    (env : Env) (e : Engine) (a : BlockAnnouncement) (h : HeadUpdateMetadata)
    → Authorized env a h
    → HeadsGuarded env e a (set_head env e (head_key h) a.block_id).engine.heads
unfolding set_head
set_head-heads env e a h auth =
    if_cases (λ (r : Handled). HeadsGuarded env e a r.engine.heads) env.registry_lock _ _
      (λ _. inr (h, auth, refl)) (λ _. inl refl)

accepts_update-Authorized :
    (env : Env) (a : BlockAnnouncement) (h : HeadUpdateMetadata)
    → a.head_update ≡ some h
    → (o : Option WriteProof) → a.write_proof ≡ o
    → accepts_update env o ≡ some true
    → Authorized env a h
unfolding accepts_update
accepts_update-Authorized env a h is_head none no_proof ok = record {
  head = is_head;
  proof = inl no_proof;
}
accepts_update-Authorized env a h is_head (some p) has_proof ok = record {
  head = is_head;
  proof = inr (p, has_proof, ok);
}

apply_update-heads :
    (env : Env) (e : Engine) (a : BlockAnnouncement) (h : HeadUpdateMetadata)
    → a.head_update ≡ some h
    → (o : Option Bool) → accepts_update env a.write_proof ≡ o
    → HeadsGuarded env e a (apply_update env e a h o).engine.heads
unfolding apply_update
apply_update-heads env e a h is_head none eq = inl refl
apply_update-heads env e a h is_head (some false) eq = inl refl
apply_update-heads env e a h is_head (some true) eq =
    set_head-heads env e a h (accepts_update-Authorized env a h is_head a.write_proof refl eq)

handle_head_update-heads :
    (env : Env) (e : Engine) (a : BlockAnnouncement) (o : Option HeadUpdateMetadata)
    → a.head_update ≡ o
    → HeadsGuarded env e a (handle_head_update env e a o).engine.heads
unfolding handle_head_update
handle_head_update-heads env e a none eq = inl refl
handle_head_update-heads env e a (some h) eq = apply_update-heads env e a h eq _ refl

heads-handle_message :
    (env : Env) (e : Engine) (a : BlockAnnouncement) (m : MessageDeliveryMetadata)
    → (handle_message env e a m).engine.heads ≡ e.heads
unfolding handle_message deliver
heads-handle_message env e a m = ground arith

handle_type-heads :
    (env : Env) (t : AnnouncementType) (e : Engine) (a : BlockAnnouncement)
    → HeadsGuarded env e a (handle_type env t e a).engine.heads
unfolding handle_type
handle_type-heads env AnnouncementType.head_update e a =
    handle_head_update-heads env e a a.head_update refl
handle_type-heads env AnnouncementType.add e a =
    option_cases (λ o. HeadsGuarded env e a (handle_add env e a o).engine.heads) a.message_delivery
      (λ _. inl refl) (λ m _. inl (heads-handle_message env e a m))
handle_type-heads env _ e a = inl (ground arith)

heads-forward_announcement :
    (env : Env) (e : Engine) (a : BlockAnnouncement)
    → (forward_announcement env e a).heads ≡ e.heads
unfolding forward_announcement forward_live select_random_peers
heads-forward_announcement env e a = ground arith

heads-finish :
    (env : Env) (a : BlockAnnouncement) (h : Handled) → (finish env a h).0.heads ≡ h.engine.heads
unfolding finish
heads-finish env a h = ground (arith, heads-forward_announcement env h.engine a)

-- The engine that the `switch` starts from.
abbrev announced : Engine → BlockAnnouncement → Engine
announced e a = call_handlers announcements e.announcement_handlers a e

heads-valid :
    (env : Env) (e : Engine) (a : BlockAnnouncement)
    → validate a ≡ true
    → (handle_announcement env e a).0.heads
      ≡ (handle_type env a.type (announced e a) a).engine.heads
unfolding handle_announcement
heads-valid env e a valid = rw valid (heads-finish env a (handle_type env a.type (announced e a) a))

heads-invalid :
    (env : Env) (e : Engine) (a : BlockAnnouncement)
    → validate a ≡ false
    → (handle_announcement env e a).0.heads ≡ e.heads
unfolding handle_announcement
heads-invalid env e a invalid = rw invalid refl

announced-heads :
    (env : Env) (e : Engine) (a : BlockAnnouncement)
    → HeadsGuarded env e a (handle_type env a.type (announced e a) a).engine.heads
unfolding call_handlers
announced-heads env e a = handle_type-heads env a.type (announced e a) a

-- Whatever announcement arrives, the head registry either stays as it was, or gets one new entry:
-- the block id of the announcement and the present time, under the key of its head update. The
-- second needs an announcement whose write proof is absent or has a signature that verifies.
pub heads_guarded :
    (env : Env) (e : Engine) (a : BlockAnnouncement)
    → HeadsGuarded env e a (handle_announcement env e a).0.heads
heads_guarded env e a = elim (Bool-cases (validate a)) [
  | inl valid ↦
      subst (HeadsGuarded env e a) (sym (heads-valid env e a valid)) (announced-heads env e a)
  | inr invalid ↦ inl (heads-invalid env e a invalid)
]

applied :
    (env : Env) (e : Engine) (a : BlockAnnouncement) (h : HeadUpdateMetadata) (p : WriteProof)
    → a.head_update ≡ some h
    → a.write_proof ≡ some p
    → check_proof env p ≡ some true
    → env.registry_lock ≡ true
    → (handle_type env AnnouncementType.head_update (announced e a) a).engine.heads
      ≡ new_heads env e a h
unfolding call_handlers handle_type handle_head_update accepts_update apply_update set_head
applied env e a h p has_head has_proof verified lock =
    ground (arith, has_head, has_proof, verified, lock)

-- A verified write proof authorises the head update of the announcement it comes in, whatever the
-- database, the collection and the block of that update: where the announcement is a valid head
-- update and the registry gets its lock, the registry gets the entry of the announcement, although
-- the proof signs other texts.
pub proof_not_bound :
    (env : Env) (e : Engine) (a : BlockAnnouncement) (h : HeadUpdateMetadata) (p : WriteProof)
    → a.type ≡ AnnouncementType.head_update
    → validate a ≡ true
    → a.head_update ≡ some h
    → a.write_proof ≡ some p
    → check_proof env p ≡ some true
    → env.registry_lock ≡ true
    → (handle_announcement env e a).0.heads ≡ new_heads env e a h
proof_not_bound env e a h p is_head valid has_head has_proof verified lock =
    heads-valid env e a valid
    ∙ ap (λ t. (handle_type env t (announced e a) a).engine.heads) is_head
    ∙ applied env e a h p has_head has_proof verified lock
