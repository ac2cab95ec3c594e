-- ===== src/Gossip/Flush/Deliveries.antt =====
-- What `batchFlush` of src/gossip/gossip_engine.cpp sends, and when it ends.
use mathlib.Core.List.{append-nil, append_assoc}
use bright_chain_cpp.Prelude.{
  ℕ, zero, suc, ◌≤◌, ◌<◌, ◌≡◌, ◌≢◌, ◌∙◌, refl, sym, ap, subst, String, none, some, List, [], ◌∷◌,
  ◌++◌, arith, take, drop, length, take-append-drop, length-drop,
}
use bright_chain_cpp.Gossip.Announcement.{BlockAnnouncement}
use bright_chain_cpp.Gossip.Config.{GossipConfig, to_size}
use bright_chain_cpp.Gossip.Peers.{PeerManager, Payload, get_connected_peer_ids, get_peer}
use bright_chain_cpp.Gossip.Engine.{Env, Engine, payload_for, fanout_for, select_random_peers}
use bright_chain_cpp.Gossip.Select.{IsSelection, IsUniform, select_random_peers-IsSelection}
use bright_chain_cpp.Gossip.Sending.{addressed, with_sent, send_encrypted_lem}
use bright_chain_cpp.Gossip.Flush.{send_one, send_chunk, send_chunks, send_batch, batch_flush}

-- The messages of a batch: for each announcement, in order, one for each of a selection of the
-- connected peers by its fanout.
pub data Deliveries (env : Env) (c : GossipConfig) (p : PeerManager)
    : List BlockAnnouncement → List (String × Payload) → Type 0 where
  nothing : Deliveries env c p [] []
  next :
      (a : BlockAnnouncement) (targets : List String) (as' : List BlockAnnouncement)
      (ms : List (String × Payload))
      → IsSelection (get_connected_peer_ids p) (fanout_for c a) targets
      → Deliveries env c p as' ms
      → Deliveries env c p (a ∷ as') (addressed (λ t. payload_for env p t (a ∷ [])) targets ++ ms)

-- Earlier messages change no later choice.
Deliveries-with_sent :
    (env : Env) (c : GossipConfig) (p : PeerManager) (sent : List (String × Payload))
    (as' : List BlockAnnouncement) (ms : List (String × Payload))
    → Deliveries env c (with_sent p sent) as' ms
    → Deliveries env c p as' ms
unfolding payload_for get_peer get_connected_peer_ids
Deliveries-with_sent env c p sent _ _ nothing = nothing
Deliveries-with_sent env c p sent _ _ (next a ts as' ms sel d) =
    next a ts as' ms sel (Deliveries-with_sent env c p sent as' ms d)

Deliveries-append :
    (env : Env) (c : GossipConfig) (p : PeerManager) (as' bs : List BlockAnnouncement)
    (ms ns : List (String × Payload))
    → Deliveries env c p as' ms
    → Deliveries env c p bs ns
    → Deliveries env c p (as' ++ bs) (ms ++ ns)
Deliveries-append env c p _ bs _ ns nothing d' = d'
Deliveries-append env c p _ bs _ ns (next a ts as' ms sel d) d' =
    subst (Deliveries env c p (a ∷ (as' ++ bs))) (sym (append_assoc _ ms ns))
      (next a ts (as' ++ bs) (ms ++ ns) sel (Deliveries-append env c p as' bs ms ns d d'))

-- What the sends of a batch leave: its messages are added to those sent.
pub record Flushed (env : Env) (e : Engine) (batch : List BlockAnnouncement) (after : Engine)
    : Type 0 where
  pub messages : List (String × Payload)
  pub deliveries : Deliveries env e.config e.peers batch messages
  pub peers : after.peers ≡ with_sent e.peers messages
  pub config : after.config ≡ e.config
  pub pending : after.pending_announcements ≡ e.pending_announcements
  pub heads : after.heads ≡ e.heads

Flushed-nothing : (env : Env) (e : Engine) → Flushed env e [] e
Flushed-nothing env e = record {
  messages = [];
  deliveries = nothing;
  peers = λ i. record e.peers { sent_messages = sym (append-nil e.peers.sent_messages) i };
  config = refl;
  pending = refl;
  heads = refl;
}

Flushed-trans :
    (env : Env) (e e' e'' : Engine) (as' bs : List BlockAnnouncement)
    → Flushed env e as' e'
    → Flushed env e' bs e''
    → Flushed env e (as' ++ bs) e''
Flushed-trans env e e' e'' as' bs f g = record {
  messages = f.messages ++ g.messages;
  deliveries = Deliveries-append env e.config e.peers as' bs f.messages g.messages f.deliveries (
      Deliveries-with_sent env e.config e.peers f.messages bs g.messages (
        subst (λ p. Deliveries env e.config p bs g.messages) f.peers
          (subst (λ c. Deliveries env c e'.peers bs g.messages) f.config g.deliveries)));
  peers = g.peers ∙ ap (λ p. with_sent p g.messages) f.peers ∙ (λ i. record e.peers {
    sent_messages = append_assoc e.peers.sent_messages f.messages g.messages i;
  });
  config = g.config ∙ f.config;
  pending = g.pending ∙ f.pending;
  heads = g.heads ∙ f.heads;
}

send_one-Flushed :
    (env : Env) (e : Engine) (a : BlockAnnouncement)
    → IsUniform env
    → Flushed env e (a ∷ []) (send_one env a e)
unfolding send_one
send_one-Flushed env e a law = record {
  messages = addressed (λ t. payload_for env e.peers t (a ∷ [])) targets ++ [];
  deliveries =
      next a targets [] [] (select_random_peers-IsSelection env e (fanout_for e.config a) law)
        nothing;
  peers = send_encrypted_lem env targets a e.peers ∙ sym (ap (with_sent e.peers) (append-nil _));
  config = refl;
  pending = refl;
  heads = refl;
}
  where
    targets : List String
    targets = (select_random_peers env e (fanout_for e.config a)).0

send_chunk-Flushed :
    (env : Env) (as' : List BlockAnnouncement) (e : Engine)
    → IsUniform env
    → Flushed env e as' (send_chunk env as' e)
unfolding send_chunk
send_chunk-Flushed env [] e law = Flushed-nothing env e
send_chunk-Flushed env (a ∷ as') e law =
    Flushed-trans env e (send_one env a e) (send_chunk env as' (send_one env a e)) (a ∷ []) as'
      (send_one-Flushed env e a law) (send_chunk-Flushed env as' (send_one env a e) law)

-- A chunk takes at least one announcement, so the length of the batch bounds the rounds.
send_chunks-Flushed :
    (env : Env) (max_batch fuel : ℕ) (batch : List BlockAnnouncement) (e : Engine)
    → IsUniform env
    → 0 < max_batch
    → length batch ≤ fuel
    → (after : Engine) × (send_chunks fuel env max_batch batch e ≡ some after)
      × Flushed env e batch after
unfolding send_chunks
send_chunks-Flushed env max_batch fuel [] e law some_batch enough = (e, refl, Flushed-nothing env e)
send_chunks-Flushed env max_batch zero (a ∷ as') e law some_batch enough = absurd (omega arith)
send_chunks-Flushed env max_batch (suc fuel) (a ∷ as') e law some_batch enough =
    let chunk = take max_batch (a ∷ as') in
    let rest = drop max_batch (a ∷ as') in
    let e' = send_chunk env chunk e in
    let (after, returns, flushed) =
      send_chunks-Flushed env max_batch fuel rest e' law some_batch
        (omega (arith, length-drop max_batch (a ∷ as'))) in
    (
      after,
      returns,
      subst (λ b. Flushed env e b after) (take-append-drop max_batch (a ∷ as'))
          (Flushed-trans env e e' after chunk rest (send_chunk-Flushed env chunk e law) flushed),
    )

-- The engine as `batchFlush` leaves it before it sends.
abbrev pub emptied : Engine → Engine
emptied e = record e { pending_announcements = [] }

send_batch-Flushed :
    (env : Env) (e : Engine) (batch : List BlockAnnouncement) (ids : List String)
    → IsUniform env
    → 0 < to_size e.config.max_batch_size
    → ids ≢ []
    → (after : Engine) × (send_batch env e batch ids ≡ some after) × Flushed env e batch after
unfolding send_batch
send_batch-Flushed env e batch [] law some_batch connected = absurd (connected refl)
send_batch-Flushed env e batch (id ∷ ids) law some_batch connected =
    send_chunks-Flushed env (to_size e.config.max_batch_size) (length batch) batch e law some_batch
      (omega arith)

-- Where the draws of a shuffle are in range, a batch size is set and a peer is connected, a flush
-- ends. The queue is then empty, the head registry is as before, and the messages sent are those of
-- the queue: for each announcement, in order, one for each of a selection of the connected peers, of
-- the size that its fanout allows, with the payload that `encryptAndSendBatch` chooses for the peer.
pub flush_sends_all :
    (env : Env) (e : Engine)
    → IsUniform env
    → 0 < to_size e.config.max_batch_size
    → get_connected_peer_ids e.peers ≢ []
    → (after : Engine) × (batch_flush env e ≡ some after)
      × Flushed env (emptied e) e.pending_announcements after
unfolding batch_flush
flush_sends_all env e law some_batch connected =
    send_batch-Flushed env (emptied e) e.pending_announcements (get_connected_peer_ids e.peers) law
      some_batch connected

-- Without a connected peer the queue is emptied and nothing is sent.
flush_alone :
    (env : Env) (e : Engine)
    → get_connected_peer_ids e.peers ≡ []
    → batch_flush env e ≡ some (emptied e)
unfolding batch_flush send_batch
flush_alone env e alone = ap (send_batch env (emptied e) e.pending_announcements) alone

-- With a batch size of zero the loop never gets past the first announcement: no number of rounds is
-- enough.
flush_zero_batch :
    (env : Env) (e : Engine) (a : BlockAnnouncement) (as' : List BlockAnnouncement) (fuel : ℕ)
    → send_chunks fuel env 0 (a ∷ as') e ≡ none
unfolding send_chunks
flush_zero_batch env e a as' zero = refl
flush_zero_batch env e a as' (suc fuel) = flush_zero_batch env (send_chunk env [] e) a as' fuel
