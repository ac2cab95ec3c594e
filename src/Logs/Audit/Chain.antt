-- ===== src/Logs/Audit/Chain.antt =====
-- The chain of hashes of the audit log of src/audit_log.cpp, over the calls that record events.
use mathlib.Core.List.{append-nil, append_assoc}
use bright_chain_cpp.Prelude.{
  ℕ, suc, ◌≡◌, refl, sym, ap, subst, ◌∙◌, String, true, Option, none, some, List, [], ◌∷◌, ◌++◌,
  replicate, if_true,
}
use bright_chain_cpp.Prelude.Map.{Map}
use bright_chain_cpp.Voting.Bytes.{Bytes}
use bright_chain_cpp.Logs.{Signer, arrays_equal, arrays_equal_refl, eq_of_arrays_equal}
use bright_chain_cpp.Logs.Audit.{
  AuditEventType, poll_created, vote_cast, poll_closed, AuditEntry, AuditLog, last_hash,
  serialize_for_hashing, compute_entry_hash, serialize_for_signing, verify_entry, follows,
  verify_from, verify_chain, append_entry, unsigned_entry, hashed, push_signed, record_poll_created,
  record_vote_cast, record_poll_closed,
}

module _ (signer : Signer) where
  -- What the member signs, it verifies.
  abbrev pub Verifies : Type 0
  Verifies = (data' s : Bytes) → signer.sign data' ≡ some s → signer.verify data' s ≡ true

  -- The entry holds its own hash and a signature that verifies.
  abbrev pub IsSound : AuditEntry → Type 0
  IsSound e = (compute_entry_hash signer e ≡ e.entry_hash) × (verify_entry signer e ≡ true)

  abbrev Matches : Option AuditEntry → Bytes → Type 0
  Matches none h = Unit
  Matches (some p) h = h ≡ p.entry_hash

  follows-Matches :
      (previous : Option AuditEntry) (e : AuditEntry)
      → Matches previous e.previous_hash
      → follows signer previous e ≡ true
  follows-Matches none e h = refl
  follows-Matches (some p) e h = rw h (arrays_equal_refl p.entry_hash)

  pub verify_from-cons :
      (previous : Option AuditEntry) (e : AuditEntry) (es : List AuditEntry)
      → IsSound e
      → follows signer previous e ≡ true
      → verify_from signer (some e) es ≡ true
      → verify_from signer previous (e ∷ es) ≡ true
  unfolding verify_from
  verify_from-cons previous e es (hash, signed) follow rest =
      rw (hash, arrays_equal_refl e.entry_hash, signed, follow) rest

  pub verify_from-parts :
      (previous : Option AuditEntry) (e : AuditEntry) (es : List AuditEntry)
      → verify_from signer previous (e ∷ es) ≡ true
      → IsSound e × (follows signer previous e ≡ true) × (verify_from signer (some e) es ≡ true)
  unfolding verify_from
  verify_from-parts previous e es h =
      let (hash, h1) = if_true (arrays_equal (compute_entry_hash signer e) e.entry_hash) _ h in
      let (signed, h2) = if_true (verify_entry signer e) _ h1 in
      let (follow, rest) = if_true (follows signer previous e) _ h2 in
      ((eq_of_arrays_equal (compute_entry_hash signer e) e.entry_hash hash, signed), follow, rest)

  -- An entry with the hash of the last one goes to the end.
  verify_from-append :
      (previous : Option AuditEntry) (h : Bytes) (es : List AuditEntry) (e : AuditEntry)
      → Matches previous h
      → e.previous_hash ≡ last_hash h es
      → IsSound e
      → verify_from signer previous es ≡ true
      → verify_from signer previous (es ++ e ∷ []) ≡ true
  unfolding last_hash verify_from
  verify_from-append previous h [] e start link sound ok =
      verify_from-cons previous e [] sound
        (follows-Matches previous e (subst (Matches previous) (sym link) start)) refl
  verify_from-append previous h (x ∷ es) e start link sound ok =
      let (x_sound, x_follows, rest) = verify_from-parts previous x es ok in
      verify_from-cons previous x (es ++ e ∷ []) x_sound x_follows
        (verify_from-append (some x) x.entry_hash es e refl link sound rest)

  -- Where signing fails nothing is added, and otherwise the entry that is returned.
  abbrev pub Extends : AuditLog → AuditLog → Type 0
  Extends log after =
      (verify_chain signer after ≡ true)
      × ((more : List AuditEntry) × (after.entries ≡ log.entries ++ more))

  push_signed-Extends :
      (e : AuditEntry) (log : AuditLog) (n : ℕ) (o : Option Bytes)
      → Verifies
      → e.previous_hash ≡ last_hash (replicate 32 0) log.entries
      → compute_entry_hash signer e ≡ e.entry_hash
      → signer.sign (serialize_for_signing signer e) ≡ o
      → verify_chain signer log ≡ true
      → Extends log (push_signed signer e (record log { sequence = n }) o).0
  unfolding verify_chain compute_entry_hash serialize_for_hashing verify_entry serialize_for_signing
  push_signed-Extends e log n none verifies link hash signed ok =
      (ok, ([], sym (append-nil log.entries)))
  push_signed-Extends e log n (some s) verifies link hash signed ok =
      let e' = record e { signature = s } in
      (
        verify_from-append none (replicate 32 0) log.entries e' tt link (hash, verifies _ s signed)
            ok,
        (e' ∷ [], refl),
      )

  append_entry-Extends :
      (type : AuditEventType) (id : Bytes) (voter authority : Option Bytes) (metadata : Map String)
      (now : ℕ) (log : AuditLog)
      → Verifies
      → verify_chain signer log ≡ true
      → Extends log (append_entry signer type id voter authority metadata now log).0
  unfolding append_entry compute_entry_hash serialize_for_hashing last_hash
  append_entry-Extends type id voter authority metadata now log verifies ok =
      push_signed-Extends
        (hashed signer (unsigned_entry signer type id voter authority metadata now log)) log
        (suc log.sequence) _ verifies refl refl refl ok

  -- The calls that record an event.
  pub data Call : Type 0 where
    created closed : Bytes → Map String → ℕ → Call
    cast : Bytes → Bytes → ℕ → Call

  abbrev pub step : Call → AuditLog → AuditLog
  step (created id metadata now) log = (record_poll_created signer id metadata now log).0
  step (closed id metadata now) log = (record_poll_closed signer id metadata now log).0
  step (cast id voter now) log = (record_vote_cast signer id voter now log).0

  abbrev pub run : List Call → AuditLog → AuditLog
  run [] log = log
  run (c ∷ cs) log = run cs (step c log)

  step-Extends :
      (c : Call) (log : AuditLog)
      → Verifies
      → verify_chain signer log ≡ true
      → Extends log (step c log)
  unfolding record_poll_created record_poll_closed record_vote_cast
  step-Extends (created id metadata now) log =
      append_entry-Extends poll_created id none (some signer.id) metadata now log
  step-Extends (closed id metadata now) log =
      append_entry-Extends poll_closed id none (some signer.id) metadata now log
  step-Extends (cast id voter now) log =
      append_entry-Extends vote_cast id (some voter) none [] now log

  Extends-compose : (a b c : AuditLog) → Extends a b → Extends b c → Extends a c
  Extends-compose a b c (_, (more, e)) (ok, (later, f)) =
      (ok, (more ++ later, f ∙ ap (λ l. l ++ later) e ∙ append_assoc a.entries more later))

  -- Where the member verifies what it signs, whatever events are recorded: a log whose chain verifies
  -- keeps its entries, gets new ones only at the end, and its chain verifies afterwards.
  pub run-Extends :
      (cs : List Call) (log : AuditLog)
      → Verifies
      → verify_chain signer log ≡ true
      → Extends log (run cs log)
  run-Extends [] log verifies ok = (ok, ([], sym (append-nil log.entries)))
  run-Extends (c ∷ cs) log verifies ok =
      let here = step-Extends c log verifies ok in
      Extends-compose log (step c log) (run cs (step c log)) here
        (run-Extends cs (step c log) verifies here.0)
