-- ===== src/Logs/Board/Published.antt =====
-- What publishing on the bulletin board of src/bulletin_board.cpp keeps.
use mathlib.Core.List.{append-nil, append_assoc}
use bright_chain_cpp.Prelude.{
  ℕ, suc, ◌%◌, ◌^◌, ◌≡◌, refl, sym, ap, ◌∙◌, String, true, Option, none, some, List, [], ◌∷◌, ◌++◌,
  if_true,
}
use bright_chain_cpp.Voting.Bytes.{Bytes}
use bright_chain_cpp.Logs.{Signer, arrays_equal_refl}
use bright_chain_cpp.Logs.Audit.Chain.{Verifies}
use bright_chain_cpp.Prelude.Text.{put_ordered}
use bright_chain_cpp.Voting.Poll.{to_key}
use bright_chain_cpp.Logs.Board.Merkle.{compute_root-IsDefined}
use bright_chain_cpp.Logs.Board.{
  BulletinBoardEntry, TallyProof, BulletinBoard, compute_root, verify_entry, verify_roots,
  verify_merkle_tree, is_root, hashed_vote, hash_of, add_signed, add_vote, publish_vote,
  publish_tally, store_proof, unsigned_proof, serialize_entry_data,
}

module _ (signer : Signer) where
  abbrev pub AllVerify : List BulletinBoardEntry → Type 0
  AllVerify [] = Unit
  AllVerify (e ∷ es) = (verify_entry signer e ≡ true) × AllVerify es

  -- Every entry verifies, and so do the Merkle roots.
  abbrev pub IsValid : BulletinBoard → Type 0
  IsValid b = AllVerify b.entries × (verify_merkle_tree signer b ≡ true)

  AllVerify-append :
      (es : List BulletinBoardEntry) (e : BulletinBoardEntry)
      → AllVerify es
      → verify_entry signer e ≡ true
      → AllVerify (es ++ e ∷ [])
  AllVerify-append [] e ok new = (new, tt)
  AllVerify-append (x ∷ es) e (here, rest) new = (here, AllVerify-append es e rest new)

  verify_roots-append :
      (before es : List BulletinBoardEntry) (e : BulletinBoardEntry)
      → verify_roots signer before es ≡ true
      → compute_root signer (before ++ es) ≡ some e.merkle_root
      → verify_roots signer before (es ++ e ∷ []) ≡ true
  unfolding verify_roots
  verify_roots-append before [] e ok root =
      let here = ap (compute_root signer) (sym (append-nil before)) ∙ root in
      rw (here, arrays_equal_refl e.merkle_root) refl
  verify_roots-append before (x ∷ es) e ok root =
      let (here, rest) = if_true (is_root signer (compute_root signer before) x.merkle_root) _ ok in
      rw here (
        verify_roots-append (before ++ x ∷ []) es e rest
          (ap (compute_root signer) (append_assoc before (x ∷ []) es) ∙ root))

  -- The board after a publication, or as it was after an exception.
  abbrev pub or_same {ℓ} : {A : Type ℓ} → BulletinBoard → Option (BulletinBoard × A) → BulletinBoard
  or_same b none = b
  or_same b (some (after, a)) = after

  -- The entries of before are still there, in front of the new ones.
  abbrev pub Keeps : BulletinBoard → BulletinBoard → Type 0
  Keeps b after =
      IsValid after × ((more : List BulletinBoardEntry) × (after.entries ≡ b.entries ++ more))

  verify_entry-signed :
      (e : BulletinBoardEntry)
      → hash_of signer e ≡ e.entry_hash
      → signer.verify e.entry_hash e.signature ≡ true
      → verify_entry signer e ≡ true
  unfolding verify_entry
  verify_entry-signed e hash verified = rw (hash, arrays_equal_refl e.entry_hash) verified

  add_signed-Keeps :
      (e : BulletinBoardEntry) (b : BulletinBoard) (o : Option Bytes)
      → Verifies signer
      → hash_of signer e ≡ e.entry_hash
      → compute_root signer b.entries ≡ some e.merkle_root
      → signer.sign e.entry_hash ≡ o
      → IsValid b
      → Keeps b (or_same b (add_signed signer e b o))
  unfolding verify_merkle_tree serialize_entry_data
  add_signed-Keeps e b none verifies hash root signed ok = (ok, ([], sym (append-nil b.entries)))
  add_signed-Keeps e b (some s) verifies hash root signed (all, tree) =
      let e' = record e { signature = s } in
      (
        (
          AllVerify-append b.entries e' all (verify_entry-signed e' hash (verifies _ s signed)),
          verify_roots-append [] b.entries e' tree root,
        ),
        (e' ∷ [], refl),
      )

  add_vote-Keeps :
      (id : Bytes) (vote : List Bytes) (voter : Bytes) (now : ℕ) (b : BulletinBoard)
      (o : Option Bytes)
      → Verifies signer
      → compute_root signer b.entries ≡ o
      → IsValid b
      → Keeps b (or_same b (add_vote signer id vote voter now b o))
  unfolding serialize_entry_data
  add_vote-Keeps id vote voter now b none verifies root ok = (ok, ([], sym (append-nil b.entries)))
  add_vote-Keeps id vote voter now b (some r) verifies root ok =
      add_signed-Keeps (hashed_vote signer id vote voter now b.sequence r) b _ verifies refl root
        refl ok

  store_proof-Keeps :
      (p : TallyProof) (b : BulletinBoard) (o : Option Bytes)
      → IsValid b
      → Keeps b (or_same b (store_proof signer p b o))
  unfolding put_ordered to_key verify_merkle_tree
  store_proof-Keeps p b none ok = (ok, ([], sym (append-nil b.entries)))
  store_proof-Keeps p b (some s) ok = (ok, ([], sym (append-nil b.entries)))

  -- The calls that publish.
  pub data Publication : Type 0 where
    a_vote : Bytes → List Bytes → Bytes → ℕ → Publication
    a_tally : Bytes → List Bytes → List String → List (List Bytes) → ℕ → Publication

  abbrev pub publish : Publication → BulletinBoard → BulletinBoard
  publish (a_vote id vote voter now) b = or_same b (publish_vote signer id vote voter now b)
  publish (a_tally id tallies choices votes now) b =
      or_same b (publish_tally signer id tallies choices votes now b)

  abbrev pub publish_all : List Publication → BulletinBoard → BulletinBoard
  publish_all [] b = b
  publish_all (p ∷ ps) b = publish_all ps (publish p b)

  publish-Keeps :
      (p : Publication) (b : BulletinBoard) → Verifies signer → IsValid b → Keeps b (publish p b)
  unfolding publish_vote publish_tally
  publish-Keeps (a_vote id vote voter now) b verifies ok =
      add_vote-Keeps id vote voter now b (compute_root signer b.entries) verifies refl ok
  publish-Keeps (a_tally id tallies choices votes now) b verifies ok =
      store_proof-Keeps (unsigned_proof signer id tallies choices votes now) b _ ok

  -- Where the authority verifies what it signs, whatever is published: a board whose entries and
  -- Merkle roots verify keeps its entries, gets new ones only at the end, and verifies afterwards.
  pub publish_all-Keeps :
      (ps : List Publication) (b : BulletinBoard)
      → Verifies signer
      → IsValid b
      → Keeps b (publish_all ps b)
  publish_all-Keeps [] b verifies ok = (ok, ([], sym (append-nil b.entries)))
  publish_all-Keeps (p ∷ ps) b verifies ok =
      let (here, (more, e)) = publish-Keeps p b verifies ok in
      let (rest, (later, f)) = publish_all-Keeps ps (publish p b) verifies here in
      (rest, (more ++ later, f ∙ ap (λ es. es ++ later) e ∙ append_assoc b.entries more later))

  -- Where signing succeeds, a vote is published: it is the last entry of the board, with the number
  -- of the board and the Merkle root of the entries before it.
  pub publish_vote-Returns :
      (id : Bytes) (vote : List Bytes) (voter : Bytes) (now : ℕ) (b : BulletinBoard)
      → ((data' : Bytes) → (s : Bytes) × (signer.sign data' ≡ some s))
      → (after : BulletinBoard) × (e : BulletinBoardEntry) × (publish_vote signer id vote voter now
            b
          ≡ some (after, e))
        × (after.entries ≡ b.entries ++ e ∷ [])
        × (e.sequence ≡ b.sequence)
        × (e.encrypted_vote ≡ vote)
        × (compute_root signer b.entries ≡ some e.merkle_root)
  unfolding publish_vote serialize_entry_data
  publish_vote-Returns id vote voter now b signs =
      let (r, root) = compute_root-IsDefined signer b.entries in
      let e = hashed_vote signer id vote voter now b.sequence r in
      let (s, signed) = signs e.entry_hash in
      let e' = record e { signature = s } in
      (
        record b { entries = b.entries ++ e' ∷ []; sequence = suc b.sequence % 2 ^ 64 },
        e',
        rw (root, signed) refl,
        refl,
        refl,
        refl,
        root,
      )
