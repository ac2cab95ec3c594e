-- ===== src/Logs/Board.antt =====
-- `BulletinBoard` of src/bulletin_board.cpp: the published votes, each with the Merkle root of those
-- before it, and the published tallies.
pub mod Merkle
pub mod Published
use mathlib.Core.Option
use bright_chain_cpp.Prelude.{
  ℕ, zero, suc, ◌%◌, ◌^◌, String, Bool, true, false, ◌&&◌, Option, none, some, List, [], ◌∷◌, ◌++◌,
  map, length, replicate, str_eq, if◌then◌else◌,
}
use bright_chain_cpp.Prelude.Map.{Map, find}
use bright_chain_cpp.Prelude.Text.{put_ordered}
use bright_chain_cpp.Gossip.Handle.{codes}
use bright_chain_cpp.Voting.Bytes.{Bytes}
use bright_chain_cpp.Voting.Poll.{to_key}
use bright_chain_cpp.Logs.{Signer, arrays_equal, concat, encode_number}

pub record BulletinBoardEntry : Type 0 where
  pub sequence : ℕ
  pub timestamp : ℕ
  pub poll_id : Bytes
  pub encrypted_vote : List Bytes
  pub voter_id_hash : Bytes
  pub merkle_root : Bytes
  pub entry_hash : Bytes
  pub signature : Bytes

pub record TallyProof : Type 0 where
  pub poll_id : Bytes
  pub tallies : List Bytes
  pub choices : List String
  pub timestamp : ℕ
  pub votes_hash : Bytes
  pub decryption_proof : Bytes
  pub signature : Bytes

pub record BulletinBoard : Type 0 where
  pub entries : List BulletinBoardEntry
  pub tally_proofs : Map TallyProof
  pub sequence : ℕ

abbrev pub new_board : BulletinBoard
new_board = record { entries = []; tally_proofs = []; sequence = 0 }

-- `getEntries`, `getTallyProof`
unfoldable pub entries_with_key : String → List BulletinBoardEntry → List BulletinBoardEntry
unfolding to_key
entries_with_key key [] = []
entries_with_key key (e ∷ es) =
    let rest = entries_with_key key es in if str_eq (to_key e.poll_id) key then e ∷ rest else rest

unfoldable pub get_entries : Bytes → BulletinBoard → List BulletinBoardEntry
unfolding entries_with_key to_key
get_entries id b = entries_with_key (to_key id) b.entries

unfoldable pub get_tally_proof : Bytes → BulletinBoard → Option TallyProof
unfolding find to_key
get_tally_proof id b = find (to_key id) b.tally_proofs

unfoldable pub serialize_entry_data : BulletinBoardEntry → Bytes
serialize_entry_data e = concat (
    encode_number e.sequence
    ∷ encode_number e.timestamp
    ∷ e.poll_id
    ∷ e.voter_id_hash
    ∷ e.merkle_root
    ∷ e.encrypted_vote)

unfoldable pub serialize_tally_proof : TallyProof → Bytes
serialize_tally_proof p = concat (
    p.poll_id
    ∷ encode_number p.timestamp
    ∷ p.votes_hash
    ∷ p.decryption_proof
    ∷ (p.tallies ++ map codes p.choices))

-- `exportBoard`: the hashes of the entries and the signatures of the proofs, with their numbers.
unfoldable pub export_board : BulletinBoard → Bytes
export_board b = concat (
    encode_number (length b.entries)
    ∷ (map (λ e. e.entry_hash) b.entries
        ++ (encode_number (length b.tally_proofs) ∷ map (λ p. p.1.signature) b.tally_proofs)))

abbrev pub all_values : List (List Bytes) → List Bytes
all_values [] = []
all_values (v ∷ vs) = v ++ all_values vs

module _ (signer : Signer) where
  -- One level of the tree from the one below; a hash without a neighbour goes up as it is.
  unfoldable pub pair_up : List Bytes → List Bytes
  pair_up [] = []
  pair_up (a ∷ []) = a ∷ []
  pair_up (a ∷ b ∷ hs) = signer.sha256 (concat (a ∷ b ∷ [])) ∷ pair_up hs

  -- The loop over the levels, with `none` where the fuel ends before it.
  unfoldable pub merkle : ℕ → List Bytes → Option Bytes
  unfolding pair_up
  merkle n [] = none
  merkle n (h ∷ []) = some h
  merkle zero (a ∷ b ∷ hs) = none
  merkle (suc n) (a ∷ b ∷ hs) = merkle n (pair_up (a ∷ b ∷ hs))

  abbrev pub root_of : List Bytes → Option Bytes
  unfolding merkle
  root_of [] = some (replicate 32 0)
  root_of (h ∷ hs) = merkle (length hs) (h ∷ hs)

  -- `computeMerkleRootInternal`
  unfoldable pub compute_root : List BulletinBoardEntry → Option Bytes
  unfolding root_of
  compute_root es = root_of (map (λ e. e.entry_hash) es)

  abbrev pub hex_root : List BulletinBoardEntry → Option String
  unfolding compute_root to_key
  hex_root [] = some (to_key (replicate 32 0))
  hex_root (e ∷ es) = Option.map to_key (compute_root (e ∷ es))

  unfoldable pub compute_merkle_root : BulletinBoard → Option String
  unfolding hex_root
  compute_merkle_root b = hex_root b.entries

  abbrev pub hash_of : BulletinBoardEntry → Bytes
  unfolding serialize_entry_data
  hash_of e = signer.sha256 (serialize_entry_data e)

  unfoldable pub verify_entry : BulletinBoardEntry → Bool
  unfolding hash_of
  verify_entry e =
      if arrays_equal (hash_of e) e.entry_hash
      then signer.verify e.entry_hash e.signature
      else false

  unfoldable pub verify_tally_proof : TallyProof → Bool
  unfolding serialize_tally_proof
  verify_tally_proof p = signer.verify (serialize_tally_proof p) p.signature

  abbrev pub is_root : Option Bytes → Bytes → Bool
  is_root none root = false
  is_root (some r) root = arrays_equal root r

  -- The loop of `verifyMerkleTree`, after the entries `before`.
  unfoldable pub verify_roots : List BulletinBoardEntry → List BulletinBoardEntry → Bool
  unfolding compute_root
  verify_roots before [] = true
  verify_roots before (e ∷ es) =
      let rest = verify_roots (before ++ (e ∷ [])) es in
      if is_root (compute_root before) e.merkle_root then rest else false

  unfoldable pub verify_merkle_tree : BulletinBoard → Bool
  unfolding verify_roots
  verify_merkle_tree b = verify_roots [] b.entries

  abbrev pub hashed_vote : Bytes → List Bytes → Bytes → ℕ → ℕ → Bytes → BulletinBoardEntry
  unfolding hash_of
  hashed_vote id vote voter now sequence root =
      let e : BulletinBoardEntry = record {
        sequence = sequence;
        timestamp = now;
        poll_id = id;
        encrypted_vote = vote;
        voter_id_hash = voter;
        merkle_root = root;
        entry_hash = [];
        signature = [];
      } in
      record e { entry_hash = hash_of e }

  abbrev pub add_signed :
      BulletinBoardEntry
      → BulletinBoard
      → Option Bytes
      → Option (BulletinBoard × BulletinBoardEntry)
  add_signed e b none = none
  add_signed e b (some s) =
      let signed = record e { signature = s } in
      some (
        record b { entries = b.entries ++ (signed ∷ []); sequence = suc b.sequence % 2 ^ 64 },
        signed,
      )

  abbrev pub add_vote :
      Bytes
      → List Bytes
      → Bytes
      → ℕ
      → BulletinBoard
      → Option Bytes
      → Option (BulletinBoard × BulletinBoardEntry)
  unfolding hashed_vote
  add_vote id vote voter now b none = none
  add_vote id vote voter now b (some root) =
      let e = hashed_vote id vote voter now b.sequence root in
      add_signed e b (signer.sign e.entry_hash)

  -- `publishVote`, with `none` for an exception, which leaves the board as it was.
  unfoldable pub publish_vote :
      Bytes → List Bytes → Bytes → ℕ → BulletinBoard → Option (BulletinBoard × BulletinBoardEntry)
  unfolding compute_root add_vote
  publish_vote id vote voter now b = add_vote id vote voter now b (compute_root b.entries)

  abbrev pub unsigned_proof : Bytes → List Bytes → List String → List (List Bytes) → ℕ → TallyProof
  unsigned_proof id tallies choices votes now = record {
    poll_id = id;
    tallies = tallies;
    choices = choices;
    timestamp = now;
    votes_hash = signer.sha256 (concat (all_values votes));
    decryption_proof = signer.sha256 (concat (all_values votes ++ tallies));
    signature = [];
  }

  abbrev pub store_proof :
      TallyProof → BulletinBoard → Option Bytes → Option (BulletinBoard × TallyProof)
  unfolding put_ordered to_key
  store_proof p b none = none
  store_proof p b (some s) =
      let signed = record p { signature = s } in
      some
        (record b { tally_proofs = put_ordered (to_key p.poll_id) signed b.tally_proofs }, signed)

  unfoldable pub publish_tally :
      Bytes
      → List Bytes
      → List String
      → List (List Bytes)
      → ℕ
      → BulletinBoard
      → Option (BulletinBoard × TallyProof)
  unfolding serialize_tally_proof store_proof
  publish_tally id tallies choices votes now b =
      let p = unsigned_proof id tallies choices votes now in
      store_proof p b (signer.sign (serialize_tally_proof p))
