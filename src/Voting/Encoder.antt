-- ===== src/Voting/Encoder.antt =====
-- `VoteEncoder` of src/vote_encoder.cpp. Its `intToBytes` is that of src/poll_tallier.cpp.
pub mod Counting
use bright_chain_cpp.Prelude.{
  ℕ, zero, suc, ◌+◌, ◌-◌, Bool, true, false, ◌||◌, ◌==◌, ltb, Option, none, some, List, [], ◌∷◌,
  length, set, if◌then◌else◌,
}
use bright_chain_cpp.Prelude.Int.{ℤ, pos, negsuc}
use bright_chain_cpp.Voting.Bytes.{Bytes, int_to_bytes}
use bright_chain_cpp.Voting.Method.{
  VotingMethod, plurality, approval, weighted, borda, ranked_choice, quadratic, consensus,
  consent_based,
}
use bright_chain_cpp.Voting.Ballot.{EncryptedVote, eq_int, seen_before}

-- The encryption of the `k`-th text that a vote has encrypted: it draws fresh randomness each time.
abbrev pub Encrypt : Type 0
Encrypt = ℕ → Bytes → Bytes

abbrev pub new_vote : EncryptedVote
new_vote = record {
  choice_index = none;
  choices = none;
  rankings = none;
  weight = none;
  score = none;
  encrypted = [];
}

-- One ciphertext for each of `n` choices, from `i` on.
unfoldable pub encrypt_each : Encrypt → (ℕ → Bytes) → ℕ → ℕ → List Bytes
encrypt_each encrypt plaintext i zero = []
encrypt_each encrypt plaintext i (suc n) =
    encrypt i (plaintext i) ∷ encrypt_each encrypt plaintext (suc i) n

unfoldable pub encode_plurality : Encrypt → ℤ → ℕ → EncryptedVote
unfolding encrypt_each int_to_bytes
encode_plurality encrypt choice_index choice_count = record new_vote {
  choice_index = some choice_index;
  encrypted =
      encrypt_each encrypt
        (λ i. int_to_bytes (if eq_int (pos i) choice_index then pos 1 else pos 0)) 0 choice_count;
}

unfoldable pub encode_approval : Encrypt → List ℤ → ℕ → EncryptedVote
unfolding encrypt_each int_to_bytes
encode_approval encrypt choices choice_count = record new_vote {
  choices = some choices;
  encrypted =
      encrypt_each encrypt
        (λ i. int_to_bytes (if seen_before (pos i) choices then pos 1 else pos 0)) 0 choice_count;
}

unfoldable pub encode_weighted : Encrypt → ℤ → Bytes → ℕ → EncryptedVote
unfolding encrypt_each int_to_bytes
encode_weighted encrypt choice_index weight choice_count = record new_vote {
  choice_index = some choice_index;
  weight = some weight;
  encrypted =
      encrypt_each encrypt
        (λ i. if eq_int (pos i) choice_index then weight else int_to_bytes (pos 0)) 0 choice_count;
}

-- The loop over a ranking, from `rank` on: `encrypted[rankings[rank]] = encrypt(value)`. `none` stands
-- for a write out of range.
unfoldable pub encrypt_ranks : Encrypt → (ℕ → ℕ) → ℕ → List ℤ → List Bytes → Option (List Bytes)
unfolding int_to_bytes
encrypt_ranks encrypt value rank [] encrypted = some encrypted
encrypt_ranks encrypt value rank (negsuc c ∷ rankings) encrypted = none
encrypt_ranks encrypt value rank (pos c ∷ rankings) encrypted =
    let rest =
      encrypt_ranks encrypt value (suc rank) rankings
        (set encrypted c (encrypt (length encrypted + rank) (int_to_bytes (pos (value rank))))) in
    if ltb c (length encrypted) then rest else none

abbrev pub ranked_vote : List ℤ → Option (List Bytes) → Option EncryptedVote
ranked_vote rankings none = none
ranked_vote rankings (some encrypted) =
    some (record new_vote { rankings = some rankings; encrypted = encrypted })

-- The first of `n` ranked choices gets `n` points, the last one point.
unfoldable pub encode_borda : Encrypt → List ℤ → ℕ → Option EncryptedVote
unfolding encrypt_each encrypt_ranks int_to_bytes
encode_borda encrypt rankings choice_count = ranked_vote rankings (
    encrypt_ranks encrypt (λ rank. length rankings - rank) 0 rankings
      (encrypt_each encrypt (λ i. int_to_bytes (pos 0)) 0 choice_count))

-- The positions are counted from 1.
unfoldable pub encode_ranked_choice : Encrypt → List ℤ → ℕ → Option EncryptedVote
unfolding encrypt_each encrypt_ranks int_to_bytes
encode_ranked_choice encrypt rankings choice_count = ranked_vote rankings (
    encrypt_ranks encrypt (λ rank. suc rank) 0 rankings
      (encrypt_each encrypt (λ i. int_to_bytes (pos 0)) 0 choice_count))

-- How `encode` ends: a vote, an exception, or a write out of range.
pub data Encoded : Type 0 where
  encoded : EncryptedVote → Encoded
  invalid_argument : Encoded
  out_of_range : Encoded

abbrev pub encoded_or : Option EncryptedVote → Encoded
encoded_or none = out_of_range
encoded_or (some v) = encoded v

abbrev pub with_choice : Option ℤ → (ℤ → EncryptedVote) → Encoded
with_choice none f = invalid_argument
with_choice (some c) f = encoded (f c)

abbrev pub with_choice_and_weight : Option ℤ → Option Bytes → (ℤ → Bytes → EncryptedVote) → Encoded
with_choice_and_weight (some c) (some w) f = encoded (f c w)
with_choice_and_weight _ _ f = invalid_argument

abbrev pub with_rankings : Option (List ℤ) → (List ℤ → Option EncryptedVote) → Encoded
with_rankings none f = invalid_argument
with_rankings (some rs) f = encoded_or (f rs)

abbrev pub with_choices : Option (List ℤ) → (List ℤ → EncryptedVote) → Encoded
with_choices none f = invalid_argument
with_choices (some cs) f = encoded (f cs)

-- A weight that is not given is 1.
abbrev pub weight_or_one : Option Bytes → Bytes
unfolding int_to_bytes
weight_or_one none = int_to_bytes (pos 1)
weight_or_one (some w) = w

unfoldable pub encode :
    Encrypt
    → VotingMethod
    → Option ℤ
    → Option (List ℤ)
    → Option (List ℤ)
    → Option Bytes
    → ℕ
    → Encoded
unfolding encode_plurality encode_approval encode_weighted encode_borda encode_ranked_choice
    weight_or_one
encode encrypt plurality choice choices rankings weight n =
    with_choice choice (λ c. encode_plurality encrypt c n)
encode encrypt approval choice choices rankings weight n =
    with_choices choices (λ cs. encode_approval encrypt cs n)
encode encrypt weighted choice choices rankings weight n =
    with_choice_and_weight choice weight (λ c w. encode_weighted encrypt c w n)
encode encrypt borda choice choices rankings weight n =
    with_rankings rankings (λ rs. encode_borda encrypt rs n)
encode encrypt ranked_choice choice choices rankings weight n =
    with_rankings rankings (λ rs. encode_ranked_choice encrypt rs n)
encode encrypt quadratic choice choices rankings weight n =
    with_choice_and_weight choice weight (λ c w. encode_weighted encrypt c w n)
encode encrypt consensus choice choices rankings weight n =
    with_choice choice (λ c. encode_plurality encrypt c n)
encode encrypt consent_based choice choices rankings weight n =
    with_choice choice (λ c. encode_weighted encrypt c (weight_or_one weight) n)
encode encrypt _ choice choices rankings weight n = invalid_argument
