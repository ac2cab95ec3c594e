-- ===== src/Voting/Tally.antt =====
-- The tallies of one round of src/poll_tallier.cpp: `tallyAdditive` (which `tallyScored` and
-- `tallyYesNo` call), `tallyQuadratic`, `tallyConsensus` and `tallyConsentBased`, and the results of
-- include/brightchain/poll_types.hpp.
pub mod Rows
pub mod Counts
pub mod Totals
pub mod Winners
pub mod Results
pub mod Consent
use bright_chain_cpp.Prelude.{
  ℕ, zero, suc, ◌+◌, ◌*◌, ◌/◌, String, Bool, not, ◌&&◌, Option, none, some, List, [], ◌∷◌, map,
  length, get_or, replicate, if◌then◌else◌,
}
use bright_chain_cpp.Prelude.Int.{ℤ, pos, negsuc, ◌*ℤ◌, ltb_ℤ}
use bright_chain_cpp.Prelude.Map.{Map}
use bright_chain_cpp.Voting.Bytes.{
  Bytes, bytes_to_int, int_to_bytes, of_pattern, pattern_of, add_bigint_bytes, compare_bigint_bytes,
}
use bright_chain_cpp.Voting.Method.{VotingMethod, quadratic, consensus, consent_based}
use bright_chain_cpp.Voting.Poll.{Poll}

pub record RoundResult : Type 0 where
  pub round : ℕ
  pub tallies : List Bytes
  pub eliminated : Option ℕ
  pub winner : Option ℤ

pub record PollResults : Type 0 where
  pub method : VotingMethod
  pub choices : List String
  pub winner : Option ℤ
  pub winners : Option (List ℕ)
  pub eliminated : Option (List ℕ)
  pub rounds : Option (List RoundResult)
  pub tallies : List Bytes
  pub voter_count : ℕ

-- The ballots of a poll in the order of its map; decryption is a function on byte texts.
abbrev pub Ballots : Type 0
Ballots = List (List Bytes)

abbrev pub ballots_of : Map (List Bytes) → Ballots
ballots_of m = map (λ e. e.1) m

unfoldable pub zero_tallies : ℕ → List Bytes
unfolding int_to_bytes
zero_tallies n = replicate n (int_to_bytes (pos 0))

abbrev pub cons_tally : Bytes → Option (List Bytes) → Option (List Bytes)
cons_tally t none = none
cons_tally t (some ts) = some (t ∷ ts)

-- One ballot: `tallies[i] = add(tallies[i], encrypted[i])` for every choice, with `none` for a read
-- past the end of `encrypted`.
unfoldable pub add_ballot : (Bytes → Bytes → Bytes) → List Bytes → List Bytes → Option (List Bytes)
add_ballot add [] encrypted = some []
add_ballot add (t ∷ ts) [] = none
add_ballot add (t ∷ ts) (c ∷ encrypted) = cons_tally (add t c) (add_ballot add ts encrypted)

-- All ballots, one after the other.
unfoldable pub add_ballots :
    (Bytes → Bytes → Bytes) → Ballots → Option (List Bytes) → Option (List Bytes)
unfolding add_ballot
add_ballots add [] tallies = tallies
add_ballots add (b ∷ bs) none = none
add_ballots add (b ∷ bs) (some tallies) = add_ballots add bs (add_ballot add tallies b)

unfoldable pub add_decrypted : (Bytes → Bytes) → Bytes → Bytes → Bytes
unfolding add_bigint_bytes
add_decrypted decrypt t c = add_bigint_bytes t (decrypt c)

unfoldable pub additive_tallies : (Bytes → Bytes) → Ballots → ℕ → Option (List Bytes)
unfolding zero_tallies add_ballots add_decrypted
additive_tallies decrypt ballots choice_count =
    add_ballots (add_decrypted decrypt) ballots (some (zero_tallies choice_count))

-- The running maximum over the tallies.
unfoldable pub max_tally : Bytes → List Bytes → Bytes
unfolding compare_bigint_bytes
max_tally m [] = m
max_tally m (t ∷ ts) = max_tally (if compare_bigint_bytes m t then t else m) ts

-- The positions, from `i` on, of the tallies that equal the maximum.
unfoldable pub positions_of : Bytes → ℕ → List Bytes → List ℕ
unfolding compare_bigint_bytes
positions_of m i [] = []
positions_of m i (t ∷ ts) =
    let rest = positions_of m (suc i) ts in
    if not (compare_bigint_bytes t m) && not (compare_bigint_bytes m t) then i ∷ rest else rest

unfoldable pub find_winners : List Bytes → List ℕ
unfolding max_tally positions_of
find_winners tallies = positions_of (max_tally (get_or tallies 0 []) tallies) 0 tallies

abbrev pub single_winner : List ℕ → Option ℤ
single_winner (i ∷ []) = some (pos i)
single_winner _ = none

abbrev pub tied_winners : List ℕ → Option (List ℕ)
tied_winners (i ∷ j ∷ is') = some (i ∷ j ∷ is')
tied_winners _ = none

abbrev pub results_of : Poll → VotingMethod → List Bytes → List ℕ → PollResults
results_of poll method tallies winners = record {
  method = method;
  choices = poll.choices;
  winner = single_winner winners;
  winners = tied_winners winners;
  eliminated = none;
  rounds = none;
  tallies = tallies;
  voter_count = length poll.receipts;
}

abbrev pub results_with :
    Poll → VotingMethod → (List Bytes → List ℕ) → Option (List Bytes) → Option PollResults
results_with poll method winners none = none
results_with poll method winners (some tallies) =
    some (results_of poll method tallies (winners tallies))

unfoldable pub tally_additive : (Bytes → Bytes) → Poll → Option PollResults
unfolding additive_tallies find_winners
tally_additive decrypt poll =
    results_with poll poll.method find_winners
      (additive_tallies decrypt (ballots_of poll.votes) (length poll.choices))

-- `weight * weight` in an `int64_t`, which wraps.
unfoldable pub mul_int64 : ℤ → ℤ → ℤ
unfolding ◌*ℤ◌
mul_int64 a b = of_pattern (pattern_of (a *ℤ b))

unfoldable pub add_squared : (Bytes → Bytes) → Bytes → Bytes → Bytes
unfolding add_bigint_bytes int_to_bytes bytes_to_int mul_int64
add_squared decrypt t c =
    let weight = bytes_to_int (decrypt c) in
    add_bigint_bytes t (int_to_bytes (mul_int64 weight weight))

unfoldable pub tally_quadratic : (Bytes → Bytes) → Poll → Option PollResults
unfolding add_ballots zero_tallies add_squared find_winners
tally_quadratic decrypt poll = results_with poll quadratic find_winners (
    add_ballots (add_squared decrypt) (ballots_of poll.votes)
      (some (zero_tallies (length poll.choices))))

-- The positions, from `i` on, of the tallies that reach a threshold.
unfoldable pub reaching : ℤ → ℕ → List Bytes → List ℕ
unfolding bytes_to_int
reaching threshold i [] = []
reaching threshold i (t ∷ ts) =
    let rest = reaching threshold (suc i) ts in
    if ltb_ℤ (bytes_to_int t) threshold then rest else i ∷ rest

-- `((totalVoters * 95) + 99) / 100`
abbrev pub consensus_threshold : ℕ → ℕ
consensus_threshold voters = (voters * 95 + 99) / 100

unfoldable pub tally_consensus : (Bytes → Bytes) → Poll → Option PollResults
unfolding additive_tallies reaching
tally_consensus decrypt poll =
    results_with poll consensus (reaching (pos (consensus_threshold (length poll.votes))) 0)
      (additive_tallies decrypt (ballots_of poll.votes) (length poll.choices))

unfoldable pub add_support : (Bytes → Bytes) → Bytes → Bytes → Bytes
unfolding add_bigint_bytes int_to_bytes bytes_to_int
add_support decrypt t c =
    if ltb_ℤ (pos 0) (bytes_to_int (decrypt c))
    then add_bigint_bytes t (int_to_bytes (pos 1))
    else t

unfoldable pub add_objection : (Bytes → Bytes) → Bytes → Bytes → Bytes
unfolding add_bigint_bytes int_to_bytes bytes_to_int
add_objection decrypt t c =
    if ltb_ℤ (bytes_to_int (decrypt c)) (pos 0)
    then add_bigint_bytes t (int_to_bytes (pos 1))
    else t

-- The positions, from `i` on, of the counts that are zero.
unfoldable pub unopposed : ℕ → List Bytes → List ℕ
unfolding bytes_to_int
unopposed i [] = []
unopposed i (t ∷ ts) =
    let rest = unopposed (suc i) ts in
    if not (ltb_ℤ (bytes_to_int t) (pos 0)) && not (ltb_ℤ (pos 0) (bytes_to_int t))
    then i ∷ rest
    else rest

-- The loop fills both lists; each is here a loop of its own.
abbrev pub consent_results : Poll → Option (List Bytes) → Option (List Bytes) → Option PollResults
unfolding unopposed
consent_results poll (some objections) tallies =
    results_with poll consent_based (λ _. unopposed 0 objections) tallies
consent_results poll none tallies = none

unfoldable pub tally_consent_based : (Bytes → Bytes) → Poll → Option PollResults
unfolding add_ballots zero_tallies add_support add_objection unopposed
tally_consent_based decrypt poll =
    let ballots = ballots_of poll.votes in
    let start = some (zero_tallies (length poll.choices)) in
    consent_results poll (add_ballots (add_objection decrypt) ballots start)
      (add_ballots (add_support decrypt) ballots start)
