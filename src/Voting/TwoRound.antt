-- ===== src/Voting/TwoRound.antt =====
-- `tallyTwoRound` and `tallySTAR` of src/poll_tallier.cpp.
pub mod Leader
pub mod Runoff
use bright_chain_cpp.Prelude.{
  ℕ, zero, suc, Bool, not, ◌&&◌, Option, none, some, List, [], ◌∷◌, length, get_or, set,
  if◌then◌else◌,
}
use bright_chain_cpp.Prelude.Int.{ℤ, pos, negsuc, ltb_ℤ}
use bright_chain_cpp.Voting.Bytes.{
  Bytes, bytes_to_int, int_to_bytes, add_bigint_bytes, compare_bigint_bytes,
}
use bright_chain_cpp.Voting.Method.{VotingMethod, two_round, star}
use bright_chain_cpp.Voting.Poll.{Poll}
use bright_chain_cpp.Voting.Tally.{
  Ballots, ballots_of, zero_tallies, additive_tallies, max_tally, positions_of, PollResults,
  RoundResult,
}
use bright_chain_cpp.Voting.Ranked.{total_votes, half}

-- `std::sort` of choices by their tallies, for a comparison of tallies.
abbrev pub TallySort : Type 0
TallySort = (Bytes → Bytes → Bool) → List (ℕ × Bytes) → List (ℕ × Bytes)

abbrev pub descending : Bytes → Bytes → Bool
descending a b = compare_bigint_bytes b a

-- The choices with their tallies, from choice `i` on.
unfoldable pub numbered : ℕ → List Bytes → List (ℕ × Bytes)
numbered i [] = []
numbered i (t ∷ ts) = (i, t) ∷ numbered (suc i) ts

abbrev pub two_round_results : Poll → VotingMethod → List RoundResult → List Bytes → ℤ → PollResults
two_round_results poll method rounds tallies winner = record {
  method = method;
  choices = poll.choices;
  winner = some winner;
  winners = none;
  eliminated = none;
  rounds = some rounds;
  tallies = tallies;
  voter_count = length poll.receipts;
}

abbrev pub numbered_round : ℕ → List Bytes → Option ℤ → RoundResult
numbered_round n tallies winner = record {
  round = n;
  tallies = tallies;
  eliminated = none;
  winner = winner;
}

-- The first of the given positions; -1 where there is none.
abbrev pub first_or_none : List ℕ → ℤ
first_or_none [] = negsuc 0
first_or_none (i ∷ is') = pos i

-- The second round takes over the tallies of the first two choices; `none` stands for a read past the
-- end, with fewer than two choices.
unfoldable pub second_round : Poll → List Bytes → List (ℕ × Bytes) → Option PollResults
unfolding zero_tallies
second_round poll tallies ((w, t) ∷ (v, u) ∷ rest) =
    let runoff = set (set (zero_tallies (length poll.choices)) w t) v u in
    some (
      two_round_results poll two_round
        (numbered_round 1 tallies none ∷ numbered_round 2 runoff (some (pos w)) ∷ []) runoff
        (pos w))
second_round poll tallies _ = none

unfoldable pub decide_two_round : TallySort → Poll → Option (List Bytes) → Option PollResults
unfolding max_tally bytes_to_int total_votes int_to_bytes positions_of second_round numbered
    compare_bigint_bytes
decide_two_round sort poll none = none
decide_two_round sort poll (some tallies) =
    let total = total_votes (int_to_bytes (pos 0)) tallies in
    let most = max_tally (get_or tallies 0 []) tallies in
    let winner = first_or_none (positions_of most 0 tallies) in
    if ltb_ℤ (half (bytes_to_int total)) (bytes_to_int most)
    then some (
        two_round_results poll two_round (numbered_round 1 tallies (some winner) ∷ []) tallies
          winner)
    else second_round poll tallies (sort descending (numbered 0 tallies))

unfoldable pub tally_two_round : TallySort → (Bytes → Bytes) → Poll → Option PollResults
unfolding additive_tallies decide_two_round
tally_two_round sort decrypt poll =
    decide_two_round sort poll
      (additive_tallies decrypt (ballots_of poll.votes) (length poll.choices))

abbrev pub add_one_at : ℕ → List Bytes → List Bytes
unfolding add_bigint_bytes int_to_bytes
add_one_at i tallies = set tallies i (add_bigint_bytes (get_or tallies i []) (int_to_bytes (pos 1)))

-- The preferences of the ballots between two choices.
unfoldable pub count_preferences : (Bytes → Bytes) → ℕ → ℕ → Ballots → List Bytes → List Bytes
unfolding compare_bigint_bytes add_one_at
count_preferences decrypt top0 top1 [] tallies = tallies
count_preferences decrypt top0 top1 (b ∷ bs) tallies =
    let score0 = decrypt (get_or b top0 []) in
    let score1 = decrypt (get_or b top1 []) in
    count_preferences decrypt top0 top1 bs (
      if compare_bigint_bytes score1 score0
      then add_one_at top0 tallies
      else if compare_bigint_bytes score0 score1
      then add_one_at top1 tallies
      else tallies)

-- Equal preferences leave the second choice as the winner.
unfoldable pub star_runoff :
    (Bytes → Bytes) → Poll → List Bytes → List (ℕ × Bytes) → Option PollResults
unfolding zero_tallies count_preferences compare_bigint_bytes
star_runoff decrypt poll scores ((top0, s0) ∷ (top1, s1) ∷ rest) =
    let runoff =
      count_preferences decrypt top0 top1 (ballots_of poll.votes)
        (zero_tallies (length poll.choices)) in
    let winner =
      if compare_bigint_bytes (get_or runoff top1 []) (get_or runoff top0 []) then top0 else top1 in
    some (
      two_round_results poll star
        (numbered_round 1 scores none ∷ numbered_round 2 runoff (some (pos winner)) ∷ []) runoff
        (pos winner))
star_runoff decrypt poll scores _ = none

unfoldable pub decide_star :
    TallySort → (Bytes → Bytes) → Poll → Option (List Bytes) → Option PollResults
unfolding star_runoff numbered compare_bigint_bytes
decide_star sort decrypt poll none = none
decide_star sort decrypt poll (some scores) =
    star_runoff decrypt poll scores (sort descending (numbered 0 scores))

unfoldable pub tally_star : TallySort → (Bytes → Bytes) → Poll → Option PollResults
unfolding additive_tallies decide_star
tally_star sort decrypt poll =
    decide_star sort decrypt poll
      (additive_tallies decrypt (ballots_of poll.votes) (length poll.choices))
