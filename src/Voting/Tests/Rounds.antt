-- ===== src/Voting/Tests/Rounds.antt =====
-- Instances of the theorems on the tallies of several rounds of src/poll_tallier.cpp.
use bright_chain_cpp.Prelude.{
  ℕ, ◌≤◌, ◌≡◌, refl, inl, inr, Option, none, some, List, [], ◌∷◌, arith, if◌then◌else◌, if_cases,
}
use bright_chain_cpp.Prelude.Int.{pos, ◌+ℤ◌}
use bright_chain_cpp.Voting.Bytes.{
  Bytes, bytes_to_int, int_to_bytes, add_int64, add_bigint_bytes, compare_bigint_bytes,
}
use bright_chain_cpp.Voting.Tally.{
  PollResults, ballots_of, max_tally, positions_of, find_winners, add_ballots, add_ballot,
  add_decrypted, zero_tallies, additive_tallies,
}
use bright_chain_cpp.Voting.Tally.Rows.{column, written}
use bright_chain_cpp.Voting.Tally.Results.{sums}
use bright_chain_cpp.Voting.Ranked.{total_votes, insert, count_first_choices}
use bright_chain_cpp.Voting.TwoRound.{
  TallySort, numbered, descending, decide_two_round, tally_two_round, tally_star,
}
use bright_chain_cpp.Voting.TwoRound.Runoff.{IsPreferred, tally_star-IsPreferred}
use bright_chain_cpp.Voting.TwoRound.Leader.{IsFirst, tally_two_round-winner}
use bright_chain_cpp.Voting.Stv.{
  Count, count_seats, count_step, elect, meeting_quota, insert_all, quota_of,
}
use bright_chain_cpp.Voting.Stv.Termination.{FirstAmong, KeepsElements}
use bright_chain_cpp.Voting.Tallier.{tally, counted}
use bright_chain_cpp.Voting.Tallier.Totality.{KeepsLength, tally_returns}
use bright_chain_cpp.Voting.Tests.{closed_poll, open_text, closed_poll-IsCountable}

-- A sort that is one for lists of at most two.
abbrev sort_two : TallySort
sort_two less [] = []
sort_two less (x ∷ []) = x ∷ []
sort_two less (x ∷ y ∷ rest) = if less y.1 x.1 then y ∷ x ∷ rest else x ∷ y ∷ rest

sort_two-KeepsLength : KeepsLength sort_two
sort_two-KeepsLength less [] = refl
sort_two-KeepsLength less (x ∷ []) = refl
sort_two-KeepsLength less (x ∷ y ∷ rest) = ground arith

sort_two-KeepsElements : KeepsElements sort_two
sort_two-KeepsElements less [] = tt
sort_two-KeepsElements less (x ∷ []) = inl refl
sort_two-KeepsElements less (x ∷ y ∷ rest) =
    if_cases (λ xs. FirstAmong xs (x ∷ y ∷ rest)) (less y.1 x.1) (y ∷ x ∷ rest) (x ∷ y ∷ rest)
      (λ _. inr (inl refl)) (λ _. inl refl)

sorted_sums :
    IsFirst
      (sort_two descending (numbered 0 (written (sums open_text closed_poll))))
      (numbered 0 (written (sums open_text closed_poll)))
unfolding numbered compare_bigint_bytes bytes_to_int int_to_bytes
sorted_sums = (inr (inl refl), (refl, (refl, tt)))

two_round_poll :
    (results : PollResults) × (tally_two_round sort_two open_text closed_poll ≡ some results)
    × (results.winner ≡ some (pos 1))
unfolding tally_two_round decide_two_round additive_tallies add_ballots add_ballot add_decrypted
    zero_tallies find_winners max_tally positions_of compare_bigint_bytes bytes_to_int int_to_bytes
    add_bigint_bytes add_int64 ◌+ℤ◌ total_votes
two_round_poll = (_, refl, refl)

tally_two_round-winner_example :
    column open_text 0 (ballots_of closed_poll.votes)
    ≤ column open_text 1 (ballots_of closed_poll.votes)
tally_two_round-winner_example =
    tally_two_round-winner sort_two open_text closed_poll two_round_poll.0 1 0
      closed_poll-IsCountable sorted_sums two_round_poll.1 two_round_poll.2 (omega arith)

sorted_first :
    (s0 : Bytes) × (s1 : Bytes) × (sort_two descending
        (numbered 0 (written (sums open_text closed_poll)))
      ≡ (1, s0) ∷ (0, s1) ∷ [])
unfolding numbered compare_bigint_bytes bytes_to_int int_to_bytes
sorted_first = (_, _, refl)

tally_star-IsPreferred_example :
    (r : PollResults) × (tally_star sort_two open_text closed_poll ≡ some r)
    × IsPreferred open_text (ballots_of closed_poll.votes) 1 0 r
tally_star-IsPreferred_example =
    tally_star-IsPreferred sort_two open_text closed_poll 1 0 sorted_first.0 sorted_first.1 []
      closed_poll-IsCountable (omega arith) sorted_first.2 (λ e. omega arith) (omega arith)
      (omega arith)

tally_returns_example :
    (results : PollResults) × (tally (λ ranks. ranks) sort_two open_text closed_poll
      ≡ counted (some results))
tally_returns_example =
    tally_returns (λ ranks. ranks) sort_two open_text closed_poll sort_two-KeepsLength
      sort_two-KeepsElements refl (omega arith) (omega arith, tt)

-- A choice that is elected passes all its ballots on, so that more choices than there are seats can
-- meet the quota.
abbrev ten_rankings : List (List ℕ)
ten_rankings =
    (0 ∷ 1 ∷ [])
    ∷ (0 ∷ 1 ∷ [])
    ∷ (0 ∷ 1 ∷ [])
    ∷ (0 ∷ 1 ∷ [])
    ∷ (0 ∷ 2 ∷ [])
    ∷ (0 ∷ 2 ∷ [])
    ∷ (0 ∷ 2 ∷ [])
    ∷ (0 ∷ 3 ∷ [])
    ∷ (0 ∷ 3 ∷ [])
    ∷ (0 ∷ 3 ∷ [])
    ∷ []

abbrev winners_of : Option Count → List ℕ
winners_of none = []
winners_of (some s) = s.winners

four_winners_for_three_seats :
    winners_of (
      count_seats 4 sort_two 4
        (quota_of 10 4)
        ten_rankings
        (record { rounds = []; eliminated = []; winners = [] }))
    ≡ 0 ∷ 1 ∷ 2 ∷ 3 ∷ []
unfolding count_seats count_step elect meeting_quota insert_all insert count_first_choices
    zero_tallies bytes_to_int int_to_bytes add_bigint_bytes add_int64 ◌+ℤ◌
four_winners_for_three_seats = refl
