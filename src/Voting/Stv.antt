-- ===== src/Voting/Stv.antt =====
-- `tallySTV` (single transferable vote) of src/poll_tallier.cpp.
pub mod Termination
use bright_chain_cpp.Prelude.{
  ℕ, zero, suc, ◌+◌, ◌/◌, Bool, not, ◌&&◌, ltb, min, Option, none, some, ◌⊎◌, inl, inr, List, [],
  ◌∷◌, ◌++◌, length, set, if◌then◌else◌,
}
use bright_chain_cpp.Prelude.Int.{ℤ, pos, ltb_ℤ}
use bright_chain_cpp.Voting.Bytes.{Bytes, bytes_to_int, int_to_bytes, compare_bigint_bytes}
use bright_chain_cpp.Voting.Method.{VotingMethod, stv}
use bright_chain_cpp.Voting.Poll.{Poll}
use bright_chain_cpp.Voting.Tally.{ballots_of, zero_tallies, PollResults, RoundResult}
use bright_chain_cpp.Voting.Ranked.{Sort, decrypt_rankings, count_first_choices, member, insert}
use bright_chain_cpp.Voting.TwoRound.{TallySort}

pub record Count : Type 0 where
  pub rounds : List RoundResult
  pub eliminated : List ℕ
  pub winners : List ℕ

abbrev pub seats_to_fill : ℕ → ℕ
seats_to_fill choice_count = min 3 choice_count

abbrev pub quota_of : ℕ → ℕ → ℕ
quota_of votes choice_count = votes / (seats_to_fill choice_count + 1) + 1

-- `eliminated` does not have `i`, nor do the winners.
abbrev pub is_standing : Count → ℕ → Bool
is_standing s i = not (member i s.eliminated) && not (member i s.winners)

-- The choices that meet the quota; `i` is the position of the first tally.
unfoldable pub meeting_quota : Count → ℤ → ℕ → List Bytes → List ℕ
unfolding bytes_to_int
meeting_quota s quota i [] = []
meeting_quota s quota i (t ∷ ts) =
    let rest = meeting_quota s quota (suc i) ts in
    if is_standing s i && not (ltb_ℤ (bytes_to_int t) quota) then i ∷ rest else rest

unfoldable pub remaining_choices : Count → ℕ → List Bytes → List (ℕ × Bytes)
remaining_choices s i [] = []
remaining_choices s i (t ∷ ts) =
    let rest = remaining_choices s (suc i) ts in if is_standing s i then (i, t) ∷ rest else rest

unfoldable pub insert_all : List ℕ → List ℕ → List ℕ
unfolding insert
insert_all [] eliminated = eliminated
insert_all (i ∷ is') eliminated = insert_all is' (insert i eliminated)

abbrev pub count_round : Count → List Bytes → Option ℕ → Option ℤ → RoundResult
count_round s tallies eliminated winner = record {
  round = suc (length s.rounds);
  tallies = tallies;
  eliminated = eliminated;
  winner = winner;
}

-- Nobody meets the quota: the first of the sorted choices is eliminated. Without one the loop breaks
-- off.
unfoldable pub eliminate_first : Count → List Bytes → List (ℕ × Bytes) → Count ⊎ Count
unfolding insert
eliminate_first s tallies [] =
    inl (record s { rounds = s.rounds ++ count_round s tallies none none ∷ [] })
eliminate_first s tallies ((i, t) ∷ rest) = inr (record s {
  rounds = s.rounds ++ count_round s tallies (some i) none ∷ [];
  eliminated = insert i s.eliminated;
})

unfoldable pub elect : TallySort → Count → List Bytes → List ℕ → Count ⊎ Count
unfolding eliminate_first remaining_choices insert_all compare_bigint_bytes
elect sort s tallies [] =
    eliminate_first s tallies (sort compare_bigint_bytes (remaining_choices s 0 tallies))
elect sort s tallies (w ∷ ws) = inr (record {
  rounds = s.rounds ++ count_round s tallies none (some (pos w)) ∷ [];
  eliminated = insert_all (w ∷ ws) s.eliminated;
  winners = s.winners ++ w ∷ ws;
})

-- The body of the loop: `inl` where it breaks off.
unfoldable pub count_step : TallySort → ℕ → ℕ → List (List ℕ) → Count → Count ⊎ Count
unfolding zero_tallies count_first_choices meeting_quota elect
count_step sort n quota rankings s =
    let tallies = count_first_choices rankings s.eliminated (zero_tallies n) in
    elect sort s tallies (meeting_quota s (pos quota) 0 tallies)

abbrev pub goes_on : ℕ → Count → Bool
goes_on n s = ltb (length s.winners) (seats_to_fill n) && ltb (length s.eliminated) n

-- `none` means that the fuel ran out.
unfoldable pub count_seats : ℕ → TallySort → ℕ → ℕ → List (List ℕ) → Count → Option Count
unfolding count_step
count_seats zero sort n quota rankings s = if goes_on n s then none else some s
count_seats (suc fuel) sort n quota rankings s =
    let next : Option Count = elim (count_step sort n quota rankings s) [
      | inl s' ↦ some s'
      | inr s' ↦ count_seats fuel sort n quota rankings s'
    ] in
    if goes_on n s then next else some s

unfoldable pub winner_tallies : List ℕ → List Bytes → List Bytes
unfolding int_to_bytes
winner_tallies [] tallies = tallies
winner_tallies (w ∷ ws) tallies = winner_tallies ws (set tallies w (int_to_bytes (pos 1)))

abbrev pub count_results : Poll → Option Count → Option PollResults
unfolding winner_tallies zero_tallies
count_results poll none = none
count_results poll (some s) = some (record {
  method = stv;
  choices = poll.choices;
  winner = none;
  winners = some s.winners;
  eliminated = some s.eliminated;
  rounds = some s.rounds;
  tallies = winner_tallies s.winners (zero_tallies (length poll.choices));
  voter_count = length poll.receipts;
})

unfoldable pub count_rankings : TallySort → Poll → Option (List (List ℕ)) → Option PollResults
unfolding count_seats count_results
count_rankings sort poll none = none
count_rankings sort poll (some rankings) =
    let n = length poll.choices in
    count_results poll (
      count_seats n sort n (quota_of (length poll.votes) n) rankings
        (record { rounds = []; eliminated = []; winners = [] }))

-- A round for each choice is enough.
unfoldable pub tally_stv : Sort → TallySort → (Bytes → Bytes) → Poll → Option PollResults
unfolding decrypt_rankings count_rankings
tally_stv sort_ranks sort decrypt poll =
    count_rankings sort poll
      (decrypt_rankings sort_ranks decrypt (length poll.choices) (ballots_of poll.votes))
