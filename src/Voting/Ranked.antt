-- ===== src/Voting/Ranked.antt =====
-- `decryptRankings`, `countFirstChoices` and `tallyRankedChoice` (instant runoff) of
-- src/poll_tallier.cpp.
pub mod Termination
use bright_chain_cpp.Prelude.{
  ℕ, zero, suc, ◌+◌, ◌-◌, ◌/◌, ◌%◌, ◌^◌, Bool, true, false, not, ◌&&◌, ◌||◌, ◌==◌, ltb, Option,
  none, some, ◌⊎◌, inl, inr, List, [], ◌∷◌, ◌++◌, map, length, get_or, set, if◌then◌else◌,
}
use bright_chain_cpp.Prelude.Int.{ℤ, pos, negsuc, ltb_ℤ}
use bright_chain_cpp.Voting.Bytes.{
  Bytes, bytes_to_int, int_to_bytes, pattern_of, add_bigint_bytes, compare_bigint_bytes,
}
use bright_chain_cpp.Voting.Method.{VotingMethod, ranked_choice}
use bright_chain_cpp.Voting.Poll.{Poll}
use bright_chain_cpp.Voting.Tally.{Ballots, ballots_of, zero_tallies, PollResults, RoundResult}

-- `std::sort` of pairs by their second component. The order of equal ones is not specified, so it is
-- an argument.
abbrev pub Sort : Type 0
Sort = List (ℕ × ℤ) → List (ℕ × ℤ)

-- `static_cast<int>` of an `int64_t`
abbrev pub to_int32 : ℤ → ℤ
to_int32 v =
    let low = pattern_of v % 2 ^ 32 in
    if ltb low (2 ^ 31) then pos low else negsuc (2 ^ 32 - low - 1)

abbrev pub cons_rank : ℕ → ℤ → Option (List (ℕ × ℤ)) → Option (List (ℕ × ℤ))
cons_rank i rank none = none
cons_rank i rank (some rest) = some (if ltb_ℤ (pos 0) rank then (i, rank) ∷ rest else rest)

-- The ranked choices of a ballot, from choice `i` on, for `n` choices.
unfoldable pub ranked_choices : (Bytes → Bytes) → ℕ → ℕ → List Bytes → Option (List (ℕ × ℤ))
unfolding bytes_to_int
ranked_choices decrypt i zero encrypted = some []
ranked_choices decrypt i (suc n) [] = none
ranked_choices decrypt i (suc n) (c ∷ encrypted) =
    cons_rank i (to_int32 (bytes_to_int (decrypt c))) (ranked_choices decrypt (suc i) n encrypted)

abbrev pub cons_ranking :
    Sort → Option (List (ℕ × ℤ)) → Option (List (List ℕ)) → Option (List (List ℕ))
cons_ranking sort none rest = none
cons_ranking sort (some ranks) none = none
cons_ranking sort (some ranks) (some rest) = some (map (λ r. r.0) (sort ranks) ∷ rest)

unfoldable pub decrypt_rankings : Sort → (Bytes → Bytes) → ℕ → Ballots → Option (List (List ℕ))
unfolding ranked_choices
decrypt_rankings sort decrypt n [] = some []
decrypt_rankings sort decrypt n (b ∷ bs) =
    cons_ranking sort (ranked_choices decrypt 0 n b) (decrypt_rankings sort decrypt n bs)

-- `std::set<int>`, in increasing order.
abbrev pub member : ℕ → List ℕ → Bool
member i [] = false
member i (j ∷ js) = j == i || member i js

unfoldable pub insert : ℕ → List ℕ → List ℕ
insert i [] = i ∷ []
insert i (j ∷ js) =
    let rest = insert i js in if i == j then j ∷ js else if ltb i j then i ∷ j ∷ js else j ∷ rest

abbrev pub first_standing : List ℕ → List ℕ → Option ℕ
first_standing eliminated [] = none
first_standing eliminated (c ∷ cs) =
    let rest = first_standing eliminated cs in if member c eliminated then rest else some c

abbrev pub count_choice : List Bytes → Option ℕ → List Bytes
unfolding add_bigint_bytes int_to_bytes
count_choice tallies none = tallies
count_choice tallies (some c) =
    set tallies c (add_bigint_bytes (get_or tallies c []) (int_to_bytes (pos 1)))

unfoldable pub count_first_choices : List (List ℕ) → List ℕ → List Bytes → List Bytes
unfolding count_choice
count_first_choices [] eliminated tallies = tallies
count_first_choices (r ∷ rs) eliminated tallies =
    count_first_choices rs eliminated (count_choice tallies (first_standing eliminated r))

unfoldable pub total_votes : Bytes → List Bytes → Bytes
unfolding add_bigint_bytes
total_votes total [] = total
total_votes total (t ∷ ts) = total_votes (add_bigint_bytes total t) ts

-- The greatest tally of a choice that is not eliminated; `i` is the position of the first tally.
unfoldable pub max_standing : List ℕ → ℕ → Bytes → List Bytes → Bytes
unfolding compare_bigint_bytes
max_standing eliminated i m [] = m
max_standing eliminated i m (t ∷ ts) =
    max_standing eliminated (suc i)
      (if not (member i eliminated) && compare_bigint_bytes m t then t else m) ts

unfoldable pub top_candidates : List ℕ → ℕ → Bytes → List Bytes → List ℕ
unfolding compare_bigint_bytes
top_candidates eliminated i m [] = []
top_candidates eliminated i m (t ∷ ts) =
    let rest = top_candidates eliminated (suc i) m ts in
    if not (member i eliminated) && not (compare_bigint_bytes t m) && not (compare_bigint_bytes m t)
    then i ∷ rest
    else rest

-- The last choice standing, from position `i` on, for `n` positions; -1 where there is none.
abbrev pub last_standing : List ℕ → ℕ → ℕ → ℤ
last_standing eliminated i zero = negsuc 0
last_standing eliminated i (suc n) =
    let rest = last_standing eliminated (suc i) n in if member i eliminated then rest else pos i

-- `compare(t, m) || (!compare(t, m) && !compare(m, t))`
abbrev pub at_most : Bytes → Bytes → Bool
unfolding compare_bigint_bytes
at_most t m =
    compare_bigint_bytes t m || (not (compare_bigint_bytes t m) && not (compare_bigint_bytes m t))

-- The loop from the last position down: `n` positions are left, and `none` stands for -1.
unfoldable pub to_eliminate : List ℕ → List Bytes → ℕ → Bytes → Option ℕ → Option ℕ
unfolding at_most
to_eliminate eliminated tallies zero least chosen = chosen
to_eliminate eliminated tallies (suc i) least chosen =
    let t = get_or tallies i [] in
    let lower = not (member i eliminated) && at_most t least in
    to_eliminate eliminated tallies i (if lower then t else least)
      (if lower then some i else chosen)

-- `total / 2` of an `int64_t`, towards zero.
abbrev pub half : ℤ → ℤ
half (pos n) = pos (n / 2)
half (negsuc zero) = pos 0
half (negsuc (suc n)) = negsuc (n / 2)

pub record Runoff : Type 0 where
  pub rounds : List RoundResult
  pub eliminated : List ℕ

abbrev pub runoff_results : Poll → Runoff → List Bytes → List RoundResult → ℤ → PollResults
runoff_results poll s tallies rounds winner = record {
  method = ranked_choice;
  choices = poll.choices;
  winner = some winner;
  winners = none;
  eliminated = some s.eliminated;
  rounds = some rounds;
  tallies = tallies;
  voter_count = length poll.receipts;
}

abbrev pub round_of : Runoff → List Bytes → Option ℕ → Option ℤ → RoundResult
round_of s tallies eliminated winner = record {
  round = suc (length s.rounds);
  tallies = tallies;
  eliminated = eliminated;
  winner = winner;
}

abbrev pub won : Poll → Runoff → List Bytes → ℤ → PollResults ⊎ Runoff
won poll s tallies winner =
    inl (
      runoff_results poll s tallies (s.rounds ++ round_of s tallies none (some winner) ∷ []) winner)

-- The end of a round: a choice is eliminated, or the loop breaks off with choice 0.
unfoldable pub eliminate :
    Poll → List (List ℕ) → Runoff → List Bytes → Option ℕ → PollResults ⊎ Runoff
unfolding insert count_first_choices zero_tallies
eliminate poll rankings s tallies none = inl (
    runoff_results poll s
      (count_first_choices rankings s.eliminated (zero_tallies (length poll.choices)))
      (s.rounds ++ round_of s tallies none none ∷ []) (pos 0))
eliminate poll rankings s tallies (some i) = inr (record {
  rounds = s.rounds ++ round_of s tallies (some i) none ∷ [];
  eliminated = insert i s.eliminated;
})

-- A majority for one choice alone ends the loop, and so does a single choice left.
unfoldable pub decide_round :
    Poll → List (List ℕ) → Runoff → List Bytes → Bytes → Bytes → List ℕ → PollResults ⊎ Runoff
unfolding bytes_to_int to_eliminate eliminate
decide_round poll rankings s tallies total most (w ∷ []) =
    let n = length poll.choices in
    if ltb_ℤ (half (bytes_to_int total)) (bytes_to_int most)
    then won poll s tallies (pos w)
    else if n - length s.eliminated == 1
    then won poll s tallies (last_standing s.eliminated 0 n)
    else eliminate poll rankings s tallies (to_eliminate s.eliminated tallies n total none)
decide_round poll rankings s tallies total most top =
    let n = length poll.choices in
    if n - length s.eliminated == 1
    then won poll s tallies (last_standing s.eliminated 0 n)
    else eliminate poll rankings s tallies (to_eliminate s.eliminated tallies n total none)

unfoldable pub runoff_round : Poll → List (List ℕ) → Runoff → PollResults ⊎ Runoff
unfolding int_to_bytes zero_tallies count_first_choices total_votes max_standing top_candidates
    decide_round
runoff_round poll rankings s =
    let tallies = count_first_choices rankings s.eliminated (zero_tallies (length poll.choices)) in
    let total = total_votes (int_to_bytes (pos 0)) tallies in
    let most = max_standing s.eliminated 0 (int_to_bytes (pos 0)) tallies in
    decide_round poll rankings s tallies total most (top_candidates s.eliminated 0 most tallies)

-- `while (true)`; `none` means that the fuel ran out.
unfoldable pub runoff : ℕ → Poll → List (List ℕ) → Runoff → Option PollResults
unfolding runoff_round
runoff zero poll rankings s = none
runoff (suc fuel) poll rankings s = elim (runoff_round poll rankings s) [
  | inl results ↦ some results
  | inr s' ↦ runoff fuel poll rankings s'
]

unfoldable pub run_rankings : ℕ → Poll → Option (List (List ℕ)) → Option PollResults
unfolding runoff
run_rankings fuel poll none = none
run_rankings fuel poll (some rankings) =
    runoff fuel poll rankings (record { rounds = []; eliminated = [] })

-- A round for each choice is enough.
unfoldable pub tally_ranked_choice : Sort → (Bytes → Bytes) → Poll → Option PollResults
unfolding decrypt_rankings run_rankings
tally_ranked_choice sort decrypt poll =
    let n = length poll.choices in
    run_rankings n poll (decrypt_rankings sort decrypt n (ballots_of poll.votes))
