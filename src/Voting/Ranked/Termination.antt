-- ===== src/Voting/Ranked/Termination.antt =====
-- The loop of `tallyRankedChoice` of src/poll_tallier.cpp ends.
use bright_chain_cpp.Prelude.{
  ℕ, zero, suc, ◌+◌, ◌-◌, ◌≤◌, ◌<◌, ◌≡◌, ◌≢◌, refl, sym, ap, subst, ◌∙◌, Bool, false, not, ◌&&◌,
  ◌==◌, Option, none, some, ◌⊎◌, inl, inr, List, [], ◌∷◌, ◌++◌, length, length-append, get_or,
  if◌then◌else◌, if_cases, arith,
}
use bright_chain_cpp.Prelude.Int.{ℤ, pos, ltb_ℤ}
use bright_chain_cpp.Voting.Bytes.{Bytes, bytes_to_int, int_to_bytes}
use bright_chain_cpp.Voting.Poll.{Poll}
use bright_chain_cpp.Voting.Tally.{Ballots, ballots_of, zero_tallies, PollResults, RoundResult}
use bright_chain_cpp.Voting.Tally.Rows.{AllComplete}
use bright_chain_cpp.Voting.Ranked.{
  half, count_first_choices, total_votes, max_standing, top_candidates, Sort, ranked_choices,
  decrypt_rankings, cons_rank, cons_ranking, member, insert, at_most, to_eliminate, Runoff,
  eliminate, decide_round, runoff_round, runoff, run_rankings, tally_ranked_choice, won,
  last_standing,
}

abbrev IsStanding : List ℕ → Option ℕ → Type 0
IsStanding eliminated none = Unit
IsStanding eliminated (some i) = member i eliminated ≡ false

IsStanding-if :
    (eliminated : List ℕ) (i : ℕ) (b : Bool) (chosen : Option ℕ)
    → IsStanding eliminated chosen
    → IsStanding eliminated (if not (member i eliminated) && b then some i else chosen)
IsStanding-if eliminated i b chosen h =
    if_cases (IsStanding eliminated) (not (member i eliminated) && b) _ _ (λ e. ground (arith, e))
      (λ _. h)

to_eliminate-IsStanding :
    (eliminated : List ℕ) (tallies : List Bytes) (n : ℕ) (least : Bytes) (chosen : Option ℕ)
    → IsStanding eliminated chosen
    → IsStanding eliminated (to_eliminate eliminated tallies n least chosen)
unfolding to_eliminate
to_eliminate-IsStanding eliminated tallies zero least chosen h = h
to_eliminate-IsStanding eliminated tallies (suc i) least chosen h =
    to_eliminate-IsStanding eliminated tallies i _ _
      (IsStanding-if eliminated i (at_most (get_or tallies i []) least) chosen h)

pub length-insert :
    (i : ℕ) (xs : List ℕ) → member i xs ≡ false → length (insert i xs) ≡ suc (length xs)
unfolding insert
length-insert i [] h = refl
length-insert i (j ∷ js) h = ground (arith, length-insert i js)

-- How a round ends: with results of one round more, or with one choice more eliminated, which two
-- standing choices need.
abbrev Ends : ℕ → Runoff → PollResults ⊎ Runoff → Type 0
Ends n s (inl results) =
    (rs : List RoundResult) × (results.rounds ≡ some rs) × (length rs ≡ suc (length s.rounds))
Ends n s (inr s') =
    (length s'.eliminated ≡ suc (length s.eliminated))
    × (length s'.rounds ≡ suc (length s.rounds))
    × (n - length s.eliminated ≢ 1)

length-snoc : (rs : List RoundResult) (r : RoundResult) → length (rs ++ r ∷ []) ≡ suc (length rs)
length-snoc rs r = omega (arith, length-append rs (r ∷ []))

eliminate-Ends :
    (poll : Poll) (rankings : List (List ℕ)) (s : Runoff) (tallies : List Bytes) (o : Option ℕ)
    → IsStanding s.eliminated o
    → length poll.choices - length s.eliminated ≢ 1
    → Ends (length poll.choices) s (eliminate poll rankings s tallies o)
unfolding eliminate
eliminate-Ends poll rankings s tallies none h more = (_, refl, length-snoc s.rounds _)
eliminate-Ends poll rankings s tallies (some i) h more =
    (length-insert i s.eliminated h, length-snoc s.rounds _, more)

-- The tests that follow where no choice has a majority.
last_or_eliminate :
    (poll : Poll) (rankings : List (List ℕ)) (s : Runoff) (tallies : List Bytes) (total : Bytes)
    → Ends (length poll.choices) s (
        if length poll.choices - length s.eliminated == 1
        then won poll s tallies (last_standing s.eliminated 0 (length poll.choices))
        else eliminate poll rankings s tallies
            (to_eliminate s.eliminated tallies (length poll.choices) total none))
last_or_eliminate poll rankings s tallies total =
    if_cases (Ends (length poll.choices) s) (length poll.choices - length s.eliminated == 1) _ _
      (λ _. (_, refl, length-snoc s.rounds _))
      (λ e.
        eliminate-Ends poll rankings s tallies _
          (to_eliminate-IsStanding s.eliminated tallies (length poll.choices) total none tt)
          (λ one. ground (arith, e, one)))

decide_round-Ends :
    (poll : Poll) (rankings : List (List ℕ)) (s : Runoff) (tallies : List Bytes)
    (total most : Bytes) (top : List ℕ)
    → Ends (length poll.choices) s (decide_round poll rankings s tallies total most top)
unfolding decide_round
decide_round-Ends poll rankings s tallies total most [] =
    last_or_eliminate poll rankings s tallies total
decide_round-Ends poll rankings s tallies total most (w ∷ []) =
    if_cases (Ends (length poll.choices) s) (ltb_ℤ (half (bytes_to_int total)) (bytes_to_int most))
      (won poll s tallies (pos w)) _ (λ _. (_, refl, length-snoc s.rounds _))
      (λ _. last_or_eliminate poll rankings s tallies total)
decide_round-Ends poll rankings s tallies total most (w ∷ v ∷ top) =
    last_or_eliminate poll rankings s tallies total

runoff_round-Ends :
    (poll : Poll) (rankings : List (List ℕ)) (s : Runoff)
    → Ends (length poll.choices) s (runoff_round poll rankings s)
unfolding runoff_round
runoff_round-Ends poll rankings s =
    let tallies = count_first_choices rankings s.eliminated (zero_tallies (length poll.choices)) in
    let total = total_votes (int_to_bytes (pos 0)) tallies in
    let most = max_standing s.eliminated 0 (int_to_bytes (pos 0)) tallies in
    decide_round-Ends poll rankings s tallies total most
      (top_candidates s.eliminated 0 most tallies)

-- Results come, after no more rounds than there are choices.
abbrev pub Returns : ℕ → Option PollResults → Type 0
Returns n o =
    (results : PollResults) × (rs : List RoundResult) × (o ≡ some results)
    × (results.rounds ≡ some rs)
    × (length rs ≤ n)

-- The rest of the loop after a round, where the loop itself returns on what is left.
runoff-after :
    (fuel : ℕ) (poll : Poll) (rankings : List (List ℕ)) (s : Runoff) (x : PollResults ⊎ Runoff)
    → length s.eliminated + suc fuel ≡ length poll.choices
    → length s.rounds ≡ length s.eliminated
    → ((s' : Runoff)
        → length s'.eliminated + fuel ≡ length poll.choices
        → length s'.rounds ≡ length s'.eliminated
        → 0 < fuel
        → Returns (length poll.choices) (runoff fuel poll rankings s'))
    → Ends (length poll.choices) s x
    → Returns
        (length poll.choices)
        (elim x [ inl results ↦ some results | inr s' ↦ runoff fuel poll rankings s' ])
runoff-after fuel poll rankings s (inl results) left counted later (rs, is_rounds, size) =
    (results, rs, refl, is_rounds, omega (arith, size))
runoff-after fuel poll rankings s (inr s') left counted later (one, another, more) =
    later s' (omega (arith, one)) (omega (arith, one, another)) (ground (arith, more))

runoff-Returns :
    (fuel : ℕ) (poll : Poll) (rankings : List (List ℕ)) (s : Runoff)
    → length s.eliminated + fuel ≡ length poll.choices
    → length s.rounds ≡ length s.eliminated
    → 0 < fuel
    → Returns (length poll.choices) (runoff fuel poll rankings s)
unfolding runoff
runoff-Returns zero poll rankings s left counted some_fuel = absurd (omega arith)
runoff-Returns (suc fuel) poll rankings s left counted some_fuel =
    runoff-after fuel poll rankings s (runoff_round poll rankings s) left counted
      (λ s' l c f. runoff-Returns fuel poll rankings s' l c f) (runoff_round-Ends poll rankings s)

ranked_choices-returns :
    (decrypt : Bytes → Bytes) (i n : ℕ) (b : List Bytes)
    → n ≤ length b
    → (ranks : List (ℕ × ℤ)) × (ranked_choices decrypt i n b ≡ some ranks)
unfolding ranked_choices
ranked_choices-returns decrypt i zero b h = (_, refl)
ranked_choices-returns decrypt i (suc n) [] h = absurd (omega arith)
ranked_choices-returns decrypt i (suc n) (c ∷ b) h =
    let (ranks, eq) = ranked_choices-returns decrypt (suc i) n b (omega arith) in
    (_, ap (cons_rank i _) eq)

pub decrypt_rankings-returns :
    (sort : Sort) (decrypt : Bytes → Bytes) (n : ℕ) (bs : Ballots)
    → AllComplete n bs
    → (rankings : List (List ℕ)) × (decrypt_rankings sort decrypt n bs ≡ some rankings)
unfolding decrypt_rankings
decrypt_rankings-returns sort decrypt n [] h = (_, refl)
decrypt_rankings-returns sort decrypt n (b ∷ bs) (h, hs) =
    let (ranks, eq) = ranked_choices-returns decrypt 0 n b h in
    let (rankings, eqs) = decrypt_rankings-returns sort decrypt n bs hs in
    (
      _,
      ap (λ o. cons_ranking sort o (decrypt_rankings sort decrypt n bs)) eq
          ∙ ap (cons_ranking sort (some ranks)) eqs,
    )

-- Where every ballot has a ciphertext for each of at least one choice, the instant runoff returns
-- results, after no more rounds than there are choices, whatever the ballots decrypt to.
pub tally_ranked_choice-Returns :
    (sort : Sort) (decrypt : Bytes → Bytes) (poll : Poll)
    → 0 < length poll.choices
    → AllComplete (length poll.choices) (ballots_of poll.votes)
    → Returns (length poll.choices) (tally_ranked_choice sort decrypt poll)
unfolding tally_ranked_choice run_rankings
tally_ranked_choice-Returns sort decrypt poll choice complete =
    let n = length poll.choices in
    let (rankings, eq) = decrypt_rankings-returns sort decrypt n (ballots_of poll.votes) complete in
    subst (λ o. Returns n (run_rankings n poll o)) (sym eq)
      (runoff-Returns n poll rankings (record { rounds = []; eliminated = [] }) (omega arith) refl
        choice)
