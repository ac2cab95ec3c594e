-- ===== src/Voting/Tallier/Totality.antt =====
-- Every closed poll is counted: src/poll_tallier.cpp.
use bright_chain_cpp.Prelude.{
  ℕ, suc, ◌≤◌, ◌≡◌, refl, sym, ap, ◌∙◌, subst, Bool, true, if_cases, Option, some, List, [], ◌∷◌,
  length, get_or, arith,
}
use bright_chain_cpp.Prelude.Int.{pos, ltb_ℤ}
use bright_chain_cpp.Voting.Bytes.{Bytes, int_to_bytes, bytes_to_int}
use bright_chain_cpp.Voting.Method.{
  VotingMethod, ranked_choice, two_round, star, stv, quadratic, consensus, consent_based,
}
use bright_chain_cpp.Voting.Poll.{Poll, has_time}
use bright_chain_cpp.Voting.Tally.{
  max_tally, ballots_of, zero_tallies, add_ballots, add_decrypted, add_squared, add_support,
  add_objection, additive_tallies, results_with, consent_results, find_winners, PollResults,
  tally_additive, tally_quadratic, tally_consensus, tally_consent_based,
}
use bright_chain_cpp.Voting.Tally.Counts.{Counts, poll-Counts}
use bright_chain_cpp.Voting.Tally.Rows.{AllComplete}
use bright_chain_cpp.Voting.Ranked.{half, total_votes, Sort}
use bright_chain_cpp.Voting.Ranked.Termination.{tally_ranked_choice-Returns}
use bright_chain_cpp.Voting.TwoRound.{
  TallySort, descending, numbered, second_round, star_runoff, decide_two_round, decide_star,
  tally_two_round, tally_star,
}
use bright_chain_cpp.Voting.Stv.Termination.{KeepsElements, tally_stv-returns}
use bright_chain_cpp.Voting.Tallier.{tally_method, tally, counted}

-- Sorting keeps the number of elements.
abbrev pub KeepsLength : TallySort → Type 0
KeepsLength sort =
    (less : Bytes → Bytes → Bool) (xs : List (ℕ × Bytes)) → length (sort less xs) ≡ length xs

abbrev pub HasResults : Option PollResults → Type 0
HasResults o = (results : PollResults) × (o ≡ some results)

results_with-HasResults :
    (poll : Poll) (m : VotingMethod) (winners : List Bytes → List ℕ) (n : ℕ)
    (o : Option (List Bytes))
    → Counts n o
    → HasResults (results_with poll m winners o)
results_with-HasResults poll m winners n o (ts, eq, size) = (_, ap (results_with poll m winners) eq)

length-numbered : (i : ℕ) (ts : List Bytes) → length (numbered i ts) ≡ length ts
unfolding numbered
length-numbered i [] = refl
length-numbered i (t ∷ ts) = ap suc (length-numbered (suc i) ts)

second_round-HasResults :
    (poll : Poll) (ts : List Bytes) (xs : List (ℕ × Bytes))
    → 2 ≤ length xs
    → HasResults (second_round poll ts xs)
unfolding second_round
second_round-HasResults poll ts [] h = absurd (omega arith)
second_round-HasResults poll ts (x ∷ []) h = absurd (omega arith)
second_round-HasResults poll ts (x ∷ y ∷ xs) h = (_, refl)

star_runoff-HasResults :
    (decrypt : Bytes → Bytes) (poll : Poll) (ts : List Bytes) (xs : List (ℕ × Bytes))
    → 2 ≤ length xs
    → HasResults (star_runoff decrypt poll ts xs)
unfolding star_runoff
star_runoff-HasResults decrypt poll ts [] h = absurd (omega arith)
star_runoff-HasResults decrypt poll ts (x ∷ []) h = absurd (omega arith)
star_runoff-HasResults decrypt poll ts (x ∷ y ∷ xs) h = (_, refl)

sorted-two :
    (sort : TallySort) (n : ℕ) (ts : List Bytes)
    → KeepsLength sort
    → 2 ≤ n
    → length ts ≡ n
    → 2 ≤ length (sort descending (numbered 0 ts))
sorted-two sort n ts law two size =
    omega (arith, law descending (numbered 0 ts), length-numbered 0 ts, size)

decide_two_round-HasResults :
    (sort : TallySort) (poll : Poll) (n : ℕ) (o : Option (List Bytes))
    → KeepsLength sort
    → 2 ≤ n
    → Counts n o
    → HasResults (decide_two_round sort poll o)
unfolding decide_two_round
decide_two_round-HasResults sort poll n o law two (ts, eq, size) =
    subst (λ p. HasResults (decide_two_round sort poll p)) (sym eq)
      (if_cases HasResults
        (ltb_ℤ (half (bytes_to_int (total_votes (int_to_bytes (pos 0)) ts)))
          (bytes_to_int (max_tally (get_or ts 0 []) ts)))
        _ (second_round poll ts (sort descending (numbered 0 ts))) (λ _. (_, refl))
        (λ _. second_round-HasResults poll ts _ (sorted-two sort n ts law two size)))

decide_star-HasResults :
    (sort : TallySort) (decrypt : Bytes → Bytes) (poll : Poll) (n : ℕ) (o : Option (List Bytes))
    → KeepsLength sort
    → 2 ≤ n
    → Counts n o
    → HasResults (decide_star sort decrypt poll o)
unfolding decide_star
decide_star-HasResults sort decrypt poll n o law two (ts, eq, size) =
    subst (λ p. HasResults (decide_star sort decrypt poll p)) (sym eq)
      (star_runoff-HasResults decrypt poll ts _ (sorted-two sort n ts law two size))

additive-HasResults :
    (decrypt : Bytes → Bytes) (poll : Poll)
    → AllComplete (length poll.choices) (ballots_of poll.votes)
    → HasResults (tally_additive decrypt poll)
unfolding tally_additive additive_tallies
additive-HasResults decrypt poll h =
    results_with-HasResults poll poll.method find_winners (length poll.choices) _
      (poll-Counts (add_decrypted decrypt) poll h)

consent-HasResults :
    (decrypt : Bytes → Bytes) (poll : Poll)
    → AllComplete (length poll.choices) (ballots_of poll.votes)
    → HasResults (tally_consent_based decrypt poll)
unfolding tally_consent_based
consent-HasResults decrypt poll h =
    let (os, eqo, _) = poll-Counts (add_objection decrypt) poll h in
    let (ts, eqt, _) = poll-Counts (add_support decrypt) poll h in
    (
      _,
      ap
            (λ o. consent_results poll o (
              add_ballots (add_support decrypt) (ballots_of poll.votes)
                (some (zero_tallies (length poll.choices)))))
            eqo
          ∙ ap (consent_results poll (some os)) eqt,
    )

tally_method-HasResults :
    (m : VotingMethod) (sort_ranks : Sort) (sort : TallySort) (decrypt : Bytes → Bytes)
    (poll : Poll)
    → KeepsLength sort
    → KeepsElements sort
    → 2 ≤ length poll.choices
    → AllComplete (length poll.choices) (ballots_of poll.votes)
    → HasResults (tally_method m sort_ranks sort decrypt poll)
unfolding tally_method tally_quadratic tally_consensus tally_two_round tally_star additive_tallies
tally_method-HasResults ranked_choice sort_ranks sort decrypt poll len keeps two h =
    let (results, rs, eq, _, _) =
      tally_ranked_choice-Returns sort_ranks decrypt poll (omega arith) h in
    (results, eq)
tally_method-HasResults two_round sort_ranks sort decrypt poll len keeps two h =
    decide_two_round-HasResults sort poll (length poll.choices) _ len two
      (poll-Counts (add_decrypted decrypt) poll h)
tally_method-HasResults star sort_ranks sort decrypt poll len keeps two h =
    decide_star-HasResults sort decrypt poll (length poll.choices) _ len two
      (poll-Counts (add_decrypted decrypt) poll h)
tally_method-HasResults stv sort_ranks sort decrypt poll len keeps two h =
    tally_stv-returns sort_ranks sort decrypt poll keeps h
tally_method-HasResults quadratic sort_ranks sort decrypt poll len keeps two h =
    results_with-HasResults poll quadratic find_winners (length poll.choices) _
      (poll-Counts (add_squared decrypt) poll h)
tally_method-HasResults consensus sort_ranks sort decrypt poll len keeps two h =
    results_with-HasResults poll consensus _ (length poll.choices) _
      (poll-Counts (add_decrypted decrypt) poll h)
tally_method-HasResults consent_based sort_ranks sort decrypt poll len keeps two h =
    consent-HasResults decrypt poll h
tally_method-HasResults _ sort_ranks sort decrypt poll len keeps two h =
    additive-HasResults decrypt poll h

-- Where sorting keeps the elements and their number: a closed poll of at least two choices, whose
-- ballots have a ciphertext for each choice, is counted by every method, whatever the ballots decrypt
-- to.
pub tally_returns :
    (sort_ranks : Sort) (sort : TallySort) (decrypt : Bytes → Bytes) (poll : Poll)
    → KeepsLength sort
    → KeepsElements sort
    → has_time poll.closed_at ≡ true
    → 2 ≤ length poll.choices
    → AllComplete (length poll.choices) (ballots_of poll.votes)
    → (results : PollResults) × (tally sort_ranks sort decrypt poll ≡ counted (some results))
unfolding tally
tally_returns sort_ranks sort decrypt poll len keeps closed two h =
    let (results, eq) =
      tally_method-HasResults poll.method sort_ranks sort decrypt poll len keeps two h in
    (results, rw (closed, eq) refl)
