-- ===== src/Voting/Stv/Termination.antt =====
-- The loop of `tallySTV` of src/poll_tallier.cpp ends.
use bright_chain_cpp.Prelude.{
  ℕ, zero, suc, ◌+◌, ◌≤◌, ◌<◌, ◌≡◌, refl, ap, ◌∙◌, ◌⊎◌, inl, inr, Bool, false, not, ◌&&◌, Option,
  none, some, List, [], ◌∷◌, length, arith, subst, if_cases,
}
use bright_chain_cpp.Prelude.Int.{ℤ, pos, ltb_ℤ}
use bright_chain_cpp.Voting.Bytes.{Bytes, bytes_to_int, compare_bigint_bytes}
use bright_chain_cpp.Voting.Poll.{Poll}
use bright_chain_cpp.Voting.Tally.{ballots_of, zero_tallies, PollResults}
use bright_chain_cpp.Voting.Tally.Rows.{AllComplete}
use bright_chain_cpp.Voting.Ranked.{Sort, count_first_choices, member, insert}
use bright_chain_cpp.Voting.Ranked.Termination.{length-insert, decrypt_rankings-returns}
use bright_chain_cpp.Voting.TwoRound.{TallySort}
use bright_chain_cpp.Voting.Stv.{
  Count, is_standing, meeting_quota, remaining_choices, insert_all, eliminate_first, elect,
  count_step, goes_on, count_seats, count_results, count_rankings, tally_stv, quota_of,
}

-- `x` stands in a list.
abbrev Among : ℕ × Bytes → List (ℕ × Bytes) → Type 0
Among x [] = ⊥
Among x (y ∷ ys) = (y ≡ x) ⊎ Among x ys

-- Sorting leaves an element of the list in front.
abbrev pub FirstAmong : List (ℕ × Bytes) → List (ℕ × Bytes) → Type 0
FirstAmong [] xs = Unit
FirstAmong (x ∷ rest) xs = Among x xs

abbrev pub KeepsElements : TallySort → Type 0
KeepsElements sort =
    (less : Bytes → Bytes → Bool) (xs : List (ℕ × Bytes)) → FirstAmong (sort less xs) xs

remaining-standing :
    (s : Count) (i : ℕ) (ts : List Bytes) (x : ℕ × Bytes)
    → Among x (remaining_choices s i ts)
    → member x.0 s.eliminated ≡ false
unfolding remaining_choices
remaining-standing s i [] x h = absurd h
remaining-standing s i (t ∷ ts) x h =
    if_cases (λ xs. Among x xs → member x.0 s.eliminated ≡ false) (is_standing s i)
      ((i, t) ∷ remaining_choices s (suc i) ts) (remaining_choices s (suc i) ts)
      (λ standing among. elim among [
        | inl same ↦
            subst (λ (y : ℕ × Bytes). member y.0 s.eliminated ≡ false) same
              (ground (arith, standing))
        | inr later ↦ remaining-standing s (suc i) ts x later
      ])
      (λ _ among. remaining-standing s (suc i) ts x among) h

quota-standing :
    (s : Count) (q : ℤ) (i : ℕ) (ts : List Bytes) (w : ℕ) (ws : List ℕ)
    → meeting_quota s q i ts ≡ w ∷ ws
    → member w s.eliminated ≡ false
unfolding meeting_quota
quota-standing s q i [] w ws h = absurd (cc)
quota-standing s q i (t ∷ ts) w ws h =
    if_cases (λ xs. xs ≡ w ∷ ws → member w s.eliminated ≡ false)
      (is_standing s i && not (ltb_ℤ (bytes_to_int t) q)) (i ∷ meeting_quota s q (suc i) ts)
      (meeting_quota s q (suc i) ts)
      (λ standing first.
        let same : i ≡ w = cc in
        subst (λ j. member j s.eliminated ≡ false) same (ground (arith, standing)))
      (λ _ later. quota-standing s q (suc i) ts w ws later) h

length-insert_grows : (i : ℕ) (xs : List ℕ) → length xs ≤ length (insert i xs)
unfolding insert
length-insert_grows i [] = omega arith
length-insert_grows i (j ∷ js) = ground (arith, length-insert_grows i js)

length-insert_all : (ws xs : List ℕ) → length xs ≤ length (insert_all ws xs)
unfolding insert_all
length-insert_all [] xs = omega arith
length-insert_all (w ∷ ws) xs =
    omega (arith, length-insert_grows w xs, length-insert_all ws (insert w xs))

-- A round that goes on has eliminated at least one choice more.
abbrev Shrinks : Count → Count ⊎ Count → Type 0
Shrinks s (inl s') = Unit
Shrinks s (inr s') = length s.eliminated < length s'.eliminated

eliminate_first-Shrinks :
    (s : Count) (tallies : List Bytes) (sorted : List (ℕ × Bytes))
    → FirstAmong sorted (remaining_choices s 0 tallies)
    → Shrinks s (eliminate_first s tallies sorted)
unfolding eliminate_first
eliminate_first-Shrinks s tallies [] first = tt
eliminate_first-Shrinks s tallies ((i, t) ∷ rest) first =
    omega (arith, length-insert i s.eliminated (remaining-standing s 0 tallies (i, t) first))

elect-Shrinks :
    (sort : TallySort) (s : Count) (tallies : List Bytes) (q : ℤ) (ws : List ℕ)
    → KeepsElements sort
    → meeting_quota s q 0 tallies ≡ ws
    → Shrinks s (elect sort s tallies ws)
unfolding elect insert_all
elect-Shrinks sort s tallies q [] law met =
    eliminate_first-Shrinks s tallies _ (law compare_bigint_bytes (remaining_choices s 0 tallies))
elect-Shrinks sort s tallies q (w ∷ ws) law met = omega (
  arith,
  length-insert w s.eliminated (quota-standing s q 0 tallies w ws met),
  length-insert_all ws (insert w s.eliminated),
)

count_step-Shrinks :
    (sort : TallySort) (n quota : ℕ) (rankings : List (List ℕ)) (s : Count)
    → KeepsElements sort
    → Shrinks s (count_step sort n quota rankings s)
unfolding count_step
count_step-Shrinks sort n quota rankings s law =
    elect-Shrinks sort s (count_first_choices rankings s.eliminated (zero_tallies n)) (pos quota) _
      law refl

abbrev Ends : Option Count → Type 0
Ends o = (s : Count) × (o ≡ some s)

after_step :
    (fuel : ℕ) (sort : TallySort) (n quota : ℕ) (rankings : List (List ℕ)) (s : Count)
    (x : Count ⊎ Count)
    → n ≤ suc fuel + length s.eliminated
    → ((s' : Count)
        → n ≤ fuel + length s'.eliminated
        → Ends (count_seats fuel sort n quota rankings s'))
    → Shrinks s x
    → Ends (elim x [ inl s' ↦ some s' | inr s' ↦ count_seats fuel sort n quota rankings s' ])
after_step fuel sort n quota rankings s (inl s') enough later shrinks = (s', refl)
after_step fuel sort n quota rankings s (inr s') enough later shrinks =
    later s' (omega (arith, shrinks))

count_seats-Ends :
    (fuel : ℕ) (sort : TallySort) (n quota : ℕ) (rankings : List (List ℕ)) (s : Count)
    → KeepsElements sort
    → n ≤ fuel + length s.eliminated
    → Ends (count_seats fuel sort n quota rankings s)
unfolding count_seats
count_seats-Ends zero sort n quota rankings s law enough =
    if_cases Ends (goes_on n s) none (some s) (λ more. absurd (ground (arith, more)))
      (λ _. (s, refl))
count_seats-Ends (suc fuel) sort n quota rankings s law enough =
    if_cases Ends (goes_on n s) _ (some s)
      (λ _.
        after_step fuel sort n quota rankings s (count_step sort n quota rankings s) enough
          (λ s' e. count_seats-Ends fuel sort n quota rankings s' law e)
          (count_step-Shrinks sort n quota rankings s law))
      (λ _. (s, refl))

-- Where every ballot has a ciphertext for each choice, and sorting puts no new element in front: the
-- single transferable vote returns results, whatever the ballots decrypt to.
pub tally_stv-returns :
    (sort_ranks : Sort) (sort : TallySort) (decrypt : Bytes → Bytes) (poll : Poll)
    → KeepsElements sort
    → AllComplete (length poll.choices) (ballots_of poll.votes)
    → (results : PollResults) × (tally_stv sort_ranks sort decrypt poll ≡ some results)
unfolding tally_stv count_rankings
tally_stv-returns sort_ranks sort decrypt poll law complete =
    let n = length poll.choices in
    let (rankings, eq) =
      decrypt_rankings-returns sort_ranks decrypt n (ballots_of poll.votes) complete in
    let (s, ended) =
      count_seats-Ends n sort n (quota_of (length poll.votes) n) rankings
        (record { rounds = []; eliminated = []; winners = [] }) law (omega arith) in
    (_, ap (count_rankings sort poll) eq ∙ ap (count_results poll) ended)
