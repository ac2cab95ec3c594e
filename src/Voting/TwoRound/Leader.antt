-- ===== src/Voting/TwoRound/Leader.antt =====
-- The winner of `tallyTwoRound` of src/poll_tallier.cpp.
use mathlib.Core.Option.{some-injective}
use mathlib.Core.Path.{subst₂}
use bright_chain_cpp.Prelude.{
  ℕ, zero, suc, ◌+◌, ◌^◌, ◌≤◌, ◌<◌, ◌≡◌, sym, ap, ◌∙◌, ◌⊎◌, inl, inr, true, false, ltb, Option,
  some, List, [], ◌∷◌, length, length-map, if_cases, get_or, arith, subst,
}
use bright_chain_cpp.Prelude.Int.{pos, ltb_ℤ}
use bright_chain_cpp.Voting.Bytes.{Bytes, int_to_bytes, bytes_to_int}
use bright_chain_cpp.Voting.Poll.{Poll}
use bright_chain_cpp.Voting.Tally.{PollResults, ballots_of, max_tally, find_winners}
use bright_chain_cpp.Voting.Tally.Rows.{written, AllFit, column, length-columns}
use bright_chain_cpp.Voting.Tally.Totals.{additive_tallies-columns}
use bright_chain_cpp.Voting.Tally.Winners.{
  listed, maximum, maximum-bound, find_winners-listed, positions_of-bound, compare-written,
}
use bright_chain_cpp.Voting.Tally.Results.{sums, IsCountable, column_at}
use bright_chain_cpp.Voting.Ranked.{half, total_votes}
use bright_chain_cpp.Voting.TwoRound.{
  TallySort, descending, numbered, first_or_none, second_round, decide_two_round, tally_two_round,
}

-- `x` stands in a list.
abbrev Among : ℕ × Bytes → List (ℕ × Bytes) → Type 0
Among x [] = ⊥
Among x (y ∷ ys) = (y ≡ x) ⊎ Among x ys

-- Nothing in a list has to stand before `t`.
abbrev NoneBefore : Bytes → List (ℕ × Bytes) → Type 0
NoneBefore t [] = Unit
NoneBefore t ((j, u) ∷ xs) = (descending u t ≡ false) × NoneBefore t xs

-- The first element that sorting leaves is one of the list, and nothing has to stand before it.
abbrev pub IsFirst : List (ℕ × Bytes) → List (ℕ × Bytes) → Type 0
IsFirst [] xs = Unit
IsFirst ((i, t) ∷ rest) xs = Among (i, t) xs × NoneBefore t xs

-- Position `i` has the greatest value.
abbrev IsLeader : List ℕ → ℕ → Type 0
IsLeader vs i = (i < length vs) × (maximum vs ≤ get_or vs i 0)

Among-numbered :
    (vs : List ℕ) (k w : ℕ) (t : Bytes)
    → Among (w, t) (numbered k (written vs))
    → (i : ℕ) × (w ≡ k + i) × (i < length vs) × (t ≡ int_to_bytes (pos (get_or vs i 0)))
unfolding numbered
Among-numbered [] k w t h = absurd h
Among-numbered (v ∷ vs) k w t (inl same) = (
  zero,
  ap (λ (x : ℕ × Bytes). x.0) (sym same) ∙ (omega arith),
  omega arith,
  ap (λ (x : ℕ × Bytes). x.1) (sym same),
)
Among-numbered (v ∷ vs) k w t (inr later) =
    let (i, at, below, value) = Among-numbered vs (suc k) w t later in
    (suc i, omega (arith, at), omega (arith, below), value)

maximum-NoneBefore :
    (vs : List ℕ) (k m : ℕ)
    → AllFit vs
    → m < 2 ^ 63
    → NoneBefore (int_to_bytes (pos m)) (numbered k (written vs))
    → maximum vs ≤ m
unfolding numbered
maximum-NoneBefore [] k m fit hm h = omega arith
maximum-NoneBefore (v ∷ vs) k m fit hm (first, later) =
    let not_less : ltb m v ≡ false = sym (compare-written m v hm fit.0) ∙ first in
    ground (arith, not_less, maximum-NoneBefore vs (suc k) m fit.1 hm later)

pos_injective : (a b : ℕ) → some (pos a) ≡ some (pos b) → a ≡ b
pos_injective a b e = cc

first_or_none-listed :
    (ws : List ℕ) (i : ℕ) → some (first_or_none ws) ≡ some (pos i) → listed i ws ≡ true
first_or_none-listed [] i e = absurd (cc)
first_or_none-listed (w ∷ ws) i e = let same = pos_injective w i e in ground (arith, same)

AllFit-get_or : (vs : List ℕ) (i : ℕ) → AllFit vs → get_or vs i 0 < 2 ^ 63
AllFit-get_or [] i h = omega arith
AllFit-get_or (v ∷ vs) zero h = h.0
AllFit-get_or (v ∷ vs) (suc i) h = AllFit-get_or vs i h.1

-- A majority: the winner is the first choice with the greatest tally.
majority-IsLeader :
    (vs : List ℕ) (i : ℕ)
    → AllFit vs
    → some (first_or_none (find_winners (written vs))) ≡ some (pos i)
    → IsLeader vs i
unfolding find_winners
majority-IsLeader vs i fit e =
    let is_listed = first_or_none-listed (find_winners (written vs)) i e in
    let below = positions_of-bound _ 0 i (written vs) is_listed in
    let bound : i < length vs = omega (arith, below, length-map vs (λ v. int_to_bytes (pos v))) in
    (bound, ground (arith, is_listed, find_winners-listed vs i fit bound))

-- No majority: the winner is the first of the sorted choices.
second_round-IsLeader :
    (poll : Poll) (vs : List ℕ) (sorted : List (ℕ × Bytes)) (results : PollResults) (i : ℕ)
    → AllFit vs
    → IsFirst sorted (numbered 0 (written vs))
    → second_round poll (written vs) sorted ≡ some results
    → results.winner ≡ some (pos i)
    → IsLeader vs i
unfolding second_round
second_round-IsLeader poll vs [] results i fit first e won = absurd (cc)
second_round-IsLeader poll vs (x ∷ []) results i fit first e won = absurd (cc)
second_round-IsLeader poll vs ((w, t) ∷ (v, u) ∷ rest) results i fit (among, before) e won =
    let (k, at, below, value) = Among-numbered vs 0 w t among in
    let same : w ≡ i = pos_injective w i (ap (λ r. r.winner) (some-injective _ _ e) ∙ won) in
    let here : k ≡ i = omega (arith, at, same) in
    let most =
      maximum-NoneBefore vs 0 (get_or vs k 0) fit (AllFit-get_or vs k fit)
        (subst (λ b. NoneBefore b (numbered 0 (written vs))) value before) in
    subst (IsLeader vs) here (below, most)

decide_two_round-IsLeader :
    (sort : TallySort) (poll : Poll) (vs : List ℕ) (results : PollResults) (i : ℕ)
    → AllFit vs
    → IsFirst (sort descending (numbered 0 (written vs))) (numbered 0 (written vs))
    → decide_two_round sort poll (some (written vs)) ≡ some results
    → results.winner ≡ some (pos i)
    → IsLeader vs i
unfolding decide_two_round find_winners
decide_two_round-IsLeader sort poll vs results i fit first =
    if_cases
      (λ (o : Option PollResults). o ≡ some results → results.winner ≡ some (pos i) → IsLeader vs i)
      (ltb_ℤ (half (bytes_to_int (total_votes (int_to_bytes (pos 0)) (written vs))))
        (bytes_to_int (max_tally (get_or (written vs) 0 []) (written vs))))
      _ _ (λ _ e won. majority-IsLeader vs i fit (ap (λ r. r.winner) (some-injective _ _ e) ∙ won))
      (λ _ e won.
        second_round-IsLeader poll vs (sort descending (numbered 0 (written vs))) results i fit
          first e won)

-- In a poll whose ballots are complete and whose sums fit in 63 bits, and where sorting leaves a
-- choice with the greatest sum in front: the winner of the two-round tally has a first-round sum that
-- no other choice exceeds. The second round decides nothing.
pub tally_two_round-winner :
    (sort : TallySort) (decrypt : Bytes → Bytes) (poll : Poll) (results : PollResults) (i j : ℕ)
    → IsCountable decrypt poll
    → IsFirst
        (sort descending (numbered 0 (written (sums decrypt poll))))
        (numbered 0 (written (sums decrypt poll)))
    → tally_two_round sort decrypt poll ≡ some results
    → results.winner ≡ some (pos i)
    → j < length poll.choices
    → column decrypt j (ballots_of poll.votes) ≤ column decrypt i (ballots_of poll.votes)
unfolding tally_two_round
tally_two_round-winner sort decrypt poll results i j (complete, fit) first returned won hj =
    let n = length poll.choices in
    let bs = ballots_of poll.votes in
    let s = sums decrypt poll in
    let counted =
      ap (decide_two_round sort poll) (additive_tallies-columns decrypt bs n complete fit) in
    let leader =
      decide_two_round-IsLeader sort poll s results i fit first (sym counted ∙ returned) won in
    let size : length s ≡ n = length-columns decrypt 0 n bs in
    let hi : i < n = omega (arith, leader.0, size) in
    let most : get_or s j 0 ≤ get_or s i 0 =
      omega (arith, leader.1, maximum-bound s j (omega (arith, size))) in
    subst₂ (λ a b. a ≤ b) (column_at decrypt n j bs hj) (column_at decrypt n i bs hi) most
