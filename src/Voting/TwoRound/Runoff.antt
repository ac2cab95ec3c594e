-- ===== src/Voting/TwoRound/Runoff.antt =====
-- The runoff of `tallySTAR` of src/poll_tallier.cpp.
use mathlib.Core.Path.{subst₂}
use bright_chain_cpp.Prelude.{
  ℕ, zero, suc, ◌+◌, ◌^◌, ◌≤◌, ◌<◌, ◌≡◌, ◌≢◌, refl, sym, ap, ◌∙◌, ◌⊎◌, inl, inr, Bool, true, false,
  none, some, List, [], ◌∷◌, length, get_or, if◌then◌else◌, ltb, get_or-set_self, get_or-set_ne,
  length-set, arith,
}
use bright_chain_cpp.Prelude.Int.{ℤ, pos, negsuc, ltb_ℤ}
use bright_chain_cpp.Voting.Bytes.{
  Bytes, int_to_bytes, bytes_to_int, compare_bigint_bytes, add_bigint_bytes,
}
use bright_chain_cpp.Voting.Bytes.RoundTrip.{bytes_to_int-int_to_bytes, add_bytes}
use bright_chain_cpp.Voting.Method.{star}
use bright_chain_cpp.Voting.Poll.{Poll}
use bright_chain_cpp.Voting.Tally.{Ballots, PollResults, ballots_of, zero_tallies}
use bright_chain_cpp.Voting.Tally.Rows.{written}
use bright_chain_cpp.Voting.Tally.Totals.{additive_tallies-columns}
use bright_chain_cpp.Voting.Tally.Winners.{compare-written}
use bright_chain_cpp.Voting.Tally.Results.{sums, IsCountable}
use bright_chain_cpp.Voting.TwoRound.{
  TallySort, descending, numbered, add_one_at, count_preferences, star_runoff, decide_star,
  tally_star, two_round_results, numbered_round,
}

-- The ballot scores `a` higher than `b`.
abbrev pub prefers : (Bytes → Bytes) → ℕ → ℕ → List Bytes → Bool
prefers decrypt a b ballot =
    compare_bigint_bytes (decrypt (get_or ballot b [])) (decrypt (get_or ballot a []))

-- How many ballots score `a` higher than `b`.
abbrev pub preferring : (Bytes → Bytes) → ℕ → ℕ → Ballots → ℕ
preferring decrypt a b [] = 0
preferring decrypt a b (ballot ∷ bs) =
    (if prefers decrypt a b ballot then 1 else 0) + preferring decrypt a b bs

preferring-bound :
    (decrypt : Bytes → Bytes) (a b : ℕ) (bs : Ballots) → preferring decrypt a b bs ≤ length bs
preferring-bound decrypt a b [] = omega arith
preferring-bound decrypt a b (ballot ∷ bs) = ground (arith, preferring-bound decrypt a b bs)

ltb_ℤ_asym : (x y : ℤ) → ltb_ℤ x y ≡ true → ltb_ℤ y x ≡ false
ltb_ℤ_asym (pos m) (pos n) h = ground arith
ltb_ℤ_asym (pos m) (negsuc n) h = ground arith
ltb_ℤ_asym (negsuc m) (pos n) h = ground arith
ltb_ℤ_asym (negsuc m) (negsuc n) h = ground arith

-- Tally `i` of a list is `v`.
abbrev Holds : List Bytes → ℕ → ℕ → Type 0
Holds ts i v = (i < length ts) × (get_or ts i [] ≡ int_to_bytes (pos v))

asymmetric :
    (decrypt : Bytes → Bytes) (a b : ℕ) (ballot : List Bytes)
    → prefers decrypt a b ballot ≡ true
    → prefers decrypt b a ballot ≡ false
unfolding compare_bigint_bytes
asymmetric decrypt a b ballot h =
    ltb_ℤ_asym (bytes_to_int (decrypt (get_or ballot b [])))
      (bytes_to_int (decrypt (get_or ballot a []))) h

add_one_at-counts :
    (ts : List Bytes) (i v : ℕ) → suc v < 2 ^ 63 → Holds ts i v → Holds (add_one_at i ts) i (suc v)
unfolding add_one_at
add_one_at-counts ts i v fits (below, here) =
    let next : v + 1 ≡ suc v = omega arith in
    let one = bytes_to_int-int_to_bytes 1 (omega arith) in
    let old = ap bytes_to_int here ∙ bytes_to_int-int_to_bytes v (omega (arith, fits)) in
    let sum = add_bytes (get_or ts i []) (int_to_bytes (pos 1)) v 1 old one (omega (arith, fits)) in
    (
      omega (
        arith,
        below,
        length-set ts i (add_bigint_bytes (get_or ts i []) (int_to_bytes (pos 1))),
      ),
      get_or-set_self ts i _ [] below ∙ sum ∙ ap (λ n. int_to_bytes (pos n)) next,
    )

add_one_at-keeps :
    (ts : List Bytes) (i j v : ℕ) → i ≢ j → Holds ts j v → Holds (add_one_at i ts) j v
unfolding add_one_at
add_one_at-keeps ts i j v other (below, here) = (
  omega (arith, below, length-set ts i (add_bigint_bytes (get_or ts i []) (int_to_bytes (pos 1)))),
  get_or-set_ne ts i j _ [] other ∙ here,
)

-- Both tallies of the runoff hold their counts.
abbrev HoldBoth : List Bytes → ℕ → ℕ → ℕ → ℕ → Type 0
HoldBoth ts a b v w = Holds ts a v × Holds ts b w

-- The step for one ballot, by what it prefers; `rest` counts the ballots after it.
ballot_step :
    (rest : List Bytes → List Bytes) (a b x y m : ℕ) (p q : Bool) (ts : List Bytes) (v w : ℕ)
    → a ≢ b
    → (p ≡ true → q ≡ false)
    → ((us : List Bytes) (n k : ℕ)
        → n + m < 2 ^ 63
        → k + m < 2 ^ 63
        → HoldBoth us a b n k
        → HoldBoth (rest us) a b (n + x) (k + y))
    → v + suc m < 2 ^ 63
    → w + suc m < 2 ^ 63
    → HoldBoth ts a b v w
    → HoldBoth
        (rest (if p then add_one_at a ts else if q then add_one_at b ts else ts))
        a
        b
        (v + ((if p then 1 else 0) + x))
        (w + ((if q then 1 else 0) + y))
ballot_step rest a b x y m true true ts v w other only count hv hw (first, second) =
    absurd (cc (only refl))
ballot_step rest a b x y m true false ts v w other only count hv hw (first, second) =
    subst₂ (HoldBoth (rest (add_one_at a ts)) a b) (omega arith) (omega arith) (
      count (add_one_at a ts) (suc v) w (omega (arith, hv)) (omega (arith, hw)) (
        add_one_at-counts ts a v (omega (arith, hv)) first,
        add_one_at-keeps ts a b w other second,
      ))
ballot_step rest a b x y m false true ts v w other only count hv hw (first, second) =
    subst₂ (HoldBoth (rest (add_one_at b ts)) a b) (omega arith) (omega arith) (
      count (add_one_at b ts) v (suc w) (omega (arith, hv)) (omega (arith, hw)) (
        add_one_at-keeps ts b a v (λ e. other (sym e)) first,
        add_one_at-counts ts b w (omega (arith, hw)) second,
      ))
ballot_step rest a b x y m false false ts v w other only count hv hw both =
    subst₂ (HoldBoth (rest ts) a b) (omega arith) (omega arith)
      (count ts v w (omega (arith, hv)) (omega (arith, hw)) both)

count_preferences-HoldBoth :
    (decrypt : Bytes → Bytes) (a b : ℕ) (bs : Ballots) (ts : List Bytes) (v w : ℕ)
    → a ≢ b
    → v + length bs < 2 ^ 63
    → w + length bs < 2 ^ 63
    → HoldBoth ts a b v w
    → HoldBoth
        (count_preferences decrypt a b bs ts)
        a
        b
        (v + preferring decrypt a b bs)
        (w + preferring decrypt b a bs)
unfolding count_preferences
count_preferences-HoldBoth decrypt a b [] ts v w other hv hw both =
    let same : (n : ℕ) → n ≡ n + 0 = λ n. omega arith in
    subst₂ (HoldBoth ts a b) (same v) (same w) both
count_preferences-HoldBoth decrypt a b (ballot ∷ bs) ts v w other hv hw both =
    ballot_step (count_preferences decrypt a b bs) a b (preferring decrypt a b bs)
      (preferring decrypt b a bs) (length bs) (prefers decrypt a b ballot)
      (prefers decrypt b a ballot) ts v w other (asymmetric decrypt a b ballot)
      (λ us n k hn hk. count_preferences-HoldBoth decrypt a b bs us n k other hn hk) hv hw both

zero_tallies-Holds : (n i : ℕ) → i < n → Holds (zero_tallies n) i 0
unfolding zero_tallies
zero_tallies-Holds zero i h = absurd (omega (arith, h))
zero_tallies-Holds (suc n) zero h = (omega arith, refl)
zero_tallies-Holds (suc n) (suc i) h =
    let (below, here) = zero_tallies-Holds n i (omega (arith, h)) in (omega (arith, below), here)

-- Of the two first choices that sorting leaves: the first wins where more ballots score it higher
-- than the second, which wins otherwise.
abbrev pub IsPreferred : (Bytes → Bytes) → Ballots → ℕ → ℕ → PollResults → Type 0
IsPreferred decrypt bs top0 top1 r =
    ((r.winner ≡ some (pos top0))
      × (preferring decrypt top1 top0 bs < preferring decrypt top0 top1 bs))
    ⊎ ((r.winner ≡ some (pos top1))
        × (preferring decrypt top0 top1 bs ≤ preferring decrypt top1 top0 bs))

chosen-IsPreferred :
    (decrypt : Bytes → Bytes) (bs : Ballots) (top0 top1 : ℕ) (results : ℕ → PollResults)
    (first : Bool)
    → ((w : ℕ) → (results w).winner ≡ some (pos w))
    → first ≡ ltb (preferring decrypt top1 top0 bs) (preferring decrypt top0 top1 bs)
    → IsPreferred decrypt bs top0 top1 (results (if first then top0 else top1))
chosen-IsPreferred decrypt bs top0 top1 results true wins e = inl (wins top0, ground (arith, e))
chosen-IsPreferred decrypt bs top0 top1 results false wins e = inr (wins top1, ground (arith, e))

star_runoff-IsPreferred :
    (decrypt : Bytes → Bytes) (poll : Poll) (scores : List Bytes) (top0 top1 : ℕ) (s0 s1 : Bytes)
    (rest : List (ℕ × Bytes))
    → length (ballots_of poll.votes) < 2 ^ 63
    → top0 ≢ top1
    → top0 < length poll.choices
    → top1 < length poll.choices
    → (r : PollResults) × (star_runoff decrypt poll scores ((top0, s0) ∷ (top1, s1) ∷ rest)
        ≡ some r)
      × IsPreferred decrypt (ballots_of poll.votes) top0 top1 r
unfolding star_runoff
star_runoff-IsPreferred decrypt poll scores top0 top1 s0 s1 rest few other h0 h1 =
    let bs = ballots_of poll.votes in
    let zeros = zero_tallies (length poll.choices) in
    let ((_, first), (_, second)) =
      count_preferences-HoldBoth decrypt top0 top1 bs zeros 0 0 other (omega (arith, few))
        (omega (arith, few))
        (
          zero_tallies-Holds (length poll.choices) top0 h0,
          zero_tallies-Holds (length poll.choices) top1 h1,
        ) in
    let x = preferring decrypt top0 top1 bs in
    let y = preferring decrypt top1 top0 bs in
    let hx = preferring-bound decrypt top0 top1 bs in
    let hy = preferring-bound decrypt top1 top0 bs in
    let runoff = count_preferences decrypt top0 top1 bs zeros in
    let results : ℕ → PollResults = λ w.
      two_round_results poll star
        (numbered_round 1 scores none ∷ numbered_round 2 runoff (some (pos w)) ∷ []) runoff
        (pos w) in
    let compared : compare_bigint_bytes (get_or runoff top1 []) (get_or runoff top0 []) ≡ ltb y x =
      ap (λ t. compare_bigint_bytes (get_or runoff top1 []) t) first
      ∙ ap (λ t. compare_bigint_bytes t (int_to_bytes (pos (0 + x)))) second
      ∙ compare-written (0 + y) (0 + x) (omega (arith, hy, few)) (omega (arith, hx, few))
      ∙ (ground arith) in
    (_, refl, chosen-IsPreferred decrypt bs top0 top1 results _ (λ w. refl) compared)

-- In a poll whose ballots are complete, whose sums fit in 63 bits, and that has fewer than 2^63
-- ballots, where sorting the sums leaves two different choices in front: STAR returns results, and
-- the winner is the first of them if more ballots score it higher than the second than the other way
-- round, and the second otherwise.
pub tally_star-IsPreferred :
    (sort : TallySort) (decrypt : Bytes → Bytes) (poll : Poll) (top0 top1 : ℕ) (s0 s1 : Bytes)
    (rest : List (ℕ × Bytes))
    → IsCountable decrypt poll
    → length (ballots_of poll.votes) < 2 ^ 63
    → sort descending (numbered 0 (written (sums decrypt poll))) ≡ (top0, s0) ∷ (top1, s1) ∷ rest
    → top0 ≢ top1
    → top0 < length poll.choices
    → top1 < length poll.choices
    → (r : PollResults) × (tally_star sort decrypt poll ≡ some r)
      × IsPreferred decrypt (ballots_of poll.votes) top0 top1 r
unfolding tally_star decide_star
tally_star-IsPreferred sort decrypt poll top0 top1 s0 s1 rest (complete, fit) few sorted other h0
      h1 =
    let scores = written (sums decrypt poll) in
    let (r, same, preferred) =
      star_runoff-IsPreferred decrypt poll scores top0 top1 s0 s1 rest few other h0 h1 in
    let counted = ap (decide_star sort decrypt poll) (
      additive_tallies-columns decrypt (ballots_of poll.votes) (length poll.choices) complete
        fit) in
    (r, counted ∙ ap (star_runoff decrypt poll scores) sorted ∙ same, preferred)
