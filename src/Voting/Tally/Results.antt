-- ===== src/Voting/Tally/Results.antt =====
-- What `tallyAdditive`, `tallyConsensus` and `tallyConsentBased` of src/poll_tallier.cpp declare.

use mathlib.Core.Path.{subst₂}
use mathlib.Core.Option.{some-injective}
use bright_chain_cpp.Prelude.{
  ℕ, zero, suc, ◌+◌, ◌*◌, ◌<◌, ◌≡◌, ◌≢◌, refl, sym, ap, ◌∙◌, false, some, List, [], ◌∷◌, length,
  length-map, get_or, leb, arith,
}
use bright_chain_cpp.Prelude.Int.{ℤ, pos}
use bright_chain_cpp.Voting.Bytes.{Bytes, int_to_bytes}
use bright_chain_cpp.Voting.Bytes.RoundTrip.{bytes_to_int-int_to_bytes}
use bright_chain_cpp.Voting.Poll.{Poll}
use bright_chain_cpp.Voting.Tally.{
  PollResults, ballots_of, find_winners, results_with, results_of, tally_additive, reaching,
  consensus_threshold,
}
use bright_chain_cpp.Voting.Tally.Rows.{
  written, AllFit, AllComplete, column, columns, length-columns,
}
use bright_chain_cpp.Voting.Tally.Totals.{additive_tallies-columns}
use bright_chain_cpp.Voting.Tally.Winners.{
  listed, single_winner-only, only_winner-beats, get_or-columns, positions_of-bound,
}

-- The sums of a poll, choice by choice.
abbrev pub sums : (Bytes → Bytes) → Poll → List ℕ
sums decrypt poll = columns decrypt 0 (length poll.choices) (ballots_of poll.votes)

abbrev pub IsCountable : (Bytes → Bytes) → Poll → Type 0
IsCountable decrypt poll =
    AllComplete (length poll.choices) (ballots_of poll.votes) × AllFit (sums decrypt poll)

-- In a poll whose ballots are complete and whose sums fit in 63 bits: the results of an additive
-- tally hold the sums of the decrypted votes, and name the choices with the greatest sum.
pub tally_additive-sums :
    (decrypt : Bytes → Bytes) (poll : Poll)
    → IsCountable decrypt poll
    → tally_additive decrypt poll
      ≡ some (
          results_of poll poll.method
            (written (sums decrypt poll))
            (find_winners (written (sums decrypt poll))))
unfolding tally_additive
tally_additive-sums decrypt poll (complete, fit) =
    ap (results_with poll poll.method find_winners)
      (additive_tallies-columns decrypt (ballots_of poll.votes) (length poll.choices) complete fit)

find_winners-bound : (ts : List Bytes) (i : ℕ) → find_winners ts ≡ i ∷ [] → i < length ts
unfolding find_winners
find_winners-bound ts i e =
    let bound = positions_of-bound _ 0 i ts (ap (listed i) e ∙ ground arith) in omega (arith, bound)

pub column_at :
    (decrypt : Bytes → Bytes) (n i : ℕ) (bs : List (List Bytes))
    → i < n
    → get_or (columns decrypt 0 n bs) i 0 ≡ column decrypt i bs
column_at decrypt n i bs h =
    let at : 0 + i ≡ i = omega arith in
    get_or-columns decrypt 0 n i bs h ∙ ap (λ k. column decrypt k bs) at

-- In a poll whose ballots are complete and whose sums fit in 63 bits: the choice that an additive
-- tally declares the winner has a strictly greater sum of decrypted votes than any other choice.
pub tally_additive-winner :
    (decrypt : Bytes → Bytes) (poll : Poll) (results : PollResults) (i j : ℕ)
    → IsCountable decrypt poll
    → tally_additive decrypt poll ≡ some results
    → results.winner ≡ some (pos i)
    → j < length poll.choices
    → j ≢ i
    → column decrypt j (ballots_of poll.votes) < column decrypt i (ballots_of poll.votes)
tally_additive-winner decrypt poll results i j countable returned won hj other =
    let n = length poll.choices in
    let s = sums decrypt poll in
    let same : results_of poll poll.method (written s) (find_winners (written s)) ≡ results =
      some-injective _ _ (sym (tally_additive-sums decrypt poll countable) ∙ returned) in
    let only = single_winner-only (find_winners (written s)) i (ap (λ r. r.winner) same ∙ won) in
    let size : length s ≡ n = length-columns decrypt 0 n (ballots_of poll.votes) in
    let hi = find_winners-bound (written s) i only in
    let hi' : i < n = omega (arith, hi, size, length-map s (λ v. int_to_bytes (pos v))) in
    let more =
      only_winner-beats s i j countable.1 only (omega (arith, hi', size)) (omega (arith, size))
        other in
    subst₂ (λ a b. a < b) (column_at decrypt n j (ballots_of poll.votes) hj)
      (column_at decrypt n i (ballots_of poll.votes) hi') more

reaching-below : (q : ℤ) (k j : ℕ) (ts : List Bytes) → j < k → listed j (reaching q k ts) ≡ false
unfolding reaching
reaching-below q k j [] h = refl
reaching-below q k j (t ∷ ts) h = ground (arith, reaching-below q (suc k) j ts (omega arith))

reaching-listed :
    (q k i : ℕ) (vs : List ℕ)
    → AllFit vs
    → i < length vs
    → listed (k + i) (reaching (pos q) k (written vs)) ≡ leb q (get_or vs i 0)
unfolding reaching
reaching-listed q k i [] fit h = absurd (omega arith)
reaching-listed q k zero (v ∷ vs) fit h =
    rw (bytes_to_int-int_to_bytes v fit.0)
      (ground (arith, reaching-below (pos q) (suc k) k (written vs) (omega arith)))
reaching-listed q k (suc i) (v ∷ vs) fit h =
    ground (arith, reaching-listed q (suc k) i vs fit.1 (omega arith))

-- Of counts that fit in 63 bits, a choice reaches the consensus threshold exactly where its count is
-- at least 95 of 100 of the voters; 95 of 100 themselves are enough.
pub consensus-listed :
    (voters i : ℕ) (vs : List ℕ)
    → AllFit vs
    → i < length vs
    → listed i (reaching (pos (consensus_threshold voters)) 0 (written vs))
      ≡ leb (95 * voters) (100 * get_or vs i 0)
consensus-listed voters i vs fit h =
    let at : i ≡ 0 + i = omega arith in
    ap (λ j. listed j (reaching (pos (consensus_threshold voters)) 0 (written vs))) at
    ∙ reaching-listed (consensus_threshold voters) 0 i vs fit h
    ∙ ground arith
