-- ===== src/Voting/Aggregator/Precincts.antt =====
-- What `PrecinctAggregator::getTally` of src/hierarchical_aggregator.cpp holds.
use bright_chain_cpp.Prelude.{
  ℕ, suc, ◌≡◌, refl, ap, ◌∙◌, List, [], ◌∷◌, ◌++◌, length, replicate, length-replicate, arith,
}
use bright_chain_cpp.Voting.Bytes.{Bytes}
use bright_chain_cpp.Voting.Tally.{Ballots, ballots_of}
use bright_chain_cpp.Voting.Aggregator.{
  PrecinctAggregator, store_ballot, store_ballots, precinct_tally,
}

store_ballot-full : (ts b : List Bytes) → length b ≡ length ts → store_ballot ts b ≡ b
unfolding store_ballot
store_ballot-full [] [] h = refl
store_ballot-full [] (c ∷ b) h = absurd (omega (arith, h))
store_ballot-full (t ∷ ts) [] h = absurd (omega (arith, h))
store_ballot-full (t ∷ ts) (c ∷ b) h = ap (λ r. c ∷ r) (store_ballot-full ts b (omega (arith, h)))

length-store_ballot : (ts b : List Bytes) → length (store_ballot ts b) ≡ length ts
unfolding store_ballot
length-store_ballot [] b = refl
length-store_ballot (t ∷ ts) [] = refl
length-store_ballot (t ∷ ts) (c ∷ b) = ap suc (length-store_ballot ts b)

store_ballots-last :
    (bs : Ballots) (b ts : List Bytes)
    → length b ≡ length ts
    → store_ballots (bs ++ (b ∷ [])) ts ≡ b
unfolding store_ballots
store_ballots-last [] b ts h = store_ballot-full ts b h
store_ballots-last (b' ∷ bs) b ts h =
    store_ballots-last bs b (store_ballot ts b') (omega (arith, h, length-store_ballot ts b'))

-- Where the last ballot in the order of the voters' keys has a ciphertext for each choice and no more:
-- the tally of a precinct is that ballot. The ballots of the voters before it count for nothing.
pub precinct_tally-last :
    (now : ℕ) (a : PrecinctAggregator) (bs : Ballots) (b : List Bytes)
    → ballots_of a.poll.votes ≡ bs ++ (b ∷ [])
    → length b ≡ length a.poll.choices
    → (precinct_tally now a).encrypted_tallies ≡ b
unfolding precinct_tally
precinct_tally-last now a bs b last full =
    let empty : List Bytes = replicate (length a.poll.choices) [] in
    let size : length empty ≡ length a.poll.choices = length-replicate (length a.poll.choices) [] in
    ap (λ ballots. store_ballots ballots empty) last
    ∙ store_ballots-last bs b empty (omega (arith, full, size))
