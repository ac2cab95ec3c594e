-- ===== src/Voting/Tally/Counts.antt =====
-- Complete ballots are added up without a read out of range: src/poll_tallier.cpp.
use bright_chain_cpp.Prelude.{
  ℕ, suc, ◌≤◌, ◌≡◌, refl, sym, ap, ◌∙◌, subst, Option, some, List, [], ◌∷◌, length,
  length-replicate, arith,
}
use bright_chain_cpp.Prelude.Int.{pos}
use bright_chain_cpp.Voting.Bytes.{Bytes, int_to_bytes}
use bright_chain_cpp.Voting.Poll.{Poll}
use bright_chain_cpp.Voting.Tally.{
  Ballots, ballots_of, zero_tallies, cons_tally, add_ballot, add_ballots,
}
use bright_chain_cpp.Voting.Tally.Rows.{AllComplete}

-- Tallies for `n` choices.
abbrev pub Counts : ℕ → Option (List Bytes) → Type 0
Counts n o = (ts : List Bytes) × (o ≡ some ts) × (length ts ≡ n)

add_ballot-Counts :
    (add : Bytes → Bytes → Bytes) (ts b : List Bytes)
    → length ts ≤ length b
    → Counts (length ts) (add_ballot add ts b)
unfolding add_ballot
add_ballot-Counts add [] b h = ([], refl, refl)
add_ballot-Counts add (t ∷ ts) [] h = absurd (omega arith)
add_ballot-Counts add (t ∷ ts) (c ∷ b) h =
    let (rest, eq, size) = add_ballot-Counts add ts b (omega arith) in
    (add t c ∷ rest, ap (cons_tally (add t c)) eq, ap suc size)

add_ballots-Counts :
    (add : Bytes → Bytes → Bytes) (n : ℕ) (bs : Ballots) (ts : List Bytes)
    → AllComplete n bs
    → length ts ≡ n
    → Counts n (add_ballots add bs (some ts))
unfolding add_ballots
add_ballots-Counts add n [] ts h size = (ts, refl, size)
add_ballots-Counts add n (b ∷ bs) ts (h, hs) size =
    let (next, eq, kept) = add_ballot-Counts add ts b (omega (arith, h, size)) in
    subst (λ o. Counts n (add_ballots add bs o)) (sym eq)
      (add_ballots-Counts add n bs next hs (kept ∙ size))

length-zero_tallies : (n : ℕ) → length (zero_tallies n) ≡ n
unfolding zero_tallies
length-zero_tallies n = length-replicate n (int_to_bytes (pos 0))

pub poll-Counts :
    (add : Bytes → Bytes → Bytes) (poll : Poll)
    → AllComplete (length poll.choices) (ballots_of poll.votes)
    → Counts
        (length poll.choices)
        (add_ballots add (ballots_of poll.votes) (some (zero_tallies (length poll.choices))))
poll-Counts add poll h =
    add_ballots-Counts add (length poll.choices) (ballots_of poll.votes) _ h
      (length-zero_tallies (length poll.choices))
