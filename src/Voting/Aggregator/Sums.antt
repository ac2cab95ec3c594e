-- ===== src/Voting/Aggregator/Sums.antt =====
-- What the aggregators of src/hierarchical_aggregator.cpp add up, for an encryption whose texts can
-- be added.
use bright_chain_cpp.Prelude.{
  ℕ, zero, suc, ◌+◌, ◌≤◌, ◌<◌, ◌≡◌, refl, sym, ap, subst, ◌∙◌, ◌⊎◌, inl, inr, some, List, [], ◌∷◌,
  map, length, get_or, replicate, length-replicate, arith,
}
use bright_chain_cpp.Voting.Bytes.{Bytes}
use bright_chain_cpp.Voting.Tally.{Ballots, add_ballot, add_ballots}
use bright_chain_cpp.Voting.Aggregator.{
  JurisdictionLevel, AggregatedTally, Aggregator, join, children_of, total_voters, joined_tally,
  join_children, aggregate,
}

-- The number that a ciphertext stands for; none stands for zero.
abbrev pub amount : (Bytes → ℕ) → Bytes → ℕ
amount value [] = 0
amount value (x ∷ t) = value (x ∷ t)

-- Two ciphertexts whose sum is below the modulus are added to a ciphertext of the sum. Nothing is
-- said of other bytes.
abbrev pub IsAdditive : (Bytes → Type 0) → (Bytes → Bytes → Bytes) → (Bytes → ℕ) → ℕ → Type 0
IsAdditive IsCiphertext addition value modulus =
    (t c : Bytes)
    → IsCiphertext t
    → IsCiphertext c
    → amount value t + amount value c < modulus
    → IsCiphertext (addition t c) × (amount value (addition t c) ≡ amount value t + amount value c)

-- All children have a ciphertext for each of `n` choices.
abbrev pub AllPresent : (Bytes → Type 0) → ℕ → Ballots → Type 0
AllPresent IsCiphertext n [] = Unit
AllPresent IsCiphertext n (b ∷ bs) =
    ((n ≤ length b) × ((i : ℕ) → i < n → IsCiphertext (get_or b i [])))
    × AllPresent IsCiphertext n bs

-- What the children have for choice `i`.
abbrev pub amounts : (Bytes → ℕ) → ℕ → Ballots → ℕ
amounts value i [] = 0
amounts value i (b ∷ bs) = amount value (get_or b i []) + amounts value i bs

abbrev pub tallies_of : List AggregatedTally → Ballots
tallies_of = map (λ c. c.encrypted_tallies)

-- A sum is still empty, or a ciphertext.
abbrev IsSum : (Bytes → Type 0) → Bytes → Type 0
IsSum IsCiphertext t = (t ≡ []) ⊎ IsCiphertext t

amount-join :
    (IsCiphertext : Bytes → Type 0) (addition : Bytes → Bytes → Bytes) (value : Bytes → ℕ)
    (modulus : ℕ) (t c : Bytes)
    → IsAdditive IsCiphertext addition value modulus
    → IsSum IsCiphertext t
    → IsCiphertext c
    → amount value t + amount value c < modulus
    → IsCiphertext (join addition t c)
      × (amount value (join addition t c) ≡ amount value t + amount value c)
unfolding join
amount-join IsCiphertext addition value modulus [] c law sum present fits = (present, omega arith)
amount-join IsCiphertext addition value modulus (x ∷ t) c law (inl none_yet) present fits =
    absurd (cc)
amount-join IsCiphertext addition value modulus (x ∷ t) c law (inr is_one) present fits =
    law (x ∷ t) c is_one present fits

joined :
    (f : Bytes → Bytes → Bytes) (t c : Bytes) (acc b rs : List Bytes)
    → ((i : ℕ) → i < length acc → get_or rs i [] ≡ f (get_or acc i []) (get_or b i []))
    → (i : ℕ) → i < suc (length acc)
    → get_or (f t c ∷ rs) i [] ≡ f (get_or (t ∷ acc) i []) (get_or (c ∷ b) i [])
joined f t c acc b rs each zero h = refl
joined f t c acc b rs each (suc i) h = each i (omega (arith, h))

add_ballot_lem :
    (f : Bytes → Bytes → Bytes) (acc b : List Bytes)
    → length acc ≤ length b
    → (rs : List Bytes) × (add_ballot f acc b ≡ some rs)
      × (length rs ≡ length acc)
      × ((i : ℕ) → i < length acc → get_or rs i [] ≡ f (get_or acc i []) (get_or b i []))
unfolding add_ballot
add_ballot_lem f [] b h = ([], refl, refl, λ i hi. absurd (omega (arith, hi)))
add_ballot_lem f (t ∷ acc) [] h = absurd (omega (arith, h))
add_ballot_lem f (t ∷ acc) (c ∷ b) h =
    let (rs, same, size, each) = add_ballot_lem f acc b (omega (arith, h)) in
    (f t c ∷ rs, rw same refl, ap suc size, joined f t c acc b rs each)

add_ballots-amounts :
    (IsCiphertext : Bytes → Type 0) (addition : Bytes → Bytes → Bytes) (value : Bytes → ℕ)
    (modulus : ℕ) (bs : Ballots) (n : ℕ) (acc : List Bytes)
    → IsAdditive IsCiphertext addition value modulus
    → length acc ≡ n
    → AllPresent IsCiphertext n bs
    → (rs : List Bytes) × (add_ballots (join addition) bs (some acc) ≡ some rs)
      × (length rs ≡ n)
      × ((i : ℕ)
          → i < n
          → IsSum IsCiphertext (get_or acc i [])
          → amount value (get_or acc i []) + amounts value i bs < modulus
          → amount value (get_or rs i []) ≡ amount value (get_or acc i []) + amounts value i bs)
unfolding add_ballots
add_ballots-amounts IsCiphertext addition value modulus [] n acc law len present =
    (acc, refl, len, λ i h sum fits. omega arith)
add_ballots-amounts IsCiphertext addition value modulus (b ∷ bs) n acc law len
      ((long, full), present) =
    let (ms, first, size, each) = add_ballot_lem (join addition) acc b (omega (arith, len, long)) in
    let (rs, later, count, sums) =
      add_ballots-amounts IsCiphertext addition value modulus bs n ms law (size ∙ len) present in
    (
      rs,
      ap (add_ballots (join addition) bs) first ∙ later,
      count,
      λ i h sum fits.
          let at = each i (omega (arith, h, len)) in
          let (is_one, adds) =
            amount-join IsCiphertext addition value modulus (get_or acc i []) (get_or b i []) law
              sum (full i h) (omega (arith, fits)) in
          let here : amount value (get_or ms i [])
              ≡ amount value (get_or acc i []) + amount value (get_or b i []) =
            ap (amount value) at ∙ adds in
          let next : IsSum IsCiphertext (get_or ms i []) =
            inr (subst IsCiphertext (sym at) is_one) in
          omega (arith, here, sums i h next (omega (arith, here, fits))),
    )

get_or-replicate : (n i : ℕ) → get_or {A = Bytes} (replicate n []) i [] ≡ []
get_or-replicate zero i = refl
get_or-replicate (suc n) zero = refl
get_or-replicate (suc n) (suc i) = get_or-replicate n i

-- Where ciphertexts are added to ciphertexts of the sum while that is below the modulus, and each
-- child has a ciphertext, not the empty text of a precinct without votes, for every choice of the
-- first child: an aggregator that has a child returns a tally, of as many choices as the first child
-- has and of the voters of all children; for a choice whose sum stays below the modulus, it holds the
-- sum of what the children hold.
pub aggregate-amounts :
    (IsCiphertext : Bytes → Type 0) (addition : Bytes → Bytes → Bytes) (value : Bytes → ℕ)
    (modulus : ℕ) (level : JurisdictionLevel) (now : ℕ) (a : Aggregator) (c : AggregatedTally)
    (cs : List AggregatedTally) (i : ℕ)
    → IsAdditive IsCiphertext addition value modulus
    → children_of a.tallies ≡ c ∷ cs
    → AllPresent IsCiphertext (length c.encrypted_tallies) (tallies_of (c ∷ cs))
    → i < length c.encrypted_tallies
    → amounts value i (tallies_of (c ∷ cs)) < modulus
    → (r : AggregatedTally) × (aggregate addition level now a ≡ some r)
      × (length r.encrypted_tallies ≡ length c.encrypted_tallies)
      × (r.voter_count ≡ total_voters (c ∷ cs))
      × (amount value (get_or r.encrypted_tallies i []) ≡ amounts value i (tallies_of (c ∷ cs)))
unfolding aggregate
aggregate-amounts IsCiphertext addition value modulus level now a c cs i law children present hi
      fits =
    let n = length c.encrypted_tallies in
    let (rs, same, size, sums) =
      add_ballots-amounts IsCiphertext addition value modulus (tallies_of (c ∷ cs)) n
        (replicate n []) law (length-replicate n []) present in
    let start : amount value (get_or (replicate n []) i []) ≡ 0 =
      ap (amount value) (get_or-replicate n i) in
    (
      _,
      ap (join_children addition level now a.config) children
          ∙ ap (joined_tally level now a.config (c ∷ cs)) same,
      size,
      refl,
      omega (arith, start, sums i hi (inl (get_or-replicate n i)) (omega (arith, start, fits))),
    )
