-- ===== src/Voting/Ballot/Checks.antt =====
-- What the checks of `validateVote` of src/poll.cpp let pass.
use bright_chain_cpp.Prelude.{ℕ, ◌≡◌, ◌≢◌, refl, true, Option, none, some, List, [], ◌∷◌, arith}
use bright_chain_cpp.Prelude.Int.{ℤ}
use bright_chain_cpp.Voting.Bytes.{Bytes}
use bright_chain_cpp.Voting.Method.{
  VotingMethod, plurality, approval, weighted, borda, ranked_choice,
}
use bright_chain_cpp.Voting.Ballot.{
  EncryptedVote, in_range, eq_int, seen_before, check_each, check_all, check_choice, check_choices,
  check_weight, check_rankings, check_method,
}

abbrev pub Absent : ℤ → List ℤ → Type 0
Absent r [] = Unit
Absent r (s ∷ rs) = (s ≢ r) × Absent r rs

abbrev pub InRange : ℕ → List ℤ → Type 0
InRange count [] = Unit
InRange count (r ∷ rs) = (in_range count r ≡ true) × InRange count rs

-- A ranking names choices of the poll, each at most once.
abbrev pub Distinct : List ℤ → Type 0
Distinct [] = Unit
Distinct (r ∷ rs) = Absent r rs × Distinct rs

eq_int-eq : (a b : ℤ) → eq_int a b ≡ true → a ≡ b
eq_int-eq a b h = ground arith

eq_int_refl : (a : ℤ) → eq_int a a ≡ true
eq_int_refl a = ground arith

check_each-range :
    (count : ℕ) (seen rs : List ℤ) → check_each count seen rs ≡ none → InRange count rs
unfolding check_each
check_each-range count seen [] h = tt
check_each-range count seen (r ∷ rs) h =
    (ground arith, check_each-range count (r ∷ seen) rs (ground arith))

-- Whatever is still to come has not been seen.
check_each-fresh :
    (count : ℕ) (s : ℤ) (seen rs : List ℤ)
    → seen_before s seen ≡ true
    → check_each count seen rs ≡ none
    → Absent s rs
unfolding check_each
check_each-fresh count s seen [] old h = tt
check_each-fresh count s seen (r ∷ rs) old h = (
  λ same. absurd (ground (arith, same, eq_int_refl r)),
  check_each-fresh count s (r ∷ seen) rs (ground arith) (ground arith),
)

check_each-Distinct : (count : ℕ) (seen rs : List ℤ) → check_each count seen rs ≡ none → Distinct rs
unfolding check_each
check_each-Distinct count seen [] h = tt
check_each-Distinct count seen (r ∷ rs) h = (
  check_each-fresh count r (r ∷ seen) rs (ground (arith, eq_int_refl r)) (ground arith),
  check_each-Distinct count (r ∷ seen) rs (ground arith),
)

check_all-range : (count : ℕ) (cs : List ℤ) → check_all count cs ≡ none → InRange count cs
check_all-range count [] h = tt
check_all-range count (c ∷ cs) h = (ground arith, check_all-range count cs (ground arith))

-- A ranking that passes is not empty and names choices of the poll, none twice.
abbrev pub IsRanking : ℕ → Option (List ℤ) → Type 0
IsRanking count o = (rs : List ℤ) × (o ≡ some rs) × (rs ≢ []) × InRange count rs × Distinct rs

abbrev pub IsWellFormed : VotingMethod → ℕ → EncryptedVote → Type 0
IsWellFormed plurality count v = (c : ℤ) × (v.choice_index ≡ some c) × (in_range count c ≡ true)
IsWellFormed approval count v = (cs : List ℤ) × (v.choices ≡ some cs) × (cs ≢ []) × InRange count cs
IsWellFormed weighted count v =
    (c : ℤ) × (w : Bytes) × (v.choice_index ≡ some c) × (v.weight ≡ some w) × (w ≢ [])
IsWellFormed borda count v = IsRanking count v.rankings
IsWellFormed ranked_choice count v = IsRanking count v.rankings
IsWellFormed _ count v = Unit

cons≢nil : (x : ℤ) (xs : List ℤ) → (x ∷ xs) ≢ []
cons≢nil x xs e = cc

check_rankings-IsRanking :
    (count : ℕ) (o : Option (List ℤ)) → check_rankings count o ≡ none → IsRanking count o
unfolding check_rankings
check_rankings-IsRanking count none h = absurd (cc)
check_rankings-IsRanking count (some []) h = absurd (cc)
check_rankings-IsRanking count (some (r ∷ rs)) h = (
  r ∷ rs,
  refl,
  cons≢nil r rs,
  check_each-range count [] (r ∷ rs) h,
  check_each-Distinct count [] (r ∷ rs) h,
)

check_choice-range :
    (count : ℕ) (o : Option ℤ)
    → check_choice count o ≡ none
    → (c : ℤ) × (o ≡ some c) × (in_range count c ≡ true)
check_choice-range count none h = absurd (cc)
check_choice-range count (some c) h = (c, refl, ground arith)

check_choices-range :
    (count : ℕ) (o : Option (List ℤ))
    → check_choices count o ≡ none
    → (cs : List ℤ) × (o ≡ some cs) × (cs ≢ []) × InRange count cs
check_choices-range count none h = absurd (cc)
check_choices-range count (some []) h = absurd (cc)
check_choices-range count (some (c ∷ cs)) h =
    (c ∷ cs, refl, cons≢nil c cs, check_all-range count (c ∷ cs) h)

check_weight-present :
    (o : Option ℤ) (max w : Option Bytes)
    → check_weight o max w ≡ none
    → (c : ℤ) × (b : Bytes) × (o ≡ some c) × (w ≡ some b) × (b ≢ [])
unfolding check_weight
check_weight-present none max w h = absurd (cc)
check_weight-present (some c) max none h = absurd (cc)
check_weight-present (some c) max (some []) h = absurd (cc)
check_weight-present (some c) max (some (b ∷ bs)) h = (c, b ∷ bs, refl, refl, λ e. cc)

pub check_method-IsWellFormed :
    (m : VotingMethod) (count : ℕ) (max : Option Bytes) (v : EncryptedVote)
    → check_method m count max v ≡ none
    → IsWellFormed m count v
unfolding check_method
check_method-IsWellFormed plurality count max v h = check_choice-range count v.choice_index h
check_method-IsWellFormed approval count max v h = check_choices-range count v.choices h
check_method-IsWellFormed weighted count max v h =
    check_weight-present v.choice_index max v.weight h
check_method-IsWellFormed borda count max v h = check_rankings-IsRanking count v.rankings h
check_method-IsWellFormed ranked_choice count max v h = check_rankings-IsRanking count v.rankings h
check_method-IsWellFormed _ count max v h = tt
