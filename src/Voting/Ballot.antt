-- ===== src/Voting/Ballot.antt =====
-- The ballots of include/brightchain/encrypted_vote.hpp, and the checks that `validateVote` of
-- src/poll.cpp makes of them.
pub mod Checks
use Prim.Native.Char.{Char}
use bright_chain_cpp.Prelude.{
  ℕ, zero, suc, ◌+◌, ◌-◌, ◌/◌, ◌%◌, ◌^◌, String, Bool, true, false, not, ◌&&◌, ◌||◌, Option, none,
  some, ◌⊎◌, inl, inr, List, [], ◌∷◌, ◌++◌, map, length, ltb, leb, ◌==◌, if◌then◌else◌,
}
use bright_chain_cpp.Prelude.Int.{ℤ, pos, negsuc}
use bright_chain_cpp.Prelude.Map.{Map, find, contains, put}
use bright_chain_cpp.Voting.Bytes.{Bytes}
use bright_chain_cpp.Voting.Method.{
  VotingMethod, SecurityLevel, plurality, approval, weighted, borda, ranked_choice,
  get_security_level, insecure,
}

pub record EncryptedVote : Type 0 where
  pub choice_index : Option ℤ
  pub choices : Option (List ℤ)
  pub rankings : Option (List ℤ)
  pub weight : Option Bytes
  pub score : Option ℤ
  pub encrypted : List Bytes

pub data PollError : Type 0 where
  too_few_choices no_voting_keys not_secure is_closed already_voted choice_required invalid_choice
        choices_required weight_not_positive weight_too_large rankings_required duplicate_ranking
        data_required no_signature already_closed :
      PollError

-- The comparison of weights: the longer text of bytes is the greater one, and texts of one length
-- are compared from their first byte on.
abbrev pub compare_bytes : Bytes → Bytes → Bool
compare_bytes [] b = false
compare_bytes (x ∷ a) [] = false
compare_bytes (x ∷ a) (y ∷ b) = let rest = compare_bytes a b in if x == y then rest else ltb x y

unfoldable pub compare_bigint_bytes : Bytes → Bytes → Bool
compare_bigint_bytes a b =
    if length a == length b then compare_bytes a b else ltb (length a) (length b)

-- `0 <= c && c < count`
abbrev pub in_range : ℕ → ℤ → Bool
in_range count (pos c) = ltb c count
in_range count (negsuc c) = false

abbrev pub eq_int : ℤ → ℤ → Bool
eq_int (pos a) (pos b) = a == b
eq_int (negsuc a) (negsuc b) = a == b
eq_int _ _ = false

abbrev pub seen_before : ℤ → List ℤ → Bool
seen_before r [] = false
seen_before r (s ∷ seen) = eq_int s r || seen_before r seen

abbrev pub is_empty {ℓ} : {A : Type ℓ} → List A → Bool
is_empty [] = true
is_empty (x ∷ xs) = false

-- The checks of `validateVote`: `none` where they pass.
abbrev pub check_choice : ℕ → Option ℤ → Option PollError
check_choice count none = some choice_required
check_choice count (some c) = if in_range count c then none else some invalid_choice

abbrev pub check_all : ℕ → List ℤ → Option PollError
check_all count [] = none
check_all count (c ∷ cs) =
    let rest = check_all count cs in if in_range count c then rest else some invalid_choice

abbrev pub check_choices : ℕ → Option (List ℤ) → Option PollError
check_choices count none = some choices_required
check_choices count (some []) = some choices_required
check_choices count (some (c ∷ cs)) = check_all count (c ∷ cs)

unfoldable pub check_weight : Option ℤ → Option Bytes → Option Bytes → Option PollError
unfolding compare_bigint_bytes
check_weight none max w = some choice_required
check_weight (some c) max none = some weight_not_positive
check_weight (some c) max (some []) = some weight_not_positive
check_weight (some c) none (some (b ∷ w)) = none
check_weight (some c) (some m) (some (b ∷ w)) =
    if compare_bigint_bytes m (b ∷ w) then some weight_too_large else none

unfoldable pub check_each : ℕ → List ℤ → List ℤ → Option PollError
check_each count seen [] = none
check_each count seen (r ∷ rs) =
    let rest = check_each count (r ∷ seen) rs in
    if not (in_range count r)
    then some invalid_choice
    else if seen_before r seen
    then some duplicate_ranking
    else rest

unfoldable pub check_rankings : ℕ → Option (List ℤ) → Option PollError
unfolding check_each
check_rankings count none = some rankings_required
check_rankings count (some []) = some rankings_required
check_rankings count (some (r ∷ rs)) = check_each count [] (r ∷ rs)

unfoldable pub check_method : VotingMethod → ℕ → Option Bytes → EncryptedVote → Option PollError
unfolding check_weight check_rankings
check_method plurality count max v = check_choice count v.choice_index
check_method approval count max v = check_choices count v.choices
check_method weighted count max v = check_weight v.choice_index max v.weight
check_method borda count max v = check_rankings count v.rankings
check_method ranked_choice count max v = check_rankings count v.rankings
check_method _ count max v = none

abbrev pub check_data : List Bytes → Option PollError → Option PollError
check_data encrypted (some err) = some err
check_data [] none = some data_required
check_data (c ∷ encrypted) none = none
