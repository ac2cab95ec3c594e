-- ===== src/Voting/Method.antt =====
-- include/brightchain/voting_method.hpp and src/voting_method.cpp.
pub mod Names
use bright_chain_cpp.Prelude.{String, Option, none, some, List, [], ◌∷◌, str_eq, if◌then◌else◌}

pub data VotingMethod : Type 0 where
  plurality approval weighted borda score yes_no yes_no_abstain supermajority ranked_choice
        two_round star stv quadratic consensus consent_based :
      VotingMethod

pub data SecurityLevel : Type 0 where
  fully_homomorphic multi_round insecure : SecurityLevel

-- `METHOD_TO_STRING`, in the order of the enumeration, which is that of the map.
abbrev pub method_to_string : List (VotingMethod × String)
method_to_string =
    (plurality, "plurality")
    ∷ (approval, "approval")
    ∷ (weighted, "weighted")
    ∷ (borda, "borda")
    ∷ (score, "score")
    ∷ (yes_no, "yes-no")
    ∷ (yes_no_abstain, "yes-no-abstain")
    ∷ (supermajority, "supermajority")
    ∷ (ranked_choice, "ranked-choice")
    ∷ (two_round, "two-round")
    ∷ (star, "star")
    ∷ (stv, "stv")
    ∷ (quadratic, "quadratic")
    ∷ (consensus, "consensus")
    ∷ (consent_based, "consent-based")
    ∷ []

unfoldable pub voting_method_to_string : VotingMethod → String
voting_method_to_string plurality = "plurality"
voting_method_to_string approval = "approval"
voting_method_to_string weighted = "weighted"
voting_method_to_string borda = "borda"
voting_method_to_string score = "score"
voting_method_to_string yes_no = "yes-no"
voting_method_to_string yes_no_abstain = "yes-no-abstain"
voting_method_to_string supermajority = "supermajority"
voting_method_to_string ranked_choice = "ranked-choice"
voting_method_to_string two_round = "two-round"
voting_method_to_string star = "star"
voting_method_to_string stv = "stv"
voting_method_to_string quadratic = "quadratic"
voting_method_to_string consensus = "consensus"
voting_method_to_string consent_based = "consent-based"

-- The first method with the name; `none` for the exception.
unfoldable pub find_method : List (VotingMethod × String) → String → Option VotingMethod
find_method [] str = none
find_method ((method, name) ∷ rest) str =
    let later = find_method rest str in if str_eq name str then some method else later

unfoldable pub string_to_voting_method : String → Option VotingMethod
unfolding find_method
string_to_voting_method str = find_method method_to_string str

unfoldable pub get_security_level : VotingMethod → SecurityLevel
get_security_level ranked_choice = multi_round
get_security_level two_round = multi_round
get_security_level star = multi_round
get_security_level stv = multi_round
get_security_level quadratic = insecure
get_security_level consensus = insecure
get_security_level consent_based = insecure
get_security_level _ = fully_homomorphic
