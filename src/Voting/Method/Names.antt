-- ===== src/Voting/Method/Names.antt =====
-- The names of the voting methods: src/voting_method.cpp.
use bright_chain_cpp.Prelude.{◌≡◌, refl, some}
use bright_chain_cpp.Voting.Method.{
  VotingMethod, plurality, approval, weighted, borda, score, yes_no, yes_no_abstain, supermajority,
  ranked_choice, two_round, star, stv, quadratic, consensus, consent_based, string_to_voting_method,
  voting_method_to_string,
}

-- The name of each method is read back as that method.
string_to_voting_method-voting_method_to_string :
    (m : VotingMethod) → string_to_voting_method (voting_method_to_string m) ≡ some m
unfolding string_to_voting_method voting_method_to_string
string_to_voting_method-voting_method_to_string plurality = refl
string_to_voting_method-voting_method_to_string approval = refl
string_to_voting_method-voting_method_to_string weighted = refl
string_to_voting_method-voting_method_to_string borda = refl
string_to_voting_method-voting_method_to_string score = refl
string_to_voting_method-voting_method_to_string yes_no = refl
string_to_voting_method-voting_method_to_string yes_no_abstain = refl
string_to_voting_method-voting_method_to_string supermajority = refl
string_to_voting_method-voting_method_to_string ranked_choice = refl
string_to_voting_method-voting_method_to_string two_round = refl
string_to_voting_method-voting_method_to_string star = refl
string_to_voting_method-voting_method_to_string stv = refl
string_to_voting_method-voting_method_to_string quadratic = refl
string_to_voting_method-voting_method_to_string consensus = refl
string_to_voting_method-voting_method_to_string consent_based = refl
