-- ===== src/Voting/Tests.antt =====
-- Instances of the theorems on src/poll.cpp, src/poll_tallier.cpp, src/vote_encoder.cpp and
-- src/voting_method.cpp.
mod Rounds
mod Aggregates
use bright_chain_cpp.Prelude.{
  ◌<◌, ◌≡◌, refl, true, none, some, List, [], ◌∷◌, arith, leb, ◌==◌, ◌*◌,
}
use bright_chain_cpp.Prelude.Int.{pos}
use bright_chain_cpp.Prelude.Map.{contains, put}
use bright_chain_cpp.Voting.Bytes.{
  Bytes, bytes_to_int, int_to_bytes, add_int64, add_bigint_bytes, compare_bigint_bytes,
}
use bright_chain_cpp.Voting.Bytes.RoundTrip.{bytes_to_int-int_to_bytes}
use bright_chain_cpp.Voting.Method.{
  plurality, star, string_to_voting_method, voting_method_to_string,
}
use bright_chain_cpp.Voting.Ballot.{EncryptedVote, check_method}
use bright_chain_cpp.Voting.Poll.{
  Poll, Authority, VoteReceipt, accepted, vote, verify_receipt, to_key, receipt_data, validate_vote,
  cast_valid, store_vote, store_receipt, generate_receipt, unsigned_receipt, digit,
}
use bright_chain_cpp.Voting.Poll.Ballots.{Call, cast, shut, run, HasVoted}
use bright_chain_cpp.Voting.Poll.Accepted.{
  IsAccepted, vote-IsAccepted, accepted_vote_stays, IsSound, receipt_verifies,
}
use bright_chain_cpp.Voting.Tally.{
  ballots_of, tally_additive, max_tally, positions_of, results_of, find_winners, additive_tallies,
  reaching, consensus_threshold, add_objection, add_support,
}
use bright_chain_cpp.Voting.Tally.Rows.{column, written}
use bright_chain_cpp.Voting.Tally.Winners.{listed, maximum, find_winners-listed}
use bright_chain_cpp.Voting.Tally.Results.{
  sums, IsCountable, tally_additive-sums, tally_additive-winner, consensus-listed,
}
use bright_chain_cpp.Voting.Ranked.{tally_ranked_choice}
use bright_chain_cpp.Voting.Ranked.Termination.{Returns, tally_ranked_choice-Returns}
use bright_chain_cpp.Voting.TwoRound.{
  TallySort, numbered, descending, decide_two_round, second_round, tally_two_round,
}
use bright_chain_cpp.Voting.TwoRound.Leader.{IsFirst, tally_two_round-winner}
use bright_chain_cpp.Voting.Stv.{
  Count, count_seats, count_step, elect, eliminate_first, meeting_quota, insert_all, quota_of,
  tally_stv,
}
use bright_chain_cpp.Voting.Stv.Termination.{KeepsElements, tally_stv-returns}
use bright_chain_cpp.Voting.Tallier.{tally, counted}
use bright_chain_cpp.Voting.Tallier.Totality.{KeepsLength, tally_returns}
use bright_chain_cpp.Voting.Encoder.{Encrypt}
use bright_chain_cpp.Voting.Encoder.Counting.{
  KeepsBytes, plurality_ballots, counts, plurality_tallies,
}

-- An authority that signs with a copy of the text.
abbrev authority : Authority
authority = record {
  has_voting_keys = true;
  sign = λ text. some text;
  verify = λ text signature. true;
}

authority-IsSound : IsSound authority
authority-IsSound text = refl

abbrev poll : Poll
poll = record {
  id = 7 ∷ [];
  choices = "yes" ∷ "no" ∷ [];
  method = plurality;
  votes = [];
  receipts = [];
  created_at = 0;
  closed_at = none;
  max_weight = none;
}

abbrev ann : Bytes
ann = 1 ∷ 171 ∷ []

abbrev vote_for_no : EncryptedVote
vote_for_no = record {
  choice_index = some (pos 1);
  choices = none;
  rankings = none;
  weight = none;
  score = none;
  encrypted = (0 ∷ []) ∷ (1 ∷ []) ∷ [];
}

abbrev receipt : VoteReceipt
receipt = record {
  voter_id = ann;
  poll_id = 7 ∷ [];
  timestamp = 5;
  signature = 1 ∷ 171 ∷ 7 ∷ 5 ∷ 0 ∷ 0 ∷ 0 ∷ 0 ∷ 0 ∷ 0 ∷ 0 ∷ 9 ∷ [];
  nonce = 9 ∷ [];
}

abbrev voted_poll : Poll
voted_poll = record poll {
  votes = ("01ab", (0 ∷ []) ∷ (1 ∷ []) ∷ []) ∷ [];
  receipts = ("01ab", receipt) ∷ [];
}

first_vote : vote authority poll ann 5 (9 ∷ []) vote_for_no ≡ (voted_poll, accepted receipt)
unfolding vote validate_vote cast_valid store_vote store_receipt generate_receipt unsigned_receipt
    to_key digit receipt_data check_method contains put
first_vote = refl

vote-IsAccepted_example : IsAccepted authority poll ann vote_for_no voted_poll receipt
vote-IsAccepted_example =
    vote-IsAccepted authority poll ann 5 (9 ∷ []) vote_for_no voted_poll receipt first_vote

abbrev later_calls : List Call
later_calls = cast ann 6 (8 ∷ []) vote_for_no ∷ shut 7 ∷ []

accepted_vote_stays_example :
    HasVoted (to_key ann) ((0 ∷ []) ∷ (1 ∷ []) ∷ []) (run authority later_calls voted_poll)
accepted_vote_stays_example =
    accepted_vote_stays authority poll ann 5 (9 ∷ []) vote_for_no voted_poll receipt later_calls
      first_vote

abbrev bob : Bytes
bob = 2 ∷ []

abbrev vote_of_bob : List Call
vote_of_bob = cast bob 6 (8 ∷ []) vote_for_no ∷ []

bob_voted : contains (to_key bob) (run authority vote_of_bob voted_poll).receipts ≡ true
unfolding vote validate_vote cast_valid store_vote store_receipt generate_receipt unsigned_receipt
    to_key digit receipt_data check_method contains put
bob_voted = refl

receipt_verifies_example :
    (verify_receipt authority (run authority vote_of_bob voted_poll) ann receipt ≡ true)
    × (verify_receipt authority (run authority vote_of_bob voted_poll) bob receipt ≡ true)
receipt_verifies_example =
    receipt_verifies authority poll ann 5 (9 ∷ []) vote_for_no voted_poll receipt vote_of_bob bob
      authority-IsSound first_vote bob_voted

abbrev closed_poll : Poll
closed_poll = record voted_poll { closed_at = some 8 }

bytes_to_int-int_to_bytes_example : bytes_to_int (int_to_bytes (pos 65281)) ≡ pos 65281
bytes_to_int-int_to_bytes_example = bytes_to_int-int_to_bytes 65281 (omega arith)

-- A cipher that leaves every text as it is.
abbrev open_text : Bytes → Bytes
open_text c = c

closed_poll-IsCountable : IsCountable open_text closed_poll
closed_poll-IsCountable = ((omega arith, tt), (omega arith, (omega arith, tt)))

no_wins :
    (results_of closed_poll plurality
      (written (sums open_text closed_poll))
      (find_winners (written (sums open_text closed_poll)))).winner
    ≡ some (pos 1)
unfolding find_winners max_tally positions_of compare_bigint_bytes bytes_to_int int_to_bytes
no_wins = refl

tally_additive-winner_example :
    column open_text 0 (ballots_of closed_poll.votes)
    < column open_text 1 (ballots_of closed_poll.votes)
tally_additive-winner_example =
    tally_additive-winner open_text closed_poll _ 1 0 closed_poll-IsCountable
      (tally_additive-sums open_text closed_poll closed_poll-IsCountable) no_wins (omega arith)
      (λ e. omega arith)

-- 95 of 100 are enough.
consensus-listed_example :
    listed 0 (reaching (pos (consensus_threshold 100)) 0 (written (95 ∷ [])))
    ≡ leb (95 * 100) (100 * 95)
consensus-listed_example = consensus-listed 100 0 (95 ∷ []) (omega arith, tt) (omega arith)

tally_ranked_choice-Returns_example :
    Returns 2 (tally_ranked_choice (λ ranks. ranks) open_text closed_poll)
tally_ranked_choice-Returns_example =
    tally_ranked_choice-Returns (λ ranks. ranks) open_text closed_poll (omega arith)
      (omega arith, tt)

abbrev plain_encrypt : Encrypt
plain_encrypt k text = text

plain-KeepsBytes : KeepsBytes plain_encrypt open_text
plain-KeepsBytes k b = omega arith

plurality_tallies_example :
    additive_tallies open_text (plurality_ballots plain_encrypt 3 (0 ∷ 2 ∷ 2 ∷ [])) 3
    ≡ some (written (counts 0 3 (0 ∷ 2 ∷ 2 ∷ [])))
plurality_tallies_example =
    plurality_tallies plain_encrypt open_text 3 (0 ∷ 2 ∷ 2 ∷ []) plain-KeepsBytes (omega arith)
