-- ===== src/Voting/Tallier.antt =====
-- `PollTallier::tally` of src/poll_tallier.cpp.
pub mod Totality
use bright_chain_cpp.Prelude.{Bool, Option, none, some, if◌then◌else◌}
use bright_chain_cpp.Voting.Bytes.{Bytes}
use bright_chain_cpp.Voting.Method.{
  VotingMethod, plurality, approval, weighted, borda, score, yes_no, yes_no_abstain, supermajority,
  ranked_choice, two_round, star, stv, quadratic, consensus, consent_based,
}
use bright_chain_cpp.Voting.Poll.{Poll, has_time}
use bright_chain_cpp.Voting.Tally.{
  PollResults, tally_additive, tally_quadratic, tally_consensus, tally_consent_based,
}
use bright_chain_cpp.Voting.Ranked.{Sort, tally_ranked_choice}
use bright_chain_cpp.Voting.TwoRound.{TallySort, tally_two_round, tally_star}
use bright_chain_cpp.Voting.Stv.{tally_stv}

-- `tallyScored` and `tallyYesNo` call `tallyAdditive`. `none` stands for a read out of range, and in
-- the loops for fuel that ran out.
unfoldable pub tally_method :
    VotingMethod → Sort → TallySort → (Bytes → Bytes) → Poll → Option PollResults
unfolding tally_additive tally_quadratic tally_consensus tally_consent_based tally_ranked_choice
    tally_two_round tally_star tally_stv
tally_method ranked_choice sort_ranks sort decrypt poll =
    tally_ranked_choice sort_ranks decrypt poll
tally_method two_round sort_ranks sort decrypt poll = tally_two_round sort decrypt poll
tally_method star sort_ranks sort decrypt poll = tally_star sort decrypt poll
tally_method stv sort_ranks sort decrypt poll = tally_stv sort_ranks sort decrypt poll
tally_method quadratic sort_ranks sort decrypt poll = tally_quadratic decrypt poll
tally_method consensus sort_ranks sort decrypt poll = tally_consensus decrypt poll
tally_method consent_based sort_ranks sort decrypt poll = tally_consent_based decrypt poll
tally_method _ sort_ranks sort decrypt poll = tally_additive decrypt poll

pub data TallyResult : Type 0 where
  not_closed : TallyResult
  counted : Option PollResults → TallyResult

unfoldable pub tally : Sort → TallySort → (Bytes → Bytes) → Poll → TallyResult
unfolding tally_method
tally sort_ranks sort decrypt poll =
    if has_time poll.closed_at
    then counted (tally_method poll.method sort_ranks sort decrypt poll)
    else not_closed
