-- ===== src/Voting.antt =====
-- The encrypted polls: src/poll.cpp, src/poll_tallier.cpp, src/vote_encoder.cpp,
-- src/voting_method.cpp and src/hierarchical_aggregator.cpp.
pub mod Bytes
pub mod Method
pub mod Ballot
pub mod Poll
pub mod Tally
pub mod Ranked
pub mod TwoRound
pub mod Stv
pub mod Tallier
pub mod Encoder
pub mod Aggregator
mod Tests
