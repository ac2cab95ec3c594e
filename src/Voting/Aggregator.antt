-- ===== src/Voting/Aggregator.antt =====
-- The aggregators of src/hierarchical_aggregator.cpp and its header: the tallies of precincts,
-- counties and states. `CountyAggregator`, `StateAggregator` and `NationalAggregator` have the same
-- code for another level; here they are one type whose functions take the level.
pub mod Sums
pub mod Precincts
use bright_chain_cpp.Prelude.{
  ℕ, zero, suc, ◌+◌, String, Bool, true, false, ltb, ◌==◌, Option, none, some, List, [], ◌∷◌, map,
  length, replicate, if◌then◌else◌,
}
use bright_chain_cpp.Prelude.Map.{Map}
use bright_chain_cpp.Prelude.Text.{put_ordered}
use bright_chain_cpp.Voting.Bytes.{Bytes}
use bright_chain_cpp.Voting.Ballot.{EncryptedVote}
use bright_chain_cpp.Voting.Poll.{Poll, Authority, VoteResult, vote, close, to_key}
use bright_chain_cpp.Voting.Tally.{ballots_of, add_ballots}

pub data JurisdictionLevel : Type 0 where
  precinct : JurisdictionLevel
  county : JurisdictionLevel
  statewide : JurisdictionLevel
  national : JurisdictionLevel

pub record JurisdictionConfig : Type 0 where
  pub id : Bytes
  pub name : String
  pub level : JurisdictionLevel
  pub parent_id : Option Bytes

pub record AggregatedTally : Type 0 where
  pub jurisdiction_id : Bytes
  pub level : JurisdictionLevel
  pub encrypted_tallies : List Bytes
  pub voter_count : ℕ
  pub timestamp : ℕ
  pub child_jurisdictions : List Bytes

pub record PrecinctAggregator : Type 0 where
  pub poll : Poll
  pub config : JurisdictionConfig

-- Equal levels.
abbrev pub is_level : JurisdictionLevel → JurisdictionLevel → Bool
is_level precinct precinct = true
is_level county county = true
is_level statewide statewide = true
is_level national national = true
is_level _ _ = false

unfoldable pub new_precinct : Poll → JurisdictionConfig → Option PrecinctAggregator
new_precinct poll config =
    if is_level config.level precinct then some (record { poll = poll; config = config }) else none

unfoldable pub precinct_vote :
    Authority
    → PrecinctAggregator
    → Bytes
    → ℕ
    → Bytes
    → EncryptedVote
    → PrecinctAggregator × VoteResult
unfolding vote
precinct_vote auth a voter now nonce v =
    let (poll, result) = vote auth a.poll voter now nonce v in (record a { poll = poll }, result)

unfoldable pub precinct_close : ℕ → PrecinctAggregator → PrecinctAggregator × Bool
unfolding close
precinct_close now a = let (poll, closed) = close now a.poll in (record a { poll = poll }, closed)

-- `encryptedTallies[i] = encryptedVote[i]` where both are in range
unfoldable pub store_ballot : List Bytes → List Bytes → List Bytes
store_ballot [] b = []
store_ballot (t ∷ ts) [] = t ∷ ts
store_ballot (t ∷ ts) (c ∷ b) = c ∷ store_ballot ts b

unfoldable pub store_ballots : List (List Bytes) → List Bytes → List Bytes
unfolding store_ballot
store_ballots [] tallies = tallies
store_ballots (b ∷ bs) tallies = store_ballots bs (store_ballot tallies b)

unfoldable pub precinct_tally : ℕ → PrecinctAggregator → AggregatedTally
unfolding store_ballots
precinct_tally now a = record {
  jurisdiction_id = a.config.id;
  level = precinct;
  encrypted_tallies =
      store_ballots (ballots_of a.poll.votes) (replicate (length a.poll.choices) []);
  voter_count = length a.poll.receipts;
  timestamp = now;
  child_jurisdictions = [];
}

-- `CountyAggregator`, `StateAggregator` and `NationalAggregator`; the tallies are in the order of
-- their keys.
pub record Aggregator : Type 0 where
  pub config : JurisdictionConfig
  pub tallies : Map AggregatedTally

unfoldable pub new_aggregator : JurisdictionLevel → JurisdictionConfig → Option Aggregator
new_aggregator level config =
    if is_level config.level level then some (record { config = config; tallies = [] }) else none

unfoldable pub add_tally : Aggregator → AggregatedTally → Aggregator
unfolding put_ordered to_key
add_tally a t = record a { tallies = put_ordered (to_key t.jurisdiction_id) t a.tallies }

-- A tally that is still empty is replaced; else the two are added under the encryption.
unfoldable pub join : (Bytes → Bytes → Bytes) → Bytes → Bytes → Bytes
join addition [] c = c
join addition (x ∷ t) c = addition (x ∷ t) c

abbrev pub children_of : Map AggregatedTally → List AggregatedTally
children_of m = map (λ e. e.1) m

abbrev pub total_voters : List AggregatedTally → ℕ
total_voters [] = 0
total_voters (t ∷ ts) = t.voter_count + total_voters ts

abbrev pub joined_tally :
    JurisdictionLevel
    → ℕ
    → JurisdictionConfig
    → List AggregatedTally
    → Option (List Bytes)
    → Option AggregatedTally
joined_tally level now config children none = none
joined_tally level now config children (some tallies) = some (record {
  jurisdiction_id = config.id;
  level = level;
  encrypted_tallies = tallies;
  voter_count = total_voters children;
  timestamp = now;
  child_jurisdictions = map (λ t. t.jurisdiction_id) children;
})

abbrev pub join_children :
    (Bytes → Bytes → Bytes)
    → JurisdictionLevel
    → ℕ
    → JurisdictionConfig
    → List AggregatedTally
    → Option AggregatedTally
unfolding add_ballots join
join_children addition level now config [] = none
join_children addition level now config (t ∷ ts) = joined_tally level now config (t ∷ ts) (
    add_ballots (join addition) (map (λ c. c.encrypted_tallies) (t ∷ ts))
      (some (replicate (length t.encrypted_tallies) [])))

-- `none` for the error without tallies, and for a read past the end of a child's tallies.
unfoldable pub aggregate :
    (Bytes → Bytes → Bytes) → JurisdictionLevel → ℕ → Aggregator → Option AggregatedTally
unfolding join_children
aggregate addition level now a = join_children addition level now a.config (children_of a.tallies)

unfoldable pub county_tally : (Bytes → Bytes → Bytes) → ℕ → Aggregator → Option AggregatedTally
unfolding aggregate
county_tally addition now a = aggregate addition county now a

unfoldable pub state_tally : (Bytes → Bytes → Bytes) → ℕ → Aggregator → Option AggregatedTally
unfolding aggregate
state_tally addition now a = aggregate addition statewide now a

unfoldable pub national_tally : (Bytes → Bytes → Bytes) → ℕ → Aggregator → Option AggregatedTally
unfolding aggregate
national_tally addition now a = aggregate addition national now a
