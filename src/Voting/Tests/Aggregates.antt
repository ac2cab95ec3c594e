-- ===== src/Voting/Tests/Aggregates.antt =====
-- Instances of the theorems on src/hierarchical_aggregator.cpp.
use bright_chain_cpp.Prelude.{
  ℕ, zero, suc, ◌+◌, ◌<◌, ◌≡◌, refl, Option, some, none, List, [], ◌∷◌, length, get_or, arith,
}
use bright_chain_cpp.Prelude.Text.{text_before, put_ordered}
use bright_chain_cpp.Voting.Bytes.{Bytes}
use bright_chain_cpp.Voting.Poll.{Poll, to_key, digit}
use bright_chain_cpp.Voting.Tally.{add_ballot, add_ballots}
use bright_chain_cpp.Voting.Aggregator.{
  precinct, county, JurisdictionConfig, AggregatedTally, PrecinctAggregator, Aggregator,
  new_aggregator, add_tally, children_of, total_voters, aggregate, precinct_tally, county_tally,
  state_tally, national_tally, join,
}
use bright_chain_cpp.Voting.Aggregator.Sums.{
  amount, amounts, tallies_of, IsAdditive, AllPresent, aggregate-amounts,
}
use bright_chain_cpp.Voting.Aggregator.Precincts.{precinct_tally-last}
use bright_chain_cpp.Voting.Tests.{voted_poll}

-- Ciphertexts of one byte that are added as numbers.
abbrev sum_texts : Bytes → Bytes → Bytes
sum_texts (x ∷ t) (y ∷ c) = (x + y) ∷ []
sum_texts _ _ = []

abbrev first_byte : Bytes → ℕ
first_byte [] = 0
first_byte (x ∷ t) = x

abbrev OneByte : Bytes → Type 0
OneByte t = length t ≡ 1

sum_texts-IsAdditive : IsAdditive OneByte sum_texts first_byte 200
sum_texts-IsAdditive [] c h k fits = absurd (omega (arith, h))
sum_texts-IsAdditive (x ∷ t) [] h k fits = absurd (omega (arith, k))
sum_texts-IsAdditive (x ∷ t) (y ∷ c) h k fits = (refl, refl)

abbrev precinct_of : ℕ → List Bytes → AggregatedTally
precinct_of k tallies = record {
  jurisdiction_id = k ∷ [];
  level = precinct;
  encrypted_tallies = tallies;
  voter_count = 40;
  timestamp = 0;
  child_jurisdictions = [];
}

abbrev the_county : JurisdictionConfig
the_county = record { id = 9 ∷ []; name = "county"; level = county; parent_id = none }

abbrev north : AggregatedTally
north = precinct_of 171 ((30 ∷ []) ∷ (10 ∷ []) ∷ [])

abbrev south : AggregatedTally
south = precinct_of 20 ((15 ∷ []) ∷ (25 ∷ []) ∷ [])

unfoldable two_precincts : Aggregator
unfolding add_tally to_key digit put_ordered text_before
two_precincts = add_tally (add_tally (record { config = the_county; tallies = [] }) north) south

starts_empty :
    new_aggregator county the_county ≡ some (record { config = the_county; tallies = [] })
unfolding new_aggregator
starts_empty = refl

-- The children stand in the order of their keys, not in that of their arrival.
in_order : children_of two_precincts.tallies ≡ south ∷ north ∷ []
unfolding two_precincts add_tally to_key digit put_ordered text_before
in_order = refl

south_present : (i : ℕ) → i < 2 → OneByte (get_or south.encrypted_tallies i [])
south_present zero h = refl
south_present (suc zero) h = refl
south_present (suc (suc i)) h = absurd (omega (arith, h))

north_present : (i : ℕ) → i < 2 → OneByte (get_or north.encrypted_tallies i [])
north_present zero h = refl
north_present (suc zero) h = refl
north_present (suc (suc i)) h = absurd (omega (arith, h))

ciphertexts_present : AllPresent OneByte 2 (tallies_of (south ∷ north ∷ []))
ciphertexts_present = ((omega arith, south_present), ((omega arith, north_present), tt))

aggregate-amounts_example :
    (r : AggregatedTally) × (aggregate sum_texts county 7 two_precincts ≡ some r)
    × (length r.encrypted_tallies ≡ 2)
    × (r.voter_count ≡ total_voters (south ∷ north ∷ []))
    × (amount first_byte (get_or r.encrypted_tallies 1 [])
        ≡ amounts first_byte 1 (tallies_of (south ∷ north ∷ [])))
aggregate-amounts_example =
    aggregate-amounts OneByte sum_texts first_byte 200 county 7 two_precincts south (north ∷ []) 1
      sum_texts-IsAdditive in_order ciphertexts_present (omega arith) (omega arith)

-- A state of one county, and a nation of that state, hold what the county holds.
abbrev texts_of : Option AggregatedTally → List Bytes
texts_of none = []
texts_of (some t) = t.encrypted_tallies

abbrev above : Option AggregatedTally → Aggregator
above none = record { config = the_county; tallies = [] }
above (some t) = record { config = the_county; tallies = ("09", t) ∷ [] }

all_levels :
    (texts_of (county_tally sum_texts 7 two_precincts) ≡ (45 ∷ []) ∷ (35 ∷ []) ∷ [])
    × (texts_of (state_tally sum_texts 8 (above (county_tally sum_texts 7 two_precincts)))
        ≡ (45 ∷ []) ∷ (35 ∷ []) ∷ [])
    × (texts_of (national_tally sum_texts 8 (above (county_tally sum_texts 7 two_precincts)))
        ≡ (45 ∷ []) ∷ (35 ∷ []) ∷ [])
unfolding county_tally state_tally national_tally aggregate two_precincts add_ballots add_ballot
    join add_tally to_key digit put_ordered text_before
all_levels = (refl, refl, refl)

abbrev crowded_poll : Poll
crowded_poll = record voted_poll {
  votes =
      ("01ab", (1 ∷ []) ∷ (0 ∷ []) ∷ [])
      ∷ ("02cd", (1 ∷ []) ∷ (0 ∷ []) ∷ [])
      ∷ ("03ef", (0 ∷ []) ∷ (1 ∷ []) ∷ [])
      ∷ [];
}

abbrev crowded_precinct : PrecinctAggregator
crowded_precinct = record { poll = crowded_poll; config = the_county }

precinct_tally-last_example :
    (precinct_tally 7 crowded_precinct).encrypted_tallies ≡ (0 ∷ []) ∷ (1 ∷ []) ∷ []
precinct_tally-last_example =
    precinct_tally-last 7 crowded_precinct
      (((1 ∷ []) ∷ (0 ∷ []) ∷ []) ∷ ((1 ∷ []) ∷ (0 ∷ []) ∷ []) ∷ []) ((0 ∷ []) ∷ (1 ∷ []) ∷ []) refl
      refl
