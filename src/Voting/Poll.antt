-- ===== src/Voting/Poll.antt =====
-- `Poll` of include/brightchain/poll.hpp and src/poll.cpp.
pub mod Keys
pub mod Ballots
pub mod Accepted
use Prim.Native.Char.{Char}
use bright_chain_cpp.Prelude.{
  ℕ, zero, suc, ◌+◌, ◌-◌, ◌/◌, ◌%◌, ◌^◌, String, Bool, true, false, not, ◌&&◌, ◌||◌, Option, none,
  some, ◌⊎◌, inl, inr, List, [], ◌∷◌, ◌++◌, map, length, ltb, leb, ◌==◌, if◌then◌else◌,
}
use bright_chain_cpp.Prelude.Int.{ℤ, pos, negsuc}
use bright_chain_cpp.Prelude.Map.{Map, find, contains}
use bright_chain_cpp.Prelude.Text.{put_ordered}
use bright_chain_cpp.Voting.Ballot.{
  EncryptedVote, PollError, too_few_choices, no_voting_keys, not_secure, is_closed, already_voted,
  no_signature, check_method, check_data,
}
use bright_chain_cpp.Voting.Bytes.{Bytes}
use bright_chain_cpp.Voting.Method.{
  VotingMethod, SecurityLevel, plurality, approval, weighted, borda, ranked_choice,
  get_security_level, insecure,
}

pub record VoteReceipt : Type 0 where
  pub voter_id : Bytes
  pub poll_id : Bytes
  pub timestamp : ℕ
  pub signature : Bytes
  pub nonce : Bytes

-- The authority of a poll is a `Member`, which signs (`none` for an exception) and verifies.
pub record Authority : Type 0 where
  pub has_voting_keys : Bool
  pub sign : Bytes → Option Bytes
  pub verify : Bytes → Bytes → Bool

-- The votes and the receipts are in the order of their keys.
pub record Poll : Type 0 where
  pub id : Bytes
  pub choices : List String
  pub method : VotingMethod
  pub votes : Map (List Bytes)
  pub receipts : Map VoteReceipt
  pub created_at : ℕ
  pub closed_at : Option ℕ
  pub max_weight : Option Bytes

abbrev pub is_insecure : SecurityLevel → Bool
is_insecure insecure = true
is_insecure _ = false

unfoldable pub new_poll :
    Authority → Bytes → List String → VotingMethod → Option Bytes → Bool → ℕ → PollError ⊎ Poll
unfolding get_security_level
new_poll auth id choices method max_weight allow_insecure now =
    if ltb (length choices) 2
    then inl too_few_choices
    else if not auth.has_voting_keys
    then inl no_voting_keys
    else if is_insecure (get_security_level method) && not allow_insecure
    then inl not_secure
    else inr (record {
      id = id;
      choices = choices;
      method = method;
      votes = [];
      receipts = [];
      created_at = now;
      closed_at = none;
      max_weight = max_weight;
    })

-- `toKey`: two hexadecimal digits for each byte.
unfoldable pub digit : ℕ → Char
digit d =
    if d == 0
    then "0"
    else if d == 1
    then "1"
    else if d == 2
    then "2"
    else if d == 3
    then "3"
    else if d == 4
    then "4"
    else if d == 5
    then "5"
    else if d == 6
    then "6"
    else if d == 7
    then "7"
    else if d == 8
    then "8"
    else if d == 9
    then "9"
    else if d == 10
    then "a"
    else if d == 11
    then "b"
    else if d == 12
    then "c"
    else if d == 13
    then "d"
    else if d == 14
    then "e"
    else "f"

unfoldable pub to_key : Bytes → String
unfolding digit
to_key [] = ""
to_key (b ∷ bs) = String.◌∷◌ (digit (b / 16)) (String.◌∷◌ (digit (b % 16)) (to_key bs))

unfoldable pub validate_vote : Poll → EncryptedVote → Option PollError
unfolding check_method
validate_vote p v = check_data v.encrypted (check_method p.method (length p.choices) p.max_weight v)

-- The low `n` bytes of a timestamp, least significant first.
abbrev pub timestamp_bytes : ℕ → ℕ → Bytes
timestamp_bytes zero t = []
timestamp_bytes (suc n) t = t % 256 ∷ timestamp_bytes n (t / 256)

-- What a receipt signs: its parts one after the other, with no lengths.
unfoldable pub receipt_data : VoteReceipt → Bytes
receipt_data r = r.voter_id ++ r.poll_id ++ timestamp_bytes 8 r.timestamp ++ r.nonce

-- The receipt that `generateReceipt` signs.
unfoldable pub unsigned_receipt : Poll → Bytes → ℕ → Bytes → VoteReceipt
unsigned_receipt p voter now nonce = record {
  voter_id = voter;
  poll_id = p.id;
  timestamp = now;
  signature = [];
  nonce = nonce;
}

abbrev pub with_signature : VoteReceipt → Option Bytes → Option VoteReceipt
with_signature r none = none
with_signature r (some signature) = some (record r { signature = signature })

-- `none` where signing throws.
unfoldable pub generate_receipt : Authority → Poll → Bytes → ℕ → Bytes → Option VoteReceipt
unfolding receipt_data unsigned_receipt
generate_receipt auth p voter now nonce =
    let r = unsigned_receipt p voter now nonce in with_signature r (auth.sign (receipt_data r))

pub data VoteResult : Type 0 where
  rejected : PollError → VoteResult
  accepted : VoteReceipt → VoteResult

abbrev pub has_time : Option ℕ → Bool
has_time none = false
has_time (some t) = true

-- The ballot is stored before the receipt is signed, and stays where signing throws.
unfoldable pub store_receipt : Poll → String → Option VoteReceipt → Poll × VoteResult
unfolding put_ordered
store_receipt p key none = (p, rejected no_signature)
store_receipt p key (some r) = (record p { receipts = put_ordered key r p.receipts }, accepted r)

unfoldable pub store_vote : Authority → Poll → Bytes → ℕ → Bytes → List Bytes → Poll × VoteResult
unfolding to_key put_ordered store_receipt generate_receipt
store_vote auth p voter now nonce encrypted =
    let p' = record p { votes = put_ordered (to_key voter) encrypted p.votes } in
    store_receipt p' (to_key voter) (generate_receipt auth p' voter now nonce)

unfoldable pub cast_valid :
    Authority → Poll → Bytes → ℕ → Bytes → EncryptedVote → Option PollError → Poll × VoteResult
unfolding store_vote
cast_valid auth p voter now nonce v (some err) = (p, rejected err)
cast_valid auth p voter now nonce v none = store_vote auth p voter now nonce v.encrypted

unfoldable pub vote : Authority → Poll → Bytes → ℕ → Bytes → EncryptedVote → Poll × VoteResult
unfolding to_key cast_valid validate_vote
vote auth p voter now nonce v =
    if has_time p.closed_at
    then (p, rejected is_closed)
    else if contains (to_key voter) p.receipts
    then (p, rejected already_voted)
    else cast_valid auth p voter now nonce v (validate_vote p v)

-- The receipt's own voter and poll are not compared with the arguments.
unfoldable pub verify_receipt : Authority → Poll → Bytes → VoteReceipt → Bool
unfolding to_key receipt_data
verify_receipt auth p voter r =
    contains (to_key voter) p.receipts && auth.verify (receipt_data r) r.signature

-- The new poll, and whether the call returned.
unfoldable pub close : ℕ → Poll → Poll × Bool
close now p = if has_time p.closed_at then (p, false) else (record p { closed_at = some now }, true)
