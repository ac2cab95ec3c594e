-- ===== src/Voting/Poll/Accepted.antt =====
-- What a vote that a poll of src/poll.cpp has accepted means, for good.
use bright_chain_cpp.Prelude.{
  ℕ, ◌≡◌, ◌≢◌, refl, sym, ap, subst, String, true, false, Option, none, some, List, [], ◌∷◌, arith,
  length, eq_iff,
}
use bright_chain_cpp.Prelude.Map.{Map, find, contains}
use bright_chain_cpp.Prelude.Text.{put_ordered}
use bright_chain_cpp.Prelude.Text.Order.{find-put_ordered, contains-put_ordered}
use bright_chain_cpp.Voting.Bytes.{Bytes}
use bright_chain_cpp.Voting.Ballot.{EncryptedVote, PollError, check_data}
use bright_chain_cpp.Voting.Ballot.Checks.{IsWellFormed, check_method-IsWellFormed}
use bright_chain_cpp.Voting.Poll.Ballots.{Call, run, HasVoted, HasVoted-run}
use bright_chain_cpp.Voting.Poll.{
  Poll, Authority, with_signature, VoteReceipt, VoteResult, accepted, has_time, to_key, vote,
  cast_valid, store_vote, store_receipt, validate_vote, verify_receipt, receipt_data,
  generate_receipt, unsigned_receipt,
}

-- What holds where a vote has been accepted.
pub record IsAccepted (auth : Authority) (p : Poll) (voter : Bytes) (v : EncryptedVote)
    (after : Poll) (r : VoteReceipt) : Type 0 where
  pub not_closed : has_time p.closed_at ≡ false
  pub first : contains (to_key voter) p.receipts ≡ false
  pub well_formed : IsWellFormed p.method (length p.choices) v
  pub some_data : v.encrypted ≢ []
  pub voted : HasVoted (to_key voter) v.encrypted after
  pub signed : auth.sign (receipt_data r) ≡ some r.signature
  pub named : (r.voter_id ≡ voter) × (r.poll_id ≡ p.id)

store_receipt-accepted :
    (p : Poll) (k : String) (o : Option VoteReceipt) (after : Poll) (r : VoteReceipt)
    → store_receipt p k o ≡ (after, accepted r)
    → (o ≡ some r) × (record p { receipts = put_ordered k r p.receipts } ≡ after)
unfolding store_receipt
store_receipt-accepted p k none after r e = absurd (ground (arith, e))
store_receipt-accepted p k (some r') after r e =
    let same : r' ≡ r = cc in (ap some same, rw (sym same) (ap (λ (x : Poll × VoteResult). x.0) e))

abbrev IsSigned : Authority → VoteReceipt → VoteReceipt → Type 0
IsSigned auth u r =
    (auth.sign (receipt_data r) ≡ some r.signature)
    × ((r.voter_id ≡ u.voter_id) × (r.poll_id ≡ u.poll_id))

with_signature-IsSigned :
    (auth : Authority) (u : VoteReceipt) (o : Option Bytes) (r : VoteReceipt)
    → auth.sign (receipt_data u) ≡ o
    → with_signature u o ≡ some r
    → IsSigned auth u r
unfolding receipt_data
with_signature-IsSigned auth u none r h e = absurd (ground (arith, e))
with_signature-IsSigned auth u (some s) r h e =
    let same : record u { signature = s } ≡ r = cc in subst (IsSigned auth u) same (h, (refl, refl))

generate_receipt-IsSigned :
    (auth : Authority) (p : Poll) (voter : Bytes) (now : ℕ) (nonce : Bytes) (r : VoteReceipt)
    → generate_receipt auth p voter now nonce ≡ some r
    → IsSigned auth (unsigned_receipt p voter now nonce) r
unfolding generate_receipt
generate_receipt-IsSigned auth p voter now nonce r e =
    with_signature-IsSigned auth (unsigned_receipt p voter now nonce) _ r refl e

accepted-validate_vote :
    (auth : Authority) (p : Poll) (voter : Bytes) (now : ℕ) (nonce : Bytes) (v : EncryptedVote)
    (after : Poll) (r : VoteReceipt)
    → vote auth p voter now nonce v ≡ (after, accepted r)
    → (has_time p.closed_at ≡ false)
      × (contains (to_key voter) p.receipts ≡ false)
      × (validate_vote p v ≡ none)
      × (store_vote auth p voter now nonce v.encrypted ≡ (after, accepted r))
unfolding vote cast_valid
accepted-validate_vote auth p voter now nonce v after r e =
    (ground arith, ground arith, ground arith, ground arith)

find-put_self :
    (k : String) (b : List Bytes) (m : Map (List Bytes)) → find k (put_ordered k b m) ≡ some b
find-put_self k b m = ground (arith, find-put_ordered k k b m, eq_iff k k)

check_data-passes :
    (cs : List Bytes) (o : Option PollError) → check_data cs o ≡ none → (o ≡ none) × (cs ≢ [])
check_data-passes cs (some err) e = absurd (cc)
check_data-passes [] none e = absurd (cc)
check_data-passes (c ∷ cs) none e = (refl, λ h. cc)

-- A vote is accepted only in a poll that is not closed, from a voter without a receipt, and where it
-- has the form that the method asks for (a choice of the poll; a list of them that is not empty; a
-- weight; a ranking of choices without repetition) and some ciphertext. Then the voter has a receipt
-- from the authority, in his name and the poll's, and exactly his ciphertexts are stored.
pub vote-IsAccepted :
    (auth : Authority) (p : Poll) (voter : Bytes) (now : ℕ) (nonce : Bytes) (v : EncryptedVote)
    (after : Poll) (r : VoteReceipt)
    → vote auth p voter now nonce v ≡ (after, accepted r)
    → IsAccepted auth p voter v after r
unfolding store_vote validate_vote unsigned_receipt
vote-IsAccepted auth p voter now nonce v after r e =
    let (not_closed, first, valid, stored) =
      accepted-validate_vote auth p voter now nonce v after r e in
    let key = to_key voter in
    let p' = record p { votes = put_ordered key v.encrypted p.votes } in
    let (receipt, is_after) =
      store_receipt-accepted p' key (generate_receipt auth p' voter now nonce) after r stored in
    let (signed, named) = generate_receipt-IsSigned auth p' voter now nonce r receipt in
    let (passes, some_data) = check_data-passes v.encrypted _ valid in
    record {
      not_closed = not_closed;
      first = first;
      well_formed = check_method-IsWellFormed p.method (length p.choices) p.max_weight v passes;
      some_data = some_data;
      voted = subst (HasVoted key v.encrypted) is_after (
        ground (arith, contains-put_ordered key key r p.receipts, eq_iff key key),
        find-put_self key v.encrypted p.votes,
      );
      signed = signed;
      named = named;
    }

-- Once a vote has been accepted, no later call takes it back or changes it: the voter keeps his
-- receipt, so that he cannot vote again, and his ciphertexts stay those of the accepted vote.
pub accepted_vote_stays :
    (auth : Authority) (p : Poll) (voter : Bytes) (now : ℕ) (nonce : Bytes) (v : EncryptedVote)
    (after : Poll) (r : VoteReceipt) (cs : List Call)
    → vote auth p voter now nonce v ≡ (after, accepted r)
    → HasVoted (to_key voter) v.encrypted (run auth cs after)
accepted_vote_stays auth p voter now nonce v after r cs e =
    HasVoted-run auth cs after (to_key voter) v.encrypted
      (vote-IsAccepted auth p voter now nonce v after r e).voted

-- The authority verifies what it signs.
abbrev pub Verifies : Authority → Bytes → Option Bytes → Type 0
Verifies auth text none = Unit
Verifies auth text (some signature) = auth.verify text signature ≡ true

abbrev pub IsSound : Authority → Type 0
IsSound auth = (text : Bytes) → Verifies auth text (auth.sign text)

-- Where the authority verifies what it signs: a receipt that a vote has returned verifies for good,
-- and not for its voter alone, but for everyone who has voted in the poll.
pub receipt_verifies :
    (auth : Authority) (p : Poll) (voter : Bytes) (now : ℕ) (nonce : Bytes) (v : EncryptedVote)
    (after : Poll) (r : VoteReceipt) (cs : List Call) (other : Bytes)
    → IsSound auth
    → vote auth p voter now nonce v ≡ (after, accepted r)
    → contains (to_key other) (run auth cs after).receipts ≡ true
    → (verify_receipt auth (run auth cs after) voter r ≡ true)
      × (verify_receipt auth (run auth cs after) other r ≡ true)
unfolding verify_receipt
receipt_verifies auth p voter now nonce v after r cs other sound e has_receipt =
    let verified : auth.verify (receipt_data r) r.signature ≡ true =
      subst (Verifies auth (receipt_data r))
        (vote-IsAccepted auth p voter now nonce v after r e).signed (sound (receipt_data r)) in
    let voted = accepted_vote_stays auth p voter now nonce v after r cs e in
    (rw (voted.0, verified) refl, rw (has_receipt, verified) refl)
