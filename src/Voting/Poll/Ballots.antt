-- ===== src/Voting/Poll/Ballots.antt =====
-- What a poll of src/poll.cpp keeps over its life.
use bright_chain_cpp.Prelude.{
  ℕ, ◌≡◌, ◌∙◌, refl, ap, String, true, false, Option, none, some, List, [], ◌∷◌, arith, if_cases,
  str_eq, eq_iff,
}
use bright_chain_cpp.Prelude.Map.{find, contains}
use bright_chain_cpp.Prelude.Text.{put_ordered}
use bright_chain_cpp.Prelude.Text.Order.{find-put_ordered, contains-put_ordered}
use bright_chain_cpp.Voting.Bytes.{Bytes}
use bright_chain_cpp.Voting.Ballot.{EncryptedVote, PollError, is_closed}
use bright_chain_cpp.Voting.Poll.{
  Poll, Authority, VoteReceipt, VoteResult, rejected, has_time, to_key, vote, cast_valid,
  store_vote, store_receipt, validate_vote, close, generate_receipt,
}

-- The calls that change a poll.
pub data Call : Type 0 where
  cast : Bytes → ℕ → Bytes → EncryptedVote → Call
  shut : ℕ → Call

abbrev pub step : Authority → Poll → Call → Poll
step auth p (cast voter now nonce v) = (vote auth p voter now nonce v).0
step auth p (shut now) = (close now p).0

abbrev pub run : Authority → List Call → Poll → Poll
run auth [] p = p
run auth (c ∷ cs) p = run auth cs (step auth p c)

closed-vote :
    (auth : Authority) (p : Poll) (voter : Bytes) (now : ℕ) (nonce : Bytes) (v : EncryptedVote)
    → has_time p.closed_at ≡ true
    → vote auth p voter now nonce v ≡ (p, rejected is_closed)
unfolding vote
closed-vote auth p voter now nonce v h = rw h refl

closed-close : (now : ℕ) (p : Poll) → has_time p.closed_at ≡ true → close now p ≡ (p, false)
unfolding close
closed-close now p h = rw h refl

-- A closed poll does not change any more, whatever calls follow.
closed_poll_stays :
    (auth : Authority) (p : Poll) (cs : List Call) → has_time p.closed_at ≡ true → run auth cs p ≡ p
closed_poll_stays auth p [] h = refl
closed_poll_stays auth p (cast voter now nonce v ∷ cs) h =
    ap (λ (r : Poll × VoteResult). run auth cs r.0) (closed-vote auth p voter now nonce v h)
    ∙ closed_poll_stays auth p cs h
closed_poll_stays auth p (shut now ∷ cs) h =
    ap (λ r. run auth cs r.0) (closed-close now p h) ∙ closed_poll_stays auth p cs h

-- A voter has a receipt, and a ballot is stored for him.
abbrev pub HasVoted : String → List Bytes → Poll → Type 0
HasVoted key b p = (contains key p.receipts ≡ true) × (find key p.votes ≡ some b)

HasVoted-store_receipt :
    (p : Poll) (k : String) (o : Option VoteReceipt) (key : String) (b : List Bytes)
    → HasVoted key b p
    → HasVoted key b (store_receipt p k o).0
unfolding store_receipt
HasVoted-store_receipt p k none key b h = h
HasVoted-store_receipt p k (some r) key b (has_receipt, has_ballot) =
    (ground (arith, contains-put_ordered k key r p.receipts), has_ballot)

HasVoted-store_vote :
    (auth : Authority) (p : Poll) (voter : Bytes) (now : ℕ) (nonce : Bytes) (cs : List Bytes)
    (key : String) (b : List Bytes)
    → str_eq (to_key voter) key ≡ false
    → HasVoted key b p
    → HasVoted key b (store_vote auth p voter now nonce cs).0
unfolding store_vote
HasVoted-store_vote auth p voter now nonce cs key b other (has_receipt, has_ballot) =
    let p' = record p { votes = put_ordered (to_key voter) cs p.votes } in
    HasVoted-store_receipt p' (to_key voter) (generate_receipt auth p' voter now nonce) key b
      (has_receipt, find-put_ordered (to_key voter) key cs p.votes ∙ rw other has_ballot)

HasVoted-cast_valid :
    (auth : Authority) (p : Poll) (voter : Bytes) (now : ℕ) (nonce : Bytes) (v : EncryptedVote)
    (o : Option PollError) (key : String) (b : List Bytes)
    → str_eq (to_key voter) key ≡ false
    → HasVoted key b p
    → HasVoted key b (cast_valid auth p voter now nonce v o).0
unfolding cast_valid
HasVoted-cast_valid auth p voter now nonce v none key b other h =
    HasVoted-store_vote auth p voter now nonce v.encrypted key b other h
HasVoted-cast_valid auth p voter now nonce v (some err) key b other h = h

HasVoted-vote :
    (auth : Authority) (p : Poll) (voter : Bytes) (now : ℕ) (nonce : Bytes) (v : EncryptedVote)
    (key : String) (b : List Bytes)
    → HasVoted key b p
    → HasVoted key b (vote auth p voter now nonce v).0
unfolding vote
HasVoted-vote auth p voter now nonce v key b h =
    let kept : Poll × VoteResult → Type 0 = λ r. HasVoted key b r.0 in
    if_cases kept (has_time p.closed_at) _ _ (λ _. h)
      (λ _.
        if_cases kept (contains (to_key voter) p.receipts) _ _ (λ _. h)
          (λ fresh.
            HasVoted-cast_valid auth p voter now nonce v (validate_vote p v) key b
              (ground (arith, fresh, h.0, eq_iff (to_key voter) key)) h))

pub HasVoted-run :
    (auth : Authority) (cs : List Call) (p : Poll) (key : String) (b : List Bytes)
    → HasVoted key b p
    → HasVoted key b (run auth cs p)
unfolding close
HasVoted-run auth [] p key b h = h
HasVoted-run auth (cast voter now nonce v ∷ cs) p key b h =
    HasVoted-run auth cs (vote auth p voter now nonce v).0 key b
      (HasVoted-vote auth p voter now nonce v key b h)
HasVoted-run auth (shut now ∷ cs) p key b h =
    HasVoted-run auth cs (close now p).0 key b (ground (arith, h.0), ground (arith, h.1))
