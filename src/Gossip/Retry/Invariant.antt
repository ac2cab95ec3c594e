-- ===== src/Gossip/Retry/Invariant.antt =====
-- What holds of every delivery that the service tracks: retry_service.cpp.
use bright_chain_cpp.Prelude.{
  ℕ, zero, suc, ◌≤◌, ◌≡◌, refl, ◌≢◌, ◌⊎◌, inl, inr, String, true, some, subst, List, [], ◌∷◌, arith,
  Bool-cases, eq_iff,
}
use bright_chain_cpp.Prelude.Map.{
  Map, contains_key, find, put, erase, AllValues, AllValues-put, AllValues-emplace, AllValues-erase,
  AllValues-find,
}
use bright_chain_cpp.Gossip.Announcement.{MessageDeliveryMetadata, DeliveryAckMetadata}
use bright_chain_cpp.Gossip.Retry.Cases.{handle_ack_cases, acked, check_delivery_cases}
use bright_chain_cpp.Gossip.Retry.{
  DeliveryStatus, announced, RetryConfig, PendingDelivery, RetryService, announce_all,
  track_delivery, validate_transition, parse_status, handle_ack, Checked, given_up, retried,
  all_done, update_all, retry_status, check_delivery, check_pass, erase_all, check_retries, init,
}

-- Before the first retry every recipient is `Announced`, and after it none is.
abbrev pub StatusesFit : ℕ → Map DeliveryStatus → Type 0
StatusesFit zero = AllValues (λ d. d ≡ announced)
StatusesFit (suc n) = AllValues (λ d. d ≢ announced)

abbrev pub DeliveryFits : RetryConfig → PendingDelivery → Type 0
DeliveryFits c pd =
    (pd.retry_count ≤ c.max_retries) × StatusesFit pd.retry_count pd.recipient_statuses

pub record Inv (s : RetryService) : Type 0 where
  pub fits : AllValues (DeliveryFits s.config) s.pending_deliveries

announce_all-announced :
    (rs : List String) (m : Map DeliveryStatus)
    → AllValues (λ d. d ≡ announced) m
    → AllValues (λ d. d ≡ announced) (announce_all rs m)
unfolding announce_all
announce_all-announced [] m a = a
announce_all-announced (r ∷ rs) m a =
    announce_all-announced rs (put r announced m) (AllValues-put _ r announced m refl a)

pub track_delivery-Inv :
    (s : RetryService) (message_id : String) (block_ids : List String)
    (metadata : MessageDeliveryMetadata) (now : ℕ)
    → Inv s
    → Inv (track_delivery s message_id block_ids metadata now)
unfolding track_delivery
track_delivery-Inv s message_id block_ids metadata now v = record {
  fits =
      AllValues-emplace _ message_id _ s.pending_deliveries
        (omega arith, announce_all-announced metadata.recipient_ids [] tt) v.fits;
}

-- No status that an acknowledgement can name is permitted after `Announced`.
ack_refused :
    (m : Map DeliveryStatus) (r text : String) (old new : DeliveryStatus)
    → AllValues (λ d. d ≡ announced) m
    → find r m ≡ some old
    → parse_status text ≡ some new
    → validate_transition old new ≡ true
    → ⊥
unfolding parse_status validate_transition
ack_refused m r text old new a found parsed ok =
    let here : old ≡ announced = AllValues-find _ r old m a found in ground arith

ack_fits :
    (n : ℕ) (m : Map DeliveryStatus) (r text : String) (old new : DeliveryStatus)
    → StatusesFit n m
    → find r m ≡ some old
    → parse_status text ≡ some new
    → validate_transition old new ≡ true
    → StatusesFit n (put r new m)
unfolding parse_status validate_transition
ack_fits zero m r text old new a found parsed ok =
    absurd (ack_refused m r text old new a found parsed ok)
ack_fits (suc n) m r text old new a found parsed ok = AllValues-put _ r new m (λ e. ground arith) a

pub handle_ack-Inv : (s : RetryService) (ack : DeliveryAckMetadata) → Inv s → Inv (handle_ack s ack)
handle_ack-Inv s ack v = handle_ack_cases Inv s ack v λ pd old new ok.
    let before : DeliveryFits s.config pd =
      AllValues-find (DeliveryFits s.config) _ pd s.pending_deliveries v.fits ok.delivery in
    let after : DeliveryFits s.config (acked ack pd new) =
      (before.0, ack_fits _ _ _ _ old new before.1 ok.recipient ok.status ok.permitted) in
    elim (Bool-cases (all_done (put ack.recipient_id new pd.recipient_statuses))) [
      | inl done ↦ rw done (record { fits = AllValues-erase (DeliveryFits s.config) _ _ v.fits })
      | inr more ↦
          rw more (record { fits = AllValues-put (DeliveryFits s.config) _ _ _ after v.fits })
    ]

retry_status-ne-announced :
    (n : ℕ) (m : Map DeliveryStatus)
    → StatusesFit n m
    → AllValues (λ d. d ≢ announced) (update_all retry_status m)
retry_status-ne-announced n [] a = tt
retry_status-ne-announced zero ((r, d) ∷ m) a =
    (λ e. ground arith, retry_status-ne-announced zero m a.1)
retry_status-ne-announced (suc n) ((r, d) ∷ m) a =
    (λ e. ground arith, retry_status-ne-announced (suc n) m a.1)

-- A delivery that the round does not give up still fits.
check_delivery_fits :
    (c : RetryConfig) (handlers : List ℕ) (now : ℕ) (message_id : String) (pd : PendingDelivery)
    → DeliveryFits c pd
    → ((check_delivery c handlers now message_id pd).exhausted ≡ true)
      ⊎ DeliveryFits c (check_delivery c handlers now message_id pd).delivery
unfolding given_up retried
check_delivery_fits c handlers now message_id pd a =
    check_delivery_cases (λ (one : Checked). (one.exhausted ≡ true) ⊎ DeliveryFits c one.delivery) c
      handlers now message_id pd (λ early. inr a) (λ due last. inl refl)
      (λ due more. inr (more, retry_status-ne-announced pd.retry_count _ a.1))

-- Every entry fits, but for those under the given keys.
abbrev Covered {κ} : List String → (PendingDelivery → Type κ) → Map PendingDelivery → Type κ
Covered ks P [] = Unit
Covered ks P ((k, pd) ∷ m) = ((contains_key k ks ≡ true) ⊎ P pd) × Covered ks P m

Covered-cons :
    (k : String) (ks : List String) (P : PendingDelivery → Type 0) (m : Map PendingDelivery)
    → Covered ks P m
    → Covered (k ∷ ks) P m
Covered-cons k ks P [] a = tt
Covered-cons k ks P ((j, pd) ∷ m) a = (ground arith, Covered-cons k ks P m a.1)

Covered-erase :
    (k : String) (ks : List String) (P : PendingDelivery → Type 0) (m : Map PendingDelivery)
    → Covered (k ∷ ks) P m
    → Covered ks P (erase k m)
unfolding erase
Covered-erase k ks P [] a = tt
Covered-erase k ks P ((j, pd) ∷ m) a =
    ground (arith, Covered-erase k ks P m a.1, eq_iff j k, eq_iff k j)

AllValues-erase_all :
    (ks : List String) (P : PendingDelivery → Type 0) (m : Map PendingDelivery)
    → Covered ks P m
    → AllValues P (erase_all ks m)
unfolding erase_all
AllValues-erase_all [] P [] a = tt
AllValues-erase_all [] P ((k, pd) ∷ m) a = (ground arith, AllValues-erase_all [] P m a.1)
AllValues-erase_all (k ∷ ks) P m a = AllValues-erase_all ks P (erase k m) (Covered-erase k ks P m a)

check_pass-Covered :
    (c : RetryConfig) (handlers : List ℕ) (now : ℕ) (m : Map PendingDelivery)
    → AllValues (DeliveryFits c) m
    → Covered
        (check_pass c handlers now m).to_remove
        (DeliveryFits c)
        (check_pass c handlers now m).deliveries
unfolding check_pass
check_pass-Covered c handlers now [] a = tt
check_pass-Covered c handlers now ((k, pd) ∷ m) a = ground (
  arith,
  check_pass-Covered c handlers now m a.1,
  check_delivery_fits c handlers now k pd a.0,
  Covered-cons k (check_pass c handlers now m).to_remove (DeliveryFits c)
      (check_pass c handlers now m).deliveries,
  eq_iff k k,
)

pub check_retries-Inv : (s : RetryService) (now : ℕ) → Inv s → Inv (check_retries s now).0
unfolding check_retries
check_retries-Inv s now v = record {
  fits = AllValues-erase_all _ _ _ (check_pass-Covered s.config s.failure_handlers now _ v.fits);
}

-- What a client, a peer or the timer does with the service.
pub data Call : Type 0 where
  tracks : String → List String → MessageDeliveryMetadata → ℕ → Call
  acks : DeliveryAckMetadata → Call
  checks : ℕ → Call

unfoldable pub step : RetryService → Call → RetryService
unfolding track_delivery handle_ack check_retries
step s (tracks message_id block_ids metadata now) =
    track_delivery s message_id block_ids metadata now
step s (acks ack) = handle_ack s ack
step s (checks now) = (check_retries s now).0

unfoldable pub run : RetryService → List Call → RetryService
unfolding step
run s [] = s
run s (c ∷ cs) = run (step s c) cs

step-Inv : (s : RetryService) (c : Call) → Inv s → Inv (step s c)
unfolding step
step-Inv s (tracks message_id block_ids metadata now) v =
    track_delivery-Inv s message_id block_ids metadata now v
step-Inv s (acks ack) v = handle_ack-Inv s ack v
step-Inv s (checks now) v = check_retries-Inv s now v

run-Inv : (s : RetryService) (cs : List Call) → Inv s → Inv (run s cs)
unfolding run
run-Inv s [] v = v
run-Inv s (c ∷ cs) v = run-Inv (step s c) cs (step-Inv s c v)

-- After any calls, a delivery has had at most `max_retries` retries; none of its recipients is
-- `Announced` once it was retried, and all of them are before.
pub run-init-Inv : (c : RetryConfig) (cs : List Call) → Inv (run (init c) cs)
run-init-Inv c cs = run-Inv (init c) cs (record { fits = tt })

-- In a service whose invariant holds: while a delivery waits for its first retry, no acknowledgement
-- of it changes anything, whatever recipient and status it names.
pub ack_before_retry :
    (s : RetryService) (ack : DeliveryAckMetadata) (pd : PendingDelivery)
    → Inv s
    → find ack.message_id s.pending_deliveries ≡ some pd
    → pd.retry_count ≡ 0
    → handle_ack s ack ≡ s
ack_before_retry s ack pd v found fresh =
    handle_ack_cases (λ after. after ≡ s) s ack refl
      λ pd' old new ok.
        let same : pd' ≡ pd = cc (ok.delivery, found) in
        let fits : DeliveryFits s.config pd' =
          AllValues-find (DeliveryFits s.config) _ pd' s.pending_deliveries v.fits ok.delivery in
        let zero_retries : pd'.retry_count ≡ 0 = cc (same, fresh) in
        absurd (
          ack_refused pd'.recipient_statuses ack.recipient_id ack.status old new
            (subst (λ n. StatusesFit n pd'.recipient_statuses) zero_retries fits.1) ok.recipient
            ok.status ok.permitted)
