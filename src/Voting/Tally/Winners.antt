-- ===== src/Voting/Tally/Winners.antt =====
-- The winners that the one-round tallies of src/poll_tallier.cpp name.
use bright_chain_cpp.Prelude.{
  ℕ, zero, suc, ◌+◌, ◌^◌, ◌≤◌, ◌<◌, ◌≡◌, ◌≢◌, refl, sym, ap, ◌∙◌, Bool, true, false, ◌||◌, ◌==◌,
  some, List, [], ◌∷◌, length, get_or, max, ltb, if◌then◌else◌, arith, inl, inr, Bool-cases,
}
use bright_chain_cpp.Prelude.Int.{pos}
use bright_chain_cpp.Voting.Bytes.{Bytes, int_to_bytes, compare_bigint_bytes}
use bright_chain_cpp.Voting.Bytes.RoundTrip.{bytes_to_int-int_to_bytes}
use bright_chain_cpp.Voting.Tally.{Ballots, max_tally, positions_of, find_winners, single_winner}
use bright_chain_cpp.Voting.Tally.Rows.{written, AllFit, column, columns}

abbrev pub listed : ℕ → List ℕ → Bool
listed i [] = false
listed i (j ∷ js) = j == i || listed i js

abbrev pub maximum : List ℕ → ℕ
maximum [] = 0
maximum (v ∷ vs) = max v (maximum vs)

abbrev wr : ℕ → Bytes
wr n = int_to_bytes (pos n)

pub compare-written :
    (a b : ℕ)
    → a < 2 ^ 63
    → b < 2 ^ 63
    → compare_bigint_bytes (int_to_bytes (pos a)) (int_to_bytes (pos b)) ≡ ltb a b
unfolding compare_bigint_bytes
compare-written a b ha hb =
    rw (bytes_to_int-int_to_bytes a ha, bytes_to_int-int_to_bytes b hb) (ground arith)

max_tally-written :
    (m : ℕ) (vs : List ℕ)
    → m < 2 ^ 63
    → AllFit vs
    → max_tally (int_to_bytes (pos m)) (written vs) ≡ int_to_bytes (pos (max m (maximum vs)))
unfolding max_tally
max_tally-written m [] hm fit = ap (λ n. int_to_bytes (pos n)) (omega arith)
max_tally-written m (v ∷ vs) hm fit =
    let chosen : Bool → Bytes = λ b. max_tally (if b then wr v else wr m) (written vs) in
    elim (Bool-cases (ltb m v)) [
      | inl less ↦
          let same : max v (maximum vs) ≡ max m (max v (maximum vs)) = ground arith in
          ap chosen (compare-written m v hm fit.0 ∙ less)
          ∙ max_tally-written v vs fit.0 fit.1
          ∙ ap wr same
      | inr not_less ↦
          let same : max m (maximum vs) ≡ max m (max v (maximum vs)) = ground arith in
          ap chosen (compare-written m v hm fit.0 ∙ not_less)
          ∙ max_tally-written m vs hm fit.1
          ∙ ap wr same
    ]

positions_of-below :
    (m : Bytes) (k j : ℕ) (ts : List Bytes) → j < k → listed j (positions_of m k ts) ≡ false
unfolding positions_of
positions_of-below m k j [] h = refl
positions_of-below m k j (t ∷ ts) h =
    ground (arith, positions_of-below m (suc k) j ts (omega arith))

positions_of-listed :
    (m k i : ℕ) (vs : List ℕ)
    → m < 2 ^ 63
    → AllFit vs
    → i < length vs
    → listed (k + i) (positions_of (int_to_bytes (pos m)) k (written vs)) ≡ (get_or vs i 0 == m)
unfolding positions_of
positions_of-listed m k i [] hm fit h = absurd (omega arith)
positions_of-listed m k zero (v ∷ vs) hm fit h =
    rw (compare-written v m fit.0 hm, compare-written m v hm fit.0)
      (ground
        (arith, positions_of-below (int_to_bytes (pos m)) (suc k) k (written vs) (omega arith)))
positions_of-listed m k (suc i) (v ∷ vs) hm fit h =
    ground (arith, positions_of-listed m (suc k) i vs hm fit.1 (omega arith))

maximum-fits : (vs : List ℕ) → AllFit vs → maximum vs < 2 ^ 63
maximum-fits [] h = omega arith
maximum-fits (v ∷ vs) h = omega (arith, h.0, maximum-fits vs h.1)

-- Of tallies that fit in 63 bits, the winners are the choices whose tally is the greatest.
pub find_winners-listed :
    (vs : List ℕ) (i : ℕ)
    → AllFit vs
    → i < length vs
    → listed i (find_winners (written vs)) ≡ (get_or vs i 0 == maximum vs)
unfolding find_winners
find_winners-listed [] i fit h = absurd (omega arith)
find_winners-listed (v ∷ vs) i fit h =
    let greatest : max v (max v (maximum vs)) ≡ maximum (v ∷ vs) = omega arith in
    let at : i ≡ 0 + i = omega arith in
    ap (λ m. listed i (positions_of m 0 (written (v ∷ vs))))
      (max_tally-written v (v ∷ vs) fit.0 fit ∙ ap wr greatest)
    ∙ ap (λ j. listed j (positions_of (wr (maximum (v ∷ vs))) 0 (written (v ∷ vs)))) at
    ∙ positions_of-listed (maximum (v ∷ vs)) 0 i (v ∷ vs) (maximum-fits (v ∷ vs) fit) fit h

pub maximum-bound : (vs : List ℕ) (i : ℕ) → i < length vs → get_or vs i 0 ≤ maximum vs
maximum-bound [] i h = absurd (omega arith)
maximum-bound (v ∷ vs) zero h = omega arith
maximum-bound (v ∷ vs) (suc i) h = omega (arith, maximum-bound vs i (omega arith))

pub single_winner-only : (ws : List ℕ) (i : ℕ) → single_winner ws ≡ some (pos i) → ws ≡ i ∷ []
single_winner-only [] i e = absurd (cc)
single_winner-only (j ∷ []) i e = cc
single_winner-only (j ∷ k ∷ ws) i e = absurd (cc)

-- The choice that is the only winner has strictly more than every other.
pub only_winner-beats :
    (vs : List ℕ) (i j : ℕ)
    → AllFit vs
    → find_winners (written vs) ≡ i ∷ []
    → i < length vs
    → j < length vs
    → j ≢ i
    → get_or vs j 0 < get_or vs i 0
only_winner-beats vs i j fit only hi hj other =
    let won = sym (ap (listed i) only) ∙ find_winners-listed vs i fit hi in
    let lost = sym (ap (listed j) only) ∙ find_winners-listed vs j fit hj in
    ground (arith, won, lost, maximum-bound vs j hj, other)

pub get_or-columns :
    (decrypt : Bytes → Bytes) (k n i : ℕ) (bs : Ballots)
    → i < n
    → get_or (columns decrypt k n bs) i 0 ≡ column decrypt (k + i) bs
get_or-columns decrypt k zero i bs h = absurd (omega arith)
get_or-columns decrypt k (suc n) zero bs h =
    let at : k ≡ k + 0 = omega arith in ap (λ m. column decrypt m bs) at
get_or-columns decrypt k (suc n) (suc i) bs h =
    let at : suc k + i ≡ k + suc i = omega arith in
    get_or-columns decrypt (suc k) n i bs (omega arith) ∙ ap (λ m. column decrypt m bs) at

pub positions_of-bound :
    (m : Bytes) (k j : ℕ) (ts : List Bytes)
    → listed j (positions_of m k ts) ≡ true
    → j < k + length ts
unfolding positions_of
positions_of-bound m k j [] h = absurd (cc)
positions_of-bound m k j (t ∷ ts) h = ground (arith, positions_of-bound m (suc k) j ts)
