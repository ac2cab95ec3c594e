-- ===== src/Voting/Encoder/Counting.antt =====
-- From src/vote_encoder.cpp to src/poll_tallier.cpp: what the sums of a plurality poll count.
use bright_chain_cpp.Prelude.{
  ℕ, zero, suc, ◌+◌, ◌%◌, ◌^◌, ◌≤◌, ◌<◌, ◌≡◌, refl, sym, ap, subst, true, false, ◌∙◌, Bool, ◌==◌,
  List, [], ◌∷◌, length, get_or, if◌then◌else◌, arith, some,
}
use bright_chain_cpp.Prelude.Int.{pos}
use bright_chain_cpp.Voting.Bytes.{Bytes, int_to_bytes}
use bright_chain_cpp.Voting.Ballot.{eq_int}
use bright_chain_cpp.Voting.Encoder.{Encrypt, encrypt_each, encode_plurality}
use bright_chain_cpp.Voting.Tally.{additive_tallies}
use bright_chain_cpp.Voting.Tally.Rows.{plain, column, columns, written, AllFit, AllComplete}
use bright_chain_cpp.Voting.Tally.Totals.{additive_tallies-columns}

-- Decryption gives back a plaintext of one byte.
abbrev pub KeepsBytes : Encrypt → (Bytes → Bytes) → Type 0
KeepsBytes encrypt decrypt = (k b : ℕ) → plain decrypt (encrypt k (b % 256 ∷ [])) ≡ b % 256

-- How many of the voters chose `i`.
abbrev pub count_choice : ℕ → List ℕ → ℕ
count_choice i [] = 0
count_choice i (c ∷ cs) = (if i == c then 1 else 0) + count_choice i cs

abbrev pub plurality_ballots : Encrypt → ℕ → List ℕ → List (List Bytes)
plurality_ballots encrypt n [] = []
plurality_ballots encrypt n (c ∷ cs) =
    (encode_plurality encrypt (pos c) n).encrypted ∷ plurality_ballots encrypt n cs

length-encrypt_each :
    (encrypt : Encrypt) (f : ℕ → Bytes) (i n : ℕ) → length (encrypt_each encrypt f i n) ≡ n
unfolding encrypt_each
length-encrypt_each encrypt f i zero = refl
length-encrypt_each encrypt f i (suc n) = ap suc (length-encrypt_each encrypt f (suc i) n)

get_or-encrypt_each :
    (encrypt : Encrypt) (f : ℕ → Bytes) (k n i : ℕ)
    → i < n
    → get_or (encrypt_each encrypt f k n) i [] ≡ encrypt (k + i) (f (k + i))
unfolding encrypt_each
get_or-encrypt_each encrypt f k zero i h = absurd (omega arith)
get_or-encrypt_each encrypt f k (suc n) zero h =
    let at : k ≡ k + 0 = omega arith in ap (λ j. encrypt j (f j)) at
get_or-encrypt_each encrypt f k (suc n) (suc i) h =
    let at : suc k + i ≡ k + suc i = omega arith in
    get_or-encrypt_each encrypt f (suc k) n i (omega arith) ∙ ap (λ j. encrypt j (f j)) at

plain_bit :
    (encrypt : Encrypt) (decrypt : Bytes → Bytes) (k : ℕ) (b : Bool)
    → KeepsBytes encrypt decrypt
    → plain decrypt (encrypt k (int_to_bytes (if b then pos 1 else pos 0))) ≡ (if b then 1 else 0)
unfolding int_to_bytes
plain_bit encrypt decrypt k true keeps = keeps k 1
plain_bit encrypt decrypt k false keeps = keeps k 0

plain-encode_plurality :
    (encrypt : Encrypt) (decrypt : Bytes → Bytes) (n i c : ℕ)
    → KeepsBytes encrypt decrypt
    → i < n
    → plain decrypt (get_or (encode_plurality encrypt (pos c) n).encrypted i [])
      ≡ (if i == c then 1 else 0)
unfolding encode_plurality
plain-encode_plurality encrypt decrypt n i c keeps h =
    let at : 0 + i ≡ i = omega arith in
    let vote : ℕ → Bytes = λ j. int_to_bytes (if eq_int (pos j) (pos c) then pos 1 else pos 0) in
    ap (plain decrypt) (get_or-encrypt_each encrypt vote 0 n i h ∙ ap (λ j. encrypt j (vote j)) at)
    ∙ plain_bit encrypt decrypt i (i == c) keeps

column-plurality_ballots :
    (encrypt : Encrypt) (decrypt : Bytes → Bytes) (n i : ℕ) (cs : List ℕ)
    → KeepsBytes encrypt decrypt
    → i < n
    → column decrypt i (plurality_ballots encrypt n cs) ≡ count_choice i cs
column-plurality_ballots encrypt decrypt n i [] keeps h = refl
column-plurality_ballots encrypt decrypt n i (c ∷ cs) keeps h =
    let one = plain-encode_plurality encrypt decrypt n i c keeps h in
    let rest = column-plurality_ballots encrypt decrypt n i cs keeps h in omega (arith, one, rest)

-- The counts of the choices from `i` on.
abbrev pub counts : ℕ → ℕ → List ℕ → List ℕ
counts i zero cs = []
counts i (suc n) cs = count_choice i cs ∷ counts (suc i) n cs

columns-counts :
    (encrypt : Encrypt) (decrypt : Bytes → Bytes) (n i m : ℕ) (cs : List ℕ)
    → KeepsBytes encrypt decrypt
    → i + m ≤ n
    → columns decrypt i m (plurality_ballots encrypt n cs) ≡ counts i m cs
columns-counts encrypt decrypt n i zero cs keeps h = refl
columns-counts encrypt decrypt n i (suc m) cs keeps h =
    rw
      (
        column-plurality_ballots encrypt decrypt n i cs keeps (omega arith),
        columns-counts encrypt decrypt n (suc i) m cs keeps (omega arith),
      )
      refl

count_choice-bound : (i : ℕ) (cs : List ℕ) → count_choice i cs ≤ length cs
count_choice-bound i [] = omega arith
count_choice-bound i (c ∷ cs) = ground (arith, count_choice-bound i cs)

counts-fit : (i m : ℕ) (cs : List ℕ) → length cs < 2 ^ 63 → AllFit (counts i m cs)
counts-fit i zero cs h = tt
counts-fit i (suc m) cs h = (omega (arith, count_choice-bound i cs), counts-fit (suc i) m cs h)

plurality_ballots_complete :
    (encrypt : Encrypt) (n : ℕ) (cs : List ℕ) → AllComplete n (plurality_ballots encrypt n cs)
unfolding encode_plurality
plurality_ballots_complete encrypt n [] = tt
plurality_ballots_complete encrypt n (c ∷ cs) = (
  omega (
    arith,
    length-encrypt_each encrypt
        (λ j. int_to_bytes (if eq_int (pos j) (pos c) then pos 1 else pos 0)) 0 n,
  ),
  plurality_ballots_complete encrypt n cs,
)

-- Where decryption gives back plaintexts of one byte: the tallies of fewer than 2^63 plurality
-- ballots, as the encoder makes them, are the numbers of voters for each choice.
pub plurality_tallies :
    (encrypt : Encrypt) (decrypt : Bytes → Bytes) (n : ℕ) (cs : List ℕ)
    → KeepsBytes encrypt decrypt
    → length cs < 2 ^ 63
    → additive_tallies decrypt (plurality_ballots encrypt n cs) n ≡ some (written (counts 0 n cs))
plurality_tallies encrypt decrypt n cs keeps few =
    let same = columns-counts encrypt decrypt n 0 n cs keeps (omega arith) in
    additive_tallies-columns decrypt (plurality_ballots encrypt n cs) n
      (plurality_ballots_complete encrypt n cs) (subst AllFit (sym same) (counts-fit 0 n cs few))
    ∙ ap (λ vs. some (written vs)) same
