-- ===== src/Voting/Tally/Rows.antt =====
-- Sums of decrypted ballots, choice by choice, as the loops of src/poll_tallier.cpp form them.
use bright_chain_cpp.Prelude.{
  ℕ, zero, suc, ◌+◌, ◌^◌, ◌≤◌, ◌<◌, ◌≡◌, refl, ap, ◌∙◌, some, List, [], ◌∷◌, map, length, get_or,
  drop, take, arith,
}
use bright_chain_cpp.Prelude.Int.{pos}
use bright_chain_cpp.Voting.Bytes.{Bytes, le_value, bytes_to_int, int_to_bytes}
use bright_chain_cpp.Voting.Bytes.RoundTrip.{bytes_to_int-int_to_bytes, add_bytes}
use bright_chain_cpp.Voting.Tally.{Ballots, add_ballot, add_decrypted}

-- The number that a ciphertext decrypts to, of which eight bytes count.
abbrev pub plain : (Bytes → Bytes) → Bytes → ℕ
plain decrypt c = le_value (take 8 (decrypt c))

-- What all ballots give to choice `i`.
abbrev pub column : (Bytes → Bytes) → ℕ → Ballots → ℕ
column decrypt i [] = 0
column decrypt i (b ∷ bs) = plain decrypt (get_or b i []) + column decrypt i bs

-- The sums for the `n` choices from `i` on.
abbrev pub columns : (Bytes → Bytes) → ℕ → ℕ → Ballots → List ℕ
columns decrypt i zero bs = []
columns decrypt i (suc n) bs = column decrypt i bs ∷ columns decrypt (suc i) n bs

-- Numbers as the tallies hold them.
abbrev pub written : List ℕ → List Bytes
written = map (λ v. int_to_bytes (pos v))

-- Every number is one that an `int64_t` holds.
abbrev pub AllFit : List ℕ → Type 0
AllFit [] = Unit
AllFit (v ∷ vs) = (v < 2 ^ 63) × AllFit vs

-- Every ballot has a ciphertext for each choice.
abbrev pub AllComplete : ℕ → Ballots → Type 0
AllComplete n [] = Unit
AllComplete n (b ∷ bs) = (n ≤ length b) × AllComplete n bs

unfoldable pub row : (Bytes → Bytes) → ℕ → ℕ → List Bytes → List ℕ
row decrypt i zero b = []
row decrypt i (suc n) b = plain decrypt (get_or b i []) ∷ row decrypt (suc i) n b

unfoldable pub zip_add : List ℕ → List ℕ → List ℕ
zip_add [] ys = []
zip_add (x ∷ xs) [] = x ∷ xs
zip_add (x ∷ xs) (y ∷ ys) = (x + y) ∷ zip_add xs ys

drop-get_or : (b : List Bytes) (i : ℕ) → i < length b → drop i b ≡ (get_or b i [] ∷ drop (suc i) b)
drop-get_or [] i h = absurd (omega arith)
drop-get_or (x ∷ b) zero h = refl
drop-get_or (x ∷ b) (suc i) h = drop-get_or b i (omega arith)

plain_int :
    (decrypt : Bytes → Bytes) (c : Bytes)
    → plain decrypt c < 2 ^ 63
    → bytes_to_int (decrypt c) ≡ pos (plain decrypt c)
unfolding bytes_to_int
plain_int decrypt c h = ground arith

add_one :
    (decrypt : Bytes → Bytes) (v : ℕ) (c : Bytes)
    → v + plain decrypt c < 2 ^ 63
    → add_decrypted decrypt (int_to_bytes (pos v)) c ≡ int_to_bytes (pos (v + plain decrypt c))
unfolding add_decrypted
add_one decrypt v c h =
    add_bytes (int_to_bytes (pos v)) (decrypt c) v (plain decrypt c)
      (bytes_to_int-int_to_bytes v (omega arith)) (plain_int decrypt c (omega arith)) h

pub add_ballot-row :
    (decrypt : Bytes → Bytes) (vs : List ℕ) (i : ℕ) (b : List Bytes)
    → i + length vs ≤ length b
    → AllFit (zip_add vs (row decrypt i (length vs) b))
    → add_ballot (add_decrypted decrypt) (written vs) (drop i b)
      ≡ some (written (zip_add vs (row decrypt i (length vs) b)))
unfolding add_ballot row zip_add
add_ballot-row decrypt [] i b h fit = refl
add_ballot-row decrypt (v ∷ vs) i b h fit =
    ap (add_ballot (add_decrypted decrypt) (written (v ∷ vs))) (drop-get_or b i (omega arith))
    ∙ rw
        (
          add_one decrypt v (get_or b i []) fit.0,
          add_ballot-row decrypt vs (suc i) b (omega arith) fit.1,
        )
        refl

pub zip_add_assoc :
    (xs ys zs : List ℕ)
    → length xs ≡ length ys
    → length ys ≡ length zs
    → zip_add (zip_add xs ys) zs ≡ zip_add xs (zip_add ys zs)
unfolding zip_add
zip_add_assoc [] ys zs h k = refl
zip_add_assoc (x ∷ xs) [] zs h k = absurd (omega arith)
zip_add_assoc (x ∷ xs) (y ∷ ys) [] h k = absurd (omega arith)
zip_add_assoc (x ∷ xs) (y ∷ ys) (z ∷ zs) h k =
    ground (arith, zip_add_assoc xs ys zs (omega arith) (omega arith))

pub columns-cons :
    (decrypt : Bytes → Bytes) (i n : ℕ) (b : List Bytes) (bs : Ballots)
    → columns decrypt i n (b ∷ bs) ≡ zip_add (row decrypt i n b) (columns decrypt i n bs)
unfolding zip_add row
columns-cons decrypt i zero b bs = refl
columns-cons decrypt i (suc n) b bs = rw (columns-cons decrypt (suc i) n b bs) refl

pub zip_add-columns_nil :
    (decrypt : Bytes → Bytes) (i : ℕ) (vs : List ℕ)
    → zip_add vs (columns decrypt i (length vs) []) ≡ vs
unfolding zip_add
zip_add-columns_nil decrypt i [] = refl
zip_add-columns_nil decrypt i (v ∷ vs) = ground (arith, zip_add-columns_nil decrypt (suc i) vs)

pub length-row :
    (decrypt : Bytes → Bytes) (i n : ℕ) (b : List Bytes) → length (row decrypt i n b) ≡ n
unfolding row
length-row decrypt i zero b = refl
length-row decrypt i (suc n) b = ap suc (length-row decrypt (suc i) n b)

pub length-columns :
    (decrypt : Bytes → Bytes) (i n : ℕ) (bs : Ballots) → length (columns decrypt i n bs) ≡ n
length-columns decrypt i zero bs = refl
length-columns decrypt i (suc n) bs = ap suc (length-columns decrypt (suc i) n bs)

pub length-zip_add : (xs ys : List ℕ) → length (zip_add xs ys) ≡ length xs
unfolding zip_add
length-zip_add [] ys = refl
length-zip_add (x ∷ xs) [] = refl
length-zip_add (x ∷ xs) (y ∷ ys) = ap suc (length-zip_add xs ys)

-- Sums that fit have parts that fit.
pub AllFit-zip_add : (xs ys : List ℕ) → AllFit (zip_add xs ys) → AllFit xs
unfolding zip_add
AllFit-zip_add [] ys h = tt
AllFit-zip_add (x ∷ xs) [] h = h
AllFit-zip_add (x ∷ xs) (y ∷ ys) h = (omega (arith, h.0), AllFit-zip_add xs ys h.1)
