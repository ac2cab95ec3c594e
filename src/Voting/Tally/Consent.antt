-- ===== src/Voting/Tally/Consent.antt =====
-- How `tallyConsentBased` of src/poll_tallier.cpp counts an objection.
use bright_chain_cpp.Prelude.{
  ℕ, zero, suc, ◌/◌, ◌^◌, ◌≤◌, ◌<◌, ◌≡◌, refl, sym, ap, ◌∙◌, true, false, [], ◌∷◌, ◌++◌, length,
  length-append, arith, subst, take,
}
use bright_chain_cpp.Prelude.Int.{pos, negsuc, ltb_ℤ}
use bright_chain_cpp.Voting.Bytes.{
  Bytes, le_value, le_bytes, int_to_bytes, bytes_to_int, add_bigint_bytes,
}
use bright_chain_cpp.Voting.Tally.{add_objection, add_support}

le_bytes-shrink : (f n : ℕ) → n < 256 ^ f → le_bytes (suc f) n ≡ le_bytes f n
le_bytes-shrink zero n h = ground arith
le_bytes-shrink (suc f) n h = ground (arith, le_bytes-shrink f (n / 256))

length-le_bytes : (f n : ℕ) → length (le_bytes f n) ≤ f
length-le_bytes zero n = omega arith
length-le_bytes (suc f) n = ground (arith, length-le_bytes f (n / 256))

take-all : (m : ℕ) (xs : Bytes) → length xs ≤ m → take m xs ≡ xs
take-all zero [] h = refl
take-all zero (x ∷ xs) h = absurd (omega arith)
take-all (suc m) [] h = refl
take-all (suc m) (x ∷ xs) h = ap (λ ys. x ∷ ys) (take-all m xs (omega arith))

pow-pos : (f : ℕ) → 1 ≤ 256 ^ f
pow-pos zero = omega arith
pow-pos (suc f) = omega (arith, pow-pos f)

-- A last byte 0xFF makes the number positive, and it takes one more byte.
marked_value :
    (f n : ℕ)
    → (0 < le_value (le_bytes f n ++ 255 ∷ []))
      × (le_value (le_bytes f n ++ 255 ∷ []) < 256 ^ suc f)
marked_value zero n = (omega arith, omega arith)
marked_value (suc f) n =
    (ground (arith, marked_value f (n / 256)), ground (arith, marked_value f (n / 256), pow-pos f))

marked_bytes : (k : ℕ) → k < 2 ^ 48 → take 8 (le_bytes 8 k ++ 255 ∷ []) ≡ le_bytes 6 k ++ 255 ∷ []
marked_bytes k h =
    ap (λ bs. take 8 (bs ++ 255 ∷ []))
      (le_bytes-shrink 7 k (omega arith) ∙ le_bytes-shrink 6 k (omega arith))
    ∙ take-all 8 (le_bytes 6 k ++ 255 ∷ [])
        (omega (arith, length-append (le_bytes 6 k) (255 ∷ []), length-le_bytes 6 k))

positive_int :
    (bs : Bytes)
    → 0 < le_value (take 8 bs)
    → le_value (take 8 bs) < 2 ^ 63
    → ltb_ℤ (pos 0) (bytes_to_int bs) ≡ true
unfolding bytes_to_int
positive_int bs h k = ground arith

-- The byte form of -(n + 1) is read as a positive number.
objection_positive :
    (n : ℕ) → suc n < 2 ^ 48 → ltb_ℤ (pos 0) (bytes_to_int (int_to_bytes (negsuc n))) ≡ true
unfolding int_to_bytes
objection_positive n h =
    let bs = le_bytes 8 (suc n) ++ 255 ∷ [] in
    let same = ap le_value (marked_bytes (suc n) h) in
    let value = marked_value 6 (suc n) in
    positive_int bs (subst (λ v. 0 < v) (sym same) value.0) (omega (arith, same, value.1))

-- An objection, a ciphertext of the byte form of a number from -1 down to more than -2^48, is not
-- counted as an objection: it counts as a vote in support.
objection_counts_as_support :
    (decrypt : Bytes → Bytes) (t c : Bytes) (n : ℕ)
    → suc n < 2 ^ 48
    → decrypt c ≡ int_to_bytes (negsuc n)
    → (add_objection decrypt t c ≡ t)
      × (add_support decrypt t c ≡ add_bigint_bytes t (int_to_bytes (pos 1)))
unfolding add_objection add_support
objection_counts_as_support decrypt t c n h is_objection =
    let positive = objection_positive n h in
    let not_negative : ltb_ℤ (bytes_to_int (int_to_bytes (negsuc n))) (pos 0) ≡ false =
      ground (arith, positive) in
    (rw (is_objection, not_negative) refl, rw (is_objection, positive) refl)
