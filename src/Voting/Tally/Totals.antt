-- ===== src/Voting/Tally/Totals.antt =====
-- What `tallyAdditive` of src/poll_tallier.cpp adds up.
use bright_chain_cpp.Prelude.{
  ℕ, zero, suc, ◌≡◌, refl, sym, ap, subst, length-replicate, ◌∙◌, some, List, [], ◌∷◌, length,
  replicate, arith,
}
use bright_chain_cpp.Voting.Bytes.{Bytes}
use bright_chain_cpp.Voting.Tally.{
  Ballots, add_ballot, add_ballots, add_decrypted, additive_tallies, zero_tallies,
}
use bright_chain_cpp.Voting.Tally.Rows.{
  columns, written, AllFit, AllComplete, row, zip_add, add_ballot-row, zip_add_assoc, columns-cons,
  zip_add-columns_nil, length-row, length-columns, length-zip_add, AllFit-zip_add,
}

add_ballots-columns :
    (decrypt : Bytes → Bytes) (n : ℕ) (bs : Ballots) (vs : List ℕ)
    → length vs ≡ n
    → AllComplete n bs
    → AllFit (zip_add vs (columns decrypt 0 n bs))
    → add_ballots (add_decrypted decrypt) bs (some (written vs))
      ≡ some (written (zip_add vs (columns decrypt 0 n bs)))
unfolding add_ballots
add_ballots-columns decrypt n [] vs len complete fit =
    ap (λ ws. some (written ws))
      (sym (zip_add-columns_nil decrypt 0 vs) ∙ ap (λ m. zip_add vs (columns decrypt 0 m [])) len)
add_ballots-columns decrypt n (b ∷ bs) vs len complete fit =
    let r = row decrypt 0 n b in
    let regrouped : zip_add (zip_add vs r) (columns decrypt 0 n bs)
        ≡ zip_add vs (columns decrypt 0 n (b ∷ bs)) =
      zip_add_assoc vs r (columns decrypt 0 n bs) (len ∙ sym (length-row decrypt 0 n b))
        (length-row decrypt 0 n b ∙ sym (length-columns decrypt 0 n bs))
      ∙ ap (zip_add vs) (sym (columns-cons decrypt 0 n b bs)) in
    let fit' = subst AllFit (sym regrouped) fit in
    let first : add_ballot (add_decrypted decrypt) (written vs) b ≡ some (written (zip_add vs r)) =
      subst
        (λ m.
          AllFit (zip_add vs (row decrypt 0 m b))
          → add_ballot (add_decrypted decrypt) (written vs) b
            ≡ some (written (zip_add vs (row decrypt 0 m b))))
        len (add_ballot-row decrypt vs 0 b (omega (arith, complete.0)))
        (AllFit-zip_add (zip_add vs r) (columns decrypt 0 n bs) fit') in
    ap (add_ballots (add_decrypted decrypt) bs) first
    ∙ add_ballots-columns decrypt n bs (zip_add vs r) (length-zip_add vs r ∙ len) complete.1 fit'
    ∙ ap (λ ws. some (written ws)) regrouped

zip_add-zeros : (n : ℕ) (ys : List ℕ) → length ys ≡ n → zip_add (replicate n 0) ys ≡ ys
unfolding zip_add
zip_add-zeros zero [] h = refl
zip_add-zeros zero (y ∷ ys) h = absurd (omega arith)
zip_add-zeros (suc n) [] h = absurd (omega arith)
zip_add-zeros (suc n) (y ∷ ys) h = ground (arith, zip_add-zeros n ys (omega arith))

written-zeros : (n : ℕ) → written (replicate n 0) ≡ zero_tallies n
unfolding zero_tallies
written-zeros zero = refl
written-zeros (suc n) = rw (written-zeros n) refl

-- Where every ballot has a ciphertext for each choice, and the sums fit in 63 bits, the additive
-- tallies are the sums: tally `i` is the sum, over all ballots, of what ciphertext `i` decrypts to.
pub additive_tallies-columns :
    (decrypt : Bytes → Bytes) (ballots : Ballots) (n : ℕ)
    → AllComplete n ballots
    → AllFit (columns decrypt 0 n ballots)
    → additive_tallies decrypt ballots n ≡ some (written (columns decrypt 0 n ballots))
unfolding additive_tallies
additive_tallies-columns decrypt ballots n complete fit =
    let zeros =
      zip_add-zeros n (columns decrypt 0 n ballots) (length-columns decrypt 0 n ballots) in
    ap (λ ts. add_ballots (add_decrypted decrypt) ballots (some ts)) (sym (written-zeros n))
    ∙ add_ballots-columns decrypt n ballots (replicate n 0) (length-replicate n 0) complete
        (subst AllFit (sym zeros) fit)
    ∙ ap (λ ws. some (written ws)) zeros
