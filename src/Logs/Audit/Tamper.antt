-- ===== src/Logs/Audit/Tamper.antt =====
-- What the chain of hashes of the audit log of src/audit_log.cpp protects, and what it does not.
use bright_chain_cpp.Prelude.{
  ℕ, ◌≡◌, refl, sym, ◌∙◌, true, Option, none, some, List, [], ◌∷◌, ◌++◌, length, map,
}
use bright_chain_cpp.Voting.Bytes.{Bytes}
use bright_chain_cpp.Voting.Poll.{timestamp_bytes}
use bright_chain_cpp.Logs.{Signer, eq_of_arrays_equal}
use bright_chain_cpp.Logs.Audit.{
  AuditEntry, AuditLog, last_hash, serialize_for_hashing, compute_entry_hash, follows, verify_from,
  verify_chain, sequence_bytes, event_code, bytes_or_none,
}
use bright_chain_cpp.Logs.Audit.Chain.{IsSound, verify_from-parts, verify_from-cons}

-- Parts of the same length.
append_injective {ℓ} :
    {A : Type ℓ} (a b c d : List A) → length a ≡ length b → a ++ c ≡ b ++ d → (a ≡ b) × (c ≡ d)
append_injective [] [] c d size e = (refl, e)
append_injective [] (y ∷ b) c d size e = absurd (cc)
append_injective (x ∷ a) [] c d size e = absurd (cc)
append_injective (x ∷ a) (y ∷ b) c d size e =
    let (same, rest) = append_injective a b c d (cc size) (cc e) in (cc (e, same), rest)

module _ (signer : Signer) where
  abbrev pub bytes_of : AuditEntry → Bytes
  bytes_of e = serialize_for_hashing signer e

  -- The first 17 bytes, which have the same number in each entry.
  abbrev head_of : AuditEntry → Bytes
  head_of e =
      sequence_bytes signer e.sequence
      ++ (event_code e.event_type ∷ [])
      ++ timestamp_bytes 8 e.timestamp

  abbrev options_of : AuditEntry → Bytes
  options_of e = bytes_or_none e.voter_id_hash ++ bytes_or_none e.authority_id

  abbrev SameSizes : AuditEntry → AuditEntry → Type 0
  SameSizes x y =
      (length x.poll_id ≡ length y.poll_id) × (length x.previous_hash ≡ length y.previous_hash)

  -- Two entries with the same hash have the same bytes.
  abbrev NoCollision : AuditEntry → AuditEntry → Type 0
  NoCollision x y = signer.sha3 (bytes_of x) ≡ signer.sha3 (bytes_of y) → bytes_of x ≡ bytes_of y

  -- As many entries in one log as in the other, with poll ids and previous hashes of the same sizes,
  -- and no collision of hashes between the two.
  abbrev pub Comparable : List AuditEntry → List AuditEntry → Type 0
  Comparable [] [] = Unit
  Comparable (x ∷ xs) (y ∷ ys) = SameSizes x y × NoCollision x y × Comparable xs ys
  Comparable _ _ = ⊥

  bytes_of-previous :
      (x y : AuditEntry)
      → SameSizes x y
      → bytes_of x ≡ bytes_of y
      → x.previous_hash ≡ y.previous_hash
  unfolding serialize_for_hashing
  bytes_of-previous x y (id_size, hash_size) e =
      let x_rest = x.previous_hash ++ options_of x in
      let y_rest = y.previous_hash ++ options_of y in
      let (_, after) =
        append_injective (head_of x) (head_of y) (x.poll_id ++ x_rest) (y.poll_id ++ y_rest) refl
          e in
      let (_, later) = append_injective x.poll_id y.poll_id x_rest y_rest id_size after in
      (append_injective x.previous_hash y.previous_hash (options_of x) (options_of y) hash_size
        later).0

  same_bytes :
      (x y : AuditEntry)
      → IsSound signer x
      → IsSound signer y
      → NoCollision x y
      → x.entry_hash ≡ y.entry_hash
      → bytes_of x ≡ bytes_of y
  unfolding compute_entry_hash
  same_bytes x y (x_hash, _) (y_hash, _) apart e = apart (x_hash ∙ e ∙ sym y_hash)

  previous_hashes :
      (px py x y : AuditEntry)
      → SameSizes x y
      → follows signer (some px) x ≡ true
      → follows signer (some py) y ≡ true
      → bytes_of x ≡ bytes_of y
      → px.entry_hash ≡ py.entry_hash
  previous_hashes px py x y sizes x_follows y_follows e =
      sym (eq_of_arrays_equal x.previous_hash px.entry_hash x_follows)
      ∙ bytes_of-previous x y sizes e
      ∙ eq_of_arrays_equal y.previous_hash py.entry_hash y_follows

  -- From the last entries back to the first.
  same_from :
      (px py : AuditEntry) (xs ys : List AuditEntry)
      → IsSound signer px
      → IsSound signer py
      → NoCollision px py
      → verify_from signer (some px) xs ≡ true
      → verify_from signer (some py) ys ≡ true
      → Comparable xs ys
      → last_hash px.entry_hash xs ≡ last_hash py.entry_hash ys
      → (bytes_of px ≡ bytes_of py) × (map bytes_of xs ≡ map bytes_of ys)
  unfolding last_hash
  same_from px py [] [] px_sound py_sound apart x_ok y_ok same e =
      (same_bytes px py px_sound py_sound apart e, refl)
  same_from px py [] (y ∷ ys) px_sound py_sound apart x_ok y_ok same e = absurd same
  same_from px py (x ∷ xs) [] px_sound py_sound apart x_ok y_ok same e = absurd same
  same_from px py (x ∷ xs) (y ∷ ys) px_sound py_sound apart x_ok y_ok (sizes, distinct, same) e =
      let (x_sound, x_follows, x_rest) = verify_from-parts signer (some px) x xs x_ok in
      let (y_sound, y_follows, y_rest) = verify_from-parts signer (some py) y ys y_ok in
      let (here, rest) = same_from x y xs ys x_sound y_sound distinct x_rest y_rest same e in
      let before = previous_hashes px py x y sizes x_follows y_follows here in
      (same_bytes px py px_sound py_sound apart before, cc (here, rest))

  entries_same :
      (xs ys : List AuditEntry) (h : Bytes)
      → verify_from signer none xs ≡ true
      → verify_from signer none ys ≡ true
      → Comparable xs ys
      → last_hash h xs ≡ last_hash h ys
      → map bytes_of xs ≡ map bytes_of ys
  unfolding last_hash
  entries_same [] [] h x_ok y_ok same e = refl
  entries_same [] (y ∷ ys) h x_ok y_ok same e = absurd same
  entries_same (x ∷ xs) [] h x_ok y_ok same e = absurd same
  entries_same (x ∷ xs) (y ∷ ys) h x_ok y_ok (sizes, distinct, same) e =
      let (x_sound, _, x_rest) = verify_from-parts signer none x xs x_ok in
      let (y_sound, _, y_rest) = verify_from-parts signer none y ys y_ok in
      let (here, rest) = same_from x y xs ys x_sound y_sound distinct x_rest y_rest same e in
      cc (here, rest)

  -- Two logs whose chains verify and that end with the same hash recorded the same bytes, entry by
  -- entry, where they have as many entries, with poll ids and previous hashes of the same sizes, and
  -- no two of their entries collide.
  pub verify_chain_same :
      (a b : AuditLog) (h : Bytes)
      → verify_chain signer a ≡ true
      → verify_chain signer b ≡ true
      → Comparable a.entries b.entries
      → last_hash h a.entries ≡ last_hash h b.entries
      → map bytes_of a.entries ≡ map bytes_of b.entries
  unfolding verify_chain last_hash
  verify_chain_same a b h a_ok b_ok same e = entries_same a.entries b.entries h a_ok b_ok same e

  verify_from_later :
      (previous : Option AuditEntry) (es later : List AuditEntry)
      → verify_from signer previous (es ++ later) ≡ true
      → verify_from signer none later ≡ true
  unfolding verify_from
  verify_from_later previous [] [] ok = refl
  verify_from_later previous [] (e ∷ later) ok =
      let (sound, _, rest) = verify_from-parts signer previous e later ok in
      verify_from-cons signer none e later sound refl rest
  verify_from_later previous (e ∷ es) later ok =
      verify_from_later (some e) es later (verify_from-parts signer previous e (es ++ later) ok).2

  -- A log whose chain verifies still verifies when its first entries are taken away.
  pub verify_chain_later :
      (es later : List AuditEntry) (n : ℕ)
      → verify_chain signer (record { entries = es ++ later; sequence = n }) ≡ true
      → verify_chain signer (record { entries = later; sequence = n }) ≡ true
  unfolding verify_chain
  verify_chain_later es later n ok = verify_from_later none es later ok
