-- ===== src/Logs/Board/Merkle.antt =====
-- The Merkle root of the bulletin board of src/bulletin_board.cpp.
use bright_chain_cpp.Prelude.{
  ℕ, zero, suc, ◌≤◌, ◌≡◌, refl, sym, ap, ◌∙◌, Option, some, List, [], ◌∷◌, length, length-map, map,
  arith,
}
use bright_chain_cpp.Voting.Bytes.{Bytes}
use bright_chain_cpp.Logs.{Signer, concat}
use bright_chain_cpp.Logs.Board.{BulletinBoardEntry, pair_up, merkle, compute_root}

module _ (signer : Signer) where
  abbrev pub IsDefined : Option Bytes → Type 0
  IsDefined o = (h : Bytes) × (o ≡ some h)

  length-pair_up : (hs : List Bytes) → length (pair_up signer hs) ≤ length hs
  unfolding pair_up
  length-pair_up [] = omega arith
  length-pair_up (a ∷ []) = omega arith
  length-pair_up (a ∷ b ∷ hs) = let shorter = length-pair_up hs in omega arith

  merkle-IsDefined :
      (n : ℕ) (h : Bytes) (hs : List Bytes) → length hs ≤ n → IsDefined (merkle signer n (h ∷ hs))
  unfolding merkle pair_up
  merkle-IsDefined n h [] fits = (h, refl)
  merkle-IsDefined zero h (b ∷ hs) fits = absurd (omega (arith, fits))
  merkle-IsDefined (suc n) h (b ∷ hs) fits =
      let shorter = length-pair_up hs in
      merkle-IsDefined n _ (pair_up signer hs) (omega (arith, fits, shorter))

  -- The loop over the levels of the tree ends with a root.
  pub compute_root-IsDefined : (es : List BulletinBoardEntry) → IsDefined (compute_root signer es)
  unfolding compute_root
  compute_root-IsDefined [] = (_, refl)
  compute_root-IsDefined (e ∷ es) =
      merkle-IsDefined _ e.entry_hash (map (λ x. x.entry_hash) es) (omega arith)

  -- Neighbours in the one level hash like those in the other only where they are the same.
  abbrev PairsApart : List Bytes → List Bytes → Type 0
  PairsApart (a ∷ b ∷ xs) (c ∷ d ∷ ys) =
      (signer.sha256 (concat (a ∷ b ∷ [])) ≡ signer.sha256 (concat (c ∷ d ∷ []))
        → (a ≡ c) × (b ≡ d))
      × PairsApart xs ys
  PairsApart _ _ = Unit

  abbrev LevelsApart : ℕ → List Bytes → List Bytes → Type 0
  LevelsApart zero xs ys = Unit
  LevelsApart (suc n) xs ys =
      PairsApart xs ys × LevelsApart n (pair_up signer xs) (pair_up signer ys)

  pair_up_same :
      (xs ys : List Bytes)
      → length xs ≡ length ys
      → PairsApart xs ys
      → pair_up signer xs ≡ pair_up signer ys
      → xs ≡ ys
  unfolding pair_up
  pair_up_same [] [] size apart e = refl
  pair_up_same [] (y ∷ ys) size apart e = absurd (cc)
  pair_up_same (x ∷ xs) [] size apart e = absurd (cc)
  pair_up_same (a ∷ []) (c ∷ []) size apart e = e
  pair_up_same (a ∷ []) (c ∷ d ∷ ys) size apart e = absurd (omega (arith, size))
  pair_up_same (a ∷ b ∷ xs) (c ∷ []) size apart e = absurd (omega (arith, size))
  pair_up_same (a ∷ b ∷ xs) (c ∷ d ∷ ys) size (apart, more) e =
      let rest = pair_up_same xs ys (omega (arith, size)) more (cc e) in
      let (first, second) = apart (cc e) in cc (first, second, rest)

  length-pair_up_same :
      (xs ys : List Bytes)
      → length xs ≡ length ys
      → length (pair_up signer xs) ≡ length (pair_up signer ys)
  unfolding pair_up
  length-pair_up_same [] [] size = refl
  length-pair_up_same [] (y ∷ ys) size = absurd (cc)
  length-pair_up_same (x ∷ xs) [] size = absurd (cc)
  length-pair_up_same (a ∷ []) (c ∷ []) size = refl
  length-pair_up_same (a ∷ []) (c ∷ d ∷ ys) size = absurd (omega (arith, size))
  length-pair_up_same (a ∷ b ∷ xs) (c ∷ []) size = absurd (omega (arith, size))
  length-pair_up_same (a ∷ b ∷ xs) (c ∷ d ∷ ys) size =
      ap suc (length-pair_up_same xs ys (omega (arith, size)))

  some_injective : (a b : Bytes) → some a ≡ some b → a ≡ b
  some_injective a b e = cc e

  merkle_same :
      (n : ℕ) (x y : Bytes) (xs ys : List Bytes)
      → length xs ≡ length ys
      → length xs ≤ n
      → LevelsApart n (x ∷ xs) (y ∷ ys)
      → merkle signer n (x ∷ xs) ≡ merkle signer n (y ∷ ys)
      → x ∷ xs ≡ y ∷ ys
  unfolding merkle pair_up
  merkle_same n x y [] [] size fits apart e = ap (λ h. h ∷ []) (some_injective x y e)
  merkle_same n x y [] (d ∷ ys) size fits apart e = absurd (omega (arith, size))
  merkle_same n x y (b ∷ xs) [] size fits apart e = absurd (omega (arith, size))
  merkle_same zero x y (b ∷ xs) (d ∷ ys) size fits apart e = absurd (omega (arith, fits))
  merkle_same (suc n) x y (b ∷ xs) (d ∷ ys) size fits (pairs, levels) e =
      let shorter = length-pair_up xs in
      pair_up_same (x ∷ b ∷ xs) (y ∷ d ∷ ys) (omega (arith, size)) pairs (
        merkle_same n _ _ (pair_up signer xs) (pair_up signer ys)
          (length-pair_up_same xs ys (omega (arith, size))) (omega (arith, shorter, fits)) levels e)

  -- The hashes of the entries.
  abbrev pub hashes : List BulletinBoardEntry → List Bytes
  hashes es = map (λ e. e.entry_hash) es

  -- No collision between the trees over the entries of two boards.
  abbrev pub TreesApart : List BulletinBoardEntry → List BulletinBoardEntry → Type 0
  TreesApart [] bs = Unit
  TreesApart (a ∷ as') bs = LevelsApart (length (hashes as')) (hashes (a ∷ as')) (hashes bs)

  -- Two boards with as many entries and the same Merkle root have the same hashes of entries in the
  -- same order, where no two pairs that are hashed at the same place of their trees collide.
  pub compute_root_same :
      (as' bs : List BulletinBoardEntry)
      → length as' ≡ length bs
      → TreesApart as' bs
      → compute_root signer as' ≡ compute_root signer bs
      → hashes as' ≡ hashes bs
  unfolding compute_root
  compute_root_same [] [] size apart e = refl
  compute_root_same [] (b ∷ bs) size apart e = absurd (cc)
  compute_root_same (a ∷ as') [] size apart e = absurd (cc)
  compute_root_same (a ∷ as') (b ∷ bs) size apart e =
      let same =
        length-map as' (λ x. x.entry_hash) ∙ (cc size) ∙ sym (length-map bs (λ x. x.entry_hash)) in
      merkle_same (length (hashes as')) a.entry_hash b.entry_hash (hashes as') (hashes bs) same
        (omega arith) apart (e ∙ ap (λ n. merkle signer n (hashes (b ∷ bs))) (sym same))
