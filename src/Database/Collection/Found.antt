-- ===== src/Database/Collection/Found.antt =====
-- `find` of src/collection.cpp against a description of its results.
use bright_chain_cpp.Prelude.{
  ℕ, zero, suc, ◌-◌, ◌≡◌, refl, sym, ap, subst, ◌∙◌, String, Bool, true, false, Option, none, some,
  List, [], ◌∷◌, take, drop, max, ltb, leb→le, arith, if◌then◌else◌, if_cases,
}
use bright_chain_cpp.Prelude.Map.{Map, AllValues}
use bright_chain_cpp.Json.{JsonLibrary}
use bright_chain_cpp.Database.Query.{matches}
use bright_chain_cpp.Database.Store.{Store, ok}
use bright_chain_cpp.Database.Collection.{State, M, pure, ◌>>=◌, continue, read_json, ensure_loaded}
use bright_chain_cpp.Database.Collection.Operations.{
  FindOptions, or_zero, reached, find_loop, find_all, with_index,
}
use bright_chain_cpp.Database.Collection.Cached.{
  IsCoherent, IsTitled, Loads, with_cache, load_document-Loads,
}

-- The first results up to the limit, of which `found` are there; a limit of zero is taken for one.
abbrev pub capped {ℓ} : {A : Type ℓ} → Option ℕ → ℕ → List A → List A
capped none found xs = xs
capped (some n) found xs = take (max 1 (n - found)) xs

drop-nil {ℓ} : {A : Type ℓ} (n : ℕ) → drop {A = A} n [] ≡ []
drop-nil zero = refl
drop-nil (suc n) = refl

capped-nil {ℓ} : {A : Type ℓ} (o : Option ℕ) (found : ℕ) → capped {A = A} o found [] ≡ []
capped-nil none found = refl
capped-nil (some n) found =
    let size : max 1 (n - found) ≡ suc (max 1 (n - found) - 1) = omega arith in
    ap (λ k. take k []) size

capped-last {ℓ} :
    {A : Type ℓ} (o : Option ℕ) (found : ℕ) (x : A) (xs : List A)
    → reached o (suc found) ≡ true
    → capped o found (x ∷ xs) ≡ x ∷ []
capped-last none found x xs h = absurd (cc)
capped-last (some n) found x xs h =
    let size : max 1 (n - found) ≡ 1 = omega (arith, leb→le n (suc found) h) in
    ap (λ k. take k (x ∷ xs)) size

capped-more {ℓ} :
    {A : Type ℓ} (o : Option ℕ) (found : ℕ) (x : A) (xs : List A)
    → reached o (suc found) ≡ false
    → capped o found (x ∷ xs) ≡ x ∷ capped o (suc found) xs
capped-more none found x xs h = refl
capped-more (some n) found x xs h =
    let size : max 1 (n - found) ≡ suc (max 1 (n - suc found)) = ground (arith, h) in
    ap (λ k. take k (x ∷ xs)) size

drop-skipped {ℓ} :
    {A : Type ℓ} (skip skipped : ℕ) (x : A) (xs : List A)
    → ltb skipped skip ≡ true
    → drop (skip - skipped) (x ∷ xs) ≡ drop (skip - suc skipped) xs
drop-skipped skip skipped x xs h =
    let size : skip - skipped ≡ suc (skip - suc skipped) = ground (arith, h) in
    ap (λ k. drop k (x ∷ xs)) size

drop-none {ℓ} :
    {A : Type ℓ} (skip skipped : ℕ) (xs : List A)
    → ltb skipped skip ≡ false
    → drop (skip - skipped) xs ≡ xs
drop-none skip skipped xs h =
    let size : skip - skipped ≡ 0 = ground (arith, h) in ap (λ k. drop k xs) size

module _ (lib : JsonLibrary) where
  open lib use {Json}

  -- The documents that match.
  abbrev pub selected : Json → List Json → List Json
  selected filter [] = []
  selected filter (d ∷ ds) =
      let rest = selected filter ds in if matches lib d filter then d ∷ rest else rest

  -- After `skipped` of them are skipped and `found` are taken.
  abbrev pub expected : Json → FindOptions → ℕ → ℕ → List Json → List Json
  expected filter options skipped found ds =
      capped options.limit found (drop (or_zero options.skip - skipped) (selected filter ds))

  -- The blocks of the index hold these documents.
  abbrev pub AllRead : Store lib → Map String → List Json → Type 0
  AllRead store [] [] = Unit
  AllRead store ((id, hex) ∷ index) (d ∷ ds) =
      (read_json lib hex store ≡ ok d) × AllRead store index ds
  AllRead store _ _ = ⊥

  -- What `find` does with a document.
  abbrev visit : Json → FindOptions → ℕ → ℕ → Map String → Json → M lib (List Json)
  visit filter options skipped found index d =
      if matches lib d filter
      then if ltb skipped (or_zero options.skip)
        then find_loop lib filter options (suc skipped) found index
        else if reached options.limit (suc found)
        then pure lib (d ∷ [])
        else ◌>>=◌ lib (find_loop lib filter options skipped (suc found) index)
            (λ docs. pure lib (d ∷ docs))
      else find_loop lib filter options skipped found index

  visit-Loads :
      (filter : Json) (options : FindOptions) (skipped found : ℕ) (index : Map String) (d : Json)
      (ds : List Json) (s : State lib)
      → IsCoherent lib s.collection.doc_index s.store s.collection.doc_cache
      → ((skipped found : ℕ)
          → Loads lib s
              (find_loop lib filter options skipped found index s)
              (expected filter options skipped found ds))
      → Loads lib s
          (visit filter options skipped found index d s)
          (expected filter options skipped found (d ∷ ds))
  visit-Loads filter options skipped found index d ds s coherent later =
      let skip = or_zero options.skip in
      let rest = selected filter ds in
      let all = expected filter options skipped found (d ∷ ds) in
      let choose = λ (b : Bool). if b then d ∷ rest else rest in
      let result = λ (b : Bool) (e : matches lib d filter ≡ b).
        ap (λ c. capped options.limit found (drop (skip - skipped) (choose c))) e in
      let goal : M lib (List Json) → Type 0 = λ m. Loads lib s (m s) all in
      if_cases goal (matches lib d filter) _ _
        (λ yes.
          if_cases goal (ltb skipped skip) _ _
            (λ skips.
              subst (Loads lib s _)
                (sym (
                  result true yes
                  ∙ ap (capped options.limit found) (drop-skipped skip skipped d rest skips)))
                (later (suc skipped) found))
            (λ takes.
              let first =
                result true yes
                ∙ ap (capped options.limit found) (drop-none skip skipped (d ∷ rest) takes) in
              if_cases goal (reached options.limit (suc found)) _ _
                (λ last.
                  subst (Loads lib s (s, ok (d ∷ [])))
                    (sym (first ∙ capped-last options.limit found d rest last))
                    (s.collection.doc_cache, refl, coherent))
                (λ more.
                  let (cache, e, kept) = later skipped (suc found) in
                  let tail =
                    ap (capped options.limit (suc found)) (drop-none skip skipped rest takes) in
                  subst (Loads lib s _)
                    (sym (
                      first
                      ∙ capped-more options.limit found d rest more
                      ∙ ap (λ ds'. d ∷ ds') (sym tail)))
                    (cache, ap (λ p. continue lib p (λ docs. pure lib (d ∷ docs))) e, kept))))
        (λ no. subst (Loads lib s _) (sym (result false no)) (later skipped found))

  find_loop-Loads :
      (filter : Json) (options : FindOptions) (skipped found : ℕ) (index : Map String)
      (ds : List Json) (s : State lib)
      → IsCoherent lib s.collection.doc_index s.store s.collection.doc_cache
      → AllValues (IsTitled lib s.collection.doc_index s.store) index
      → AllRead s.store index ds
      → Loads lib s
          (find_loop lib filter options skipped found index s)
          (expected filter options skipped found ds)
  unfolding find_loop
  find_loop-Loads filter options skipped found [] [] s coherent titled read =
      let skip = or_zero options.skip in
      let none' =
        ap (capped options.limit found) (drop-nil {A = Json} (skip - skipped))
        ∙ capped-nil options.limit found in
      subst (Loads lib s (s, ok [])) (sym none') (s.collection.doc_cache, refl, coherent)
  find_loop-Loads filter options skipped found [] (d ∷ ds) s coherent titled read = absurd read
  find_loop-Loads filter options skipped found (e ∷ index) [] s coherent titled read = absurd read
  find_loop-Loads filter options skipped found ((id, hex) ∷ index) (d ∷ ds) s coherent
        (here, titled) (read, reads) =
      let (cache, loaded, kept) = load_document-Loads lib s hex d coherent here read in
      let s1 = with_cache lib cache s in
      let step = ap (λ p. continue lib p (visit filter options skipped found index)) loaded in
      subst (λ p. Loads lib s p (expected filter options skipped found (d ∷ ds))) (sym step)
        (visit-Loads filter options skipped found index d ds s1 kept (λ skipped' found'.
          find_loop-Loads filter options skipped' found' index ds s1 kept titled reads))

  -- Where the collection loads, its blocks hold documents with their ids, and the cache agrees with
  -- them: `find` returns the documents that match, in the order of the index, without as many as are
  -- skipped, up to the limit (a limit of zero is taken for one); only the cache changes.
  pub find_all-expected :
      (filter : Json) (options : FindOptions) (before s : State lib) (ds : List Json)
      → ensure_loaded lib before ≡ (s, ok tt)
      → IsCoherent lib s.collection.doc_index s.store s.collection.doc_cache
      → AllValues (IsTitled lib s.collection.doc_index s.store) s.collection.doc_index
      → AllRead s.store s.collection.doc_index ds
      → Loads lib s (find_all lib filter options before) (expected filter options 0 0 ds)
  unfolding find_all
  find_all-expected filter options before s ds loaded coherent titled read =
      let body : M lib (List Json) = with_index lib (find_loop lib filter options 0 0) in
      subst (λ p. Loads lib s p (expected filter options 0 0 ds))
        (sym (ap (λ p. continue lib p (λ _. body)) loaded))
        (find_loop-Loads filter options 0 0 s.collection.doc_index ds s coherent titled read)
