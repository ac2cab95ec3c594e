-- ===== src/Database/Collection/Cached.antt =====
-- The cache of documents that `loadDocument` of src/collection.cpp keeps.
use bright_chain_cpp.Prelude.{
  ◌≡◌, refl, sym, ap, subst, ◌∙◌, String, Bool, true, false, Option, none, some, [], ◌∷◌, str_eq,
  eq_iff, if◌then◌else◌, Bool-cases, if_cases, option_cases, inl, inr,
}
use bright_chain_cpp.Prelude.Map.{Map, find, put}
use bright_chain_cpp.Json.{JsonLibrary}
use bright_chain_cpp.Database.Store.{Store, Result, ok}
use bright_chain_cpp.Database.Collection.{
  State, read_json, maps_to, find_cached, cache_by_id, load_block, load_document,
}

module _ (lib : JsonLibrary) where
  open lib use {Json, at, get_text}

  -- What is cached under an id of the index is the document of its block.
  abbrev pub IsCoherent : Map String → Store lib → Map Json → Type 0
  IsCoherent index store [] = Unit
  IsCoherent index store ((id, d) ∷ cache) =
      ((hex : String) → find id index ≡ some hex → read_json lib hex store ≡ ok d)
      × IsCoherent index store cache

  -- The index has the block under the id that its document holds.
  abbrev pub IsTitled : Map String → Store lib → String → Type 0
  IsTitled index store hex =
      (d v : Json) (id : String)
      → read_json lib hex store ≡ ok d
      → at "_id" d ≡ some v
      → get_text v ≡ some id
      → find id index ≡ some hex

  pub IsTitled-read :
      (index : Map String) (store : Store lib) (hex : String) (d v : Json) (id : String)
      → read_json lib hex store ≡ ok d
      → at "_id" d ≡ some v
      → get_text v ≡ some id
      → find id index ≡ some hex
      → IsTitled index store hex
  IsTitled-read index store hex d v id read named titled found d' v' id' read' named' titled' =
      let same_d : d ≡ d' = cc (read, read') in
      let same_v : v ≡ v' = cc (same_d, named, named') in
      let same_id : id ≡ id' = cc (same_v, titled, titled') in cc (same_id, found)

  abbrev pub with_cache : Map Json → State lib → State lib
  with_cache cache s = record s { collection = record s.collection { doc_cache = cache } }

  maps_to-some : (o : Option String) (hex : String) → maps_to lib o hex ≡ true → o ≡ some hex
  maps_to-some none hex h = absurd (cc)
  maps_to-some (some k) hex h = ap some ((eq_iff k hex).0 h)

  find_cached-read :
      (index : Map String) (store : Store lib) (cache : Map Json) (hex : String) (d : Json)
      → IsCoherent index store cache
      → find_cached lib hex index cache ≡ some d
      → read_json lib hex store ≡ ok d
  unfolding find
  find_cached-read index store [] hex d coherent h = absurd (cc)
  find_cached-read index store ((id, doc) ∷ cache) hex d (here, rest) h =
      let branch = λ (b : Bool) (e : b ≡ maps_to lib (find id index) hex).
        ap (λ (c : Bool). if c then some doc else find_cached lib hex index cache) e in
      elim (Bool-cases (maps_to lib (find id index) hex)) [
        | inl same ↦
            let found : some doc ≡ some d = branch true (sym same) ∙ h in
            here hex (maps_to-some (find id index) hex same) ∙ ap ok (cc found)
        | inr other ↦ find_cached-read index store cache hex d rest (branch false (sym other) ∙ h)
      ]

  IsCoherent-put :
      (index : Map String) (store : Store lib) (cache : Map Json) (id : String) (d : Json)
      → IsCoherent index store cache
      → ((hex : String) → find id index ≡ some hex → read_json lib hex store ≡ ok d)
      → IsCoherent index store (put id d cache)
  unfolding put
  IsCoherent-put index store [] id d coherent new = (new, tt)
  IsCoherent-put index store ((j, w) ∷ cache) id d (here, rest) new =
      if_cases (IsCoherent index store) (str_eq j id) _ _
        (λ same. (
          (λ hex e. new hex (subst (λ k. find k index ≡ some hex) ((eq_iff j id).0 same) e)),
          rest,
        ))
        (λ _. (here, IsCoherent-put index store cache id d rest new))

  -- A load gives the document of the block, and changes the cache at most.
  abbrev pub Loads {ℓ} : {A : Type ℓ} → State lib → State lib × Result A → A → Type ℓ
  Loads s p a =
      (cache : Map Json) × (p ≡ (with_cache cache s, ok a))
      × IsCoherent s.collection.doc_index s.store cache

  cache_by_id-Loads :
      (s : State lib) (hex : String) (d : Json) (o : Option Json)
      → IsCoherent s.collection.doc_index s.store s.collection.doc_cache
      → IsTitled s.collection.doc_index s.store hex
      → read_json lib hex s.store ≡ ok d
      → at "_id" d ≡ o
      → Loads s (record s { collection = cache_by_id lib o d s.collection }, ok d) d
  unfolding cache_by_id put
  cache_by_id-Loads s hex d none coherent titled read e = (s.collection.doc_cache, refl, coherent)
  cache_by_id-Loads s hex d (some v) coherent titled read e =
      option_cases
        (λ o.
          Loads s
            (
              record s {
                collection = elim o [
                  | none ↦ s.collection
                  | some id ↦ record s.collection { doc_cache = put id d s.collection.doc_cache }
                ];
              },
              ok d,
            )
            d)
        (get_text v) (λ _. (s.collection.doc_cache, refl, coherent))
        (λ id named. (
          put id d s.collection.doc_cache,
          refl,
          IsCoherent-put s.collection.doc_index s.store s.collection.doc_cache id d coherent
              (λ other found.
                let same : hex ≡ other = cc (titled d v id read e named, found) in
                subst (λ k. read_json lib k s.store ≡ ok d) same read),
        ))

  pub load_document-Loads :
      (s : State lib) (hex : String) (d : Json)
      → IsCoherent s.collection.doc_index s.store s.collection.doc_cache
      → IsTitled s.collection.doc_index s.store hex
      → read_json lib hex s.store ≡ ok d
      → Loads s (load_document lib hex s) d
  unfolding load_document
  load_document-Loads s hex d coherent titled read =
      option_cases
        (λ o. Loads s (elim o [ some doc ↦ (s, ok doc) | none ↦ load_block lib hex s ]) d)
        (find_cached lib hex s.collection.doc_index s.collection.doc_cache)
        (λ _.
          rw (read, load_block) (cache_by_id-Loads s hex d (at "_id" d) coherent titled read refl))
        (λ doc e. (
          s.collection.doc_cache,
          (let found =
                find_cached-read s.collection.doc_index s.store s.collection.doc_cache hex doc
                  coherent e in
              ap (λ (r : Result Json). (s, r)) (sym found ∙ read)),
          coherent,
        ))
