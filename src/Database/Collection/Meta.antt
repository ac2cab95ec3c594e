-- ===== src/Database/Collection/Meta.antt =====
-- The metadata block that `persistMeta` of src/collection.cpp writes is what `loadFromStore` reads.
use bright_chain_cpp.Prelude.{
  ◌≡◌, refl, ◌∙◌, String, true, some, List, [], ◌∷◌, map, str_eq, Bool-cases, inl, inr,
}
use bright_chain_cpp.Prelude.Map.{Map, find, put, AllValues, Distinct}
use bright_chain_cpp.Json.{JsonLibrary}
use bright_chain_cpp.Json.Fields.{read_in, find-read_in, or_else, or_else-none}
use bright_chain_cpp.Database.Store.{ok}
use bright_chain_cpp.Database.Collection.{
  IndexSpec, Collection, State, read_mappings, read_indexes, read_index, index_to_json,
  meta_to_json, restore,
}

module _ (lib : JsonLibrary) where
  open lib use {
    Json, Bytes, text, boolean, array, object, entries, items, at, kind, get_text, get_bool, dump,
    parse, get_text-text, get_bool-boolean, items-array, kind-array, kind-object, at-object,
    find-entries, distinct-entries, entries-object, parse-dump,
  }

  abbrev IsText : Json → Type 0
  IsText v = (s : String) × (get_text v ≡ some s)

  read_mappings-find :
      (m : Map Json) (index : Map String)
      → AllValues IsText m
      → Distinct m
      → (r : Map String) × (read_mappings lib m index ≡ (r, true))
        × ((j : String) → find j r ≡ or_else (read_in get_text (find j m)) (find j index))
  unfolding read_mappings find
  read_mappings-find [] index h d = (index, refl, λ j. refl)
  read_mappings-find ((k, v) ∷ m) index ((hex, e), hs) (fresh, d) =
      let (r, same, found) = read_mappings-find m (put k hex index) hs d in
      (
        r,
        rw (e, read_mappings) same,
        λ j. found j ∙ find-read_in get_text k j v hex m index e fresh,
      )

  texts-IsText : (index : Map String) → AllValues IsText (map (λ e. (e.0, text e.1)) index)
  texts-IsText [] = tt
  texts-IsText ((k, hex) ∷ index) = ((hex, get_text-text hex), texts-IsText index)

  texts-find :
      (j : String) (index : Map String)
      → read_in get_text (find j (map (λ e. (e.0, text e.1)) index)) ≡ find j index
  unfolding find
  texts-find j [] = refl
  texts-find j ((k, hex) ∷ index) = elim (Bool-cases (str_eq k j)) [
    | inl same ↦ rw same (get_text-text hex)
    | inr other ↦ rw other (texts-find j index)
  ]

  read_index-back : (i : IndexSpec lib) → read_index lib (index_to_json lib i) ≡ some i
  unfolding find
  read_index-back i = simp (kind-object, at-object, get_text-text, get_bool-boolean) refl

  read_indexes-back :
      (is' : List (IndexSpec lib)) → read_indexes lib (map (index_to_json lib) is') ≡ (is', true)
  unfolding read_indexes
  read_indexes-back [] = refl
  read_indexes-back (i ∷ is') = rw (read_index-back i, read_indexes, read_indexes-back is') refl

  -- What a collection has read.
  abbrev pub restored : Map String → List (IndexSpec lib) → Collection lib → Collection lib
  restored index indexes c = record c { doc_index = index; doc_cache = []; indexes = indexes }

  mappings-back :
      (index : Map String)
      → (r : Map String) × (read_mappings lib
            (entries (object (map (λ e. (e.0, text e.1)) index)))
            []
          ≡ (r, true))
        × ((j : String) → find j r ≡ find j index)
  unfolding find
  mappings-back index =
      let m = map (λ (e : String × String). (e.0, text e.1)) index in
      let (r, same, found) =
        read_mappings-find (entries (object m)) [] (entries-object IsText m (texts-IsText index))
          (distinct-entries (object m)) in
      (
        r,
        same,
        λ j.
            found j
            ∙ rw (find-entries j (object m), at-object j m, texts-find j index)
                (or_else-none (find j index)),
      )

  pub restore-meta :
      (c : Collection lib) (s : State lib)
      → (r : Map String) × (restore lib (meta_to_json lib c) s
          ≡ (record s { collection = restored r c.indexes s.collection }, ok tt))
        × ((j : String) → find j r ≡ find j c.doc_index)
  unfolding restore find
  restore-meta c s =
      let (r, same, found) = mappings-back c.doc_index in
      (
        r,
        simp (at-object, kind-object, kind-array, items-array, read_indexes-back c.indexes, same)
            refl,
        found,
      )
