-- ===== src/Database/Collection/Operations.antt =====
-- Inserting and finding documents in a `Collection` (src/collection.cpp). The order of the entries of an
-- `std::unordered_map` is that of their insertion.
use bright_chain_cpp.Prelude.{
  ℕ, suc, String, Bool, true, false, Option, none, some, List, [], ◌∷◌, ltb, leb, if◌then◌else◌,
}
use bright_chain_cpp.Prelude.Map.{Map, contains, put}
use bright_chain_cpp.Json.{Kind, a_null, an_object, JsonLibrary}
use bright_chain_cpp.Database.Query.{matches}
use bright_chain_cpp.Database.Store.{Env, duplicate_key, type_failed, Result, ok, err, address}
use bright_chain_cpp.Database.Collection.{
  Collection, M, pure, raise, ◌>>=◌, ◌>>◌, lift, modify, ensure_loaded, reload, persist_meta,
  write_block, load_document, with_lock,
}

pub record FindOptions : Type 0 where
  pub limit : Option ℕ
  pub skip : Option ℕ

abbrev pub can_hold : Kind → Bool
can_hold a_null = true
can_hold an_object = true
can_hold _ = false

abbrev pub or_zero : Option ℕ → ℕ
or_zero none = 0
or_zero (some n) = n

abbrev pub reached : Option ℕ → ℕ → Bool
reached none n = false
reached (some limit) n = leb limit n

module _ (lib : JsonLibrary) where
  open lib use {Json, kind, text, object, entries, at, get_text, dump}

  abbrev pub text_of : Option Json → Result String
  text_of none = err type_failed
  text_of (some v) = elim (get_text v) [ none ↦ err type_failed | some id ↦ ok id ]

  -- `ensureDocumentId`: the document with its id, which is `fresh` where there was none.
  unfoldable pub with_id : String → Json → Result Json
  unfolding put
  with_id fresh doc = elim (at "_id" doc) [
    | some id ↦ ok doc
    | none ↦
        if can_hold (kind doc)
        then ok (object (put "_id" (text fresh) (entries doc)))
        else err type_failed
  ]

  abbrev pub refuse_known : Bool → String → M lib (Unit {0})
  refuse_known known id = if known then raise lib (duplicate_key id) else pure lib tt

  abbrev pub not_known : String → M lib (Unit {0})
  not_known id s = refuse_known (contains id s.collection.doc_index) id s

  abbrev pub index_document : String → String → Json → Collection lib → Collection lib
  index_document id hex doc c = record c {
    doc_index = put id hex c.doc_index;
    doc_cache = put id doc c.doc_cache;
  }

  -- The block of a document is written, and the index and the cache lead to it.
  unfoldable pub store_document : Env lib → String → Json → M lib (Unit {0})
  unfolding write_block
  store_document env id doc =
      ◌>>◌ lib (write_block lib env (dump doc))
        (modify lib (index_document id (address lib env (dump doc)) doc))

  -- One document of `insertOne` and `insertMany`; its id is returned.
  unfoldable pub insert_document : Env lib → String → Json → M lib String
  unfolding with_id store_document
  insert_document env fresh doc = ◌>>=◌ lib (lift lib (with_id fresh doc)) λ doc'.
      ◌>>=◌ lib (lift lib (text_of (at "_id" doc')))
        λ id. ◌>>◌ lib (not_known id) (◌>>◌ lib (store_document env id doc') (pure lib id))

  unfoldable pub insert_one : Env lib → Json → M lib String
  unfolding with_lock reload insert_document persist_meta
  insert_one env doc = with_lock lib env (
      ◌>>◌ lib (reload lib) (
        ◌>>=◌ lib (insert_document env (env.fresh_id 0) doc)
          λ id. ◌>>◌ lib (persist_meta lib env) (pure lib id)))

  -- The loop of `insertMany`; document `i` has the fresh id `i`.
  unfoldable pub insert_documents : Env lib → ℕ → List Json → M lib (List String)
  unfolding insert_document
  insert_documents env i [] = pure lib []
  insert_documents env i (doc ∷ docs) =
      ◌>>=◌ lib (insert_document env (env.fresh_id i) doc)
        λ id. ◌>>=◌ lib (insert_documents env (suc i) docs) λ ids. pure lib (id ∷ ids)

  unfoldable pub insert_many : Env lib → List Json → M lib (List String)
  unfolding with_lock reload insert_documents persist_meta
  insert_many env docs = with_lock lib env (
      ◌>>◌ lib (reload lib) (
        ◌>>=◌ lib (insert_documents env 0 docs)
          λ ids. ◌>>◌ lib (persist_meta lib env) (pure lib ids)))

  -- The first match among the entries of the index.
  unfoldable pub find_first : Json → Map String → M lib (Option Json)
  unfolding load_document matches
  find_first filter [] = pure lib none
  find_first filter ((id, hex) ∷ index) = ◌>>=◌ lib (load_document lib hex) λ doc.
      let rest = find_first filter index in
      if matches lib doc filter then pure lib (some doc) else rest

  abbrev pub with_index {ℓ} : {A : Type ℓ} → (Map String → M lib A) → M lib A
  with_index body s = body s.collection.doc_index s

  unfoldable pub find_one : Json → M lib (Option Json)
  unfolding ensure_loaded find_first
  find_one filter = ◌>>◌ lib (ensure_loaded lib) (with_index (find_first filter))

  -- The loop of `find`, after `skipped` of the matches and with `found` results.
  unfoldable pub find_loop : Json → FindOptions → ℕ → ℕ → Map String → M lib (List Json)
  unfolding load_document matches
  find_loop filter options skipped found [] = pure lib []
  find_loop filter options skipped found ((id, hex) ∷ index) =
      ◌>>=◌ lib (load_document lib hex) λ doc.
        let unmatched = find_loop filter options skipped found index in
        let skip_it = find_loop filter options (suc skipped) found index in
        let more =
          ◌>>=◌ lib (find_loop filter options skipped (suc found) index)
            λ docs. pure lib (doc ∷ docs) in
        if matches lib doc filter
        then if ltb skipped (or_zero options.skip)
          then skip_it
          else if reached options.limit (suc found)
          then pure lib (doc ∷ [])
          else more
        else unmatched

  unfoldable pub find_all : Json → FindOptions → M lib (List Json)
  unfolding ensure_loaded find_loop
  find_all filter options = ◌>>◌ lib (ensure_loaded lib) (with_index (find_loop filter options 0 0))
