-- ===== src/Database/Collection/Partial.antt =====
-- An `insertMany` of src/collection.cpp that fails after its first document.
use bright_chain_cpp.Prelude.{◌≡◌, refl, sym, ap, ◌∙◌, String, List, ◌∷◌, true, false, some}
use bright_chain_cpp.Prelude.Map.{find, put, contains}
use bright_chain_cpp.Json.{JsonLibrary}
use bright_chain_cpp.Database.Store.{Env, Result, ok, err, duplicate_key, acquires, address}
use bright_chain_cpp.Database.Collection.{
  State, reload, ensure_loaded, load_from_store, with_lock, release, continue, pure, ◌>>◌, ◌>>=◌,
  persist_meta, modify, set_loaded,
}
use bright_chain_cpp.Database.Collection.Operations.{
  with_id, text_of, insert_document, insert_documents, insert_many,
}
use bright_chain_cpp.Database.Collection.Durable.{StoreWrites, find-put_self}
use bright_chain_cpp.Database.Collection.Inserted.{indexed, Inserts, insert_document-indexed}

module _ (lib : JsonLibrary) (env : Env lib) where
  open lib use {Json, at, dump}

  then_loaded :
      (p : State lib × Result (Unit {0})) (s : State lib)
      → continue lib p (λ _. modify lib (set_loaded lib true)) ≡ (s, ok tt)
      → s.collection.loaded ≡ true
  then_loaded (t, ok done) s e =
      ap (λ (q : State lib × Result (Unit {0})). q.0.collection.loaded) (sym e)
  then_loaded (t, err x) s e = absurd (cc)

  reload-loaded :
      (before s : State lib) → reload lib before ≡ (s, ok tt) → s.collection.loaded ≡ true
  unfolding reload ensure_loaded
  reload-loaded before s e =
      then_loaded (load_from_store lib (modify lib (set_loaded lib false) before).0) s e

  insert_document-refused :
      (s : State lib) (fresh id : String) (doc doc' : Json)
      → with_id lib fresh doc ≡ ok doc'
      → text_of lib (at "_id" doc') ≡ ok id
      → contains id s.collection.doc_index ≡ true
      → insert_document lib env fresh doc s ≡ (s, err (duplicate_key id))
  unfolding insert_document
  insert_document-refused s fresh id doc doc' named titled known = rw (named, titled, known) refl

  -- Where no file operation and no lock fails: an `insertMany` whose first document passes and whose
  -- second has the id of a known one throws; the head registry is as before, so that the first
  -- document is not in the database, but the collection keeps it in its index and counts as loaded.
  pub insert_many-partial :
      (before s : State lib) (doc doc' second second' : Json) (id known : String) (rest : List Json)
      → StoreWrites lib env
      → acquires lib env ≡ true
      → reload lib (record before { lock_held = true }) ≡ (s, ok tt)
      → Inserts lib env s doc doc' id
      → with_id lib (env.fresh_id 1) second ≡ ok second'
      → text_of lib (at "_id" second') ≡ ok known
      → contains known (put id (address lib env (dump doc')) s.collection.doc_index) ≡ true
      → (after : State lib) × (insert_many lib env (doc ∷ second ∷ rest) before
          ≡ (after, err (duplicate_key known)))
        × (after.registry ≡ s.registry)
        × (after.collection.loaded ≡ true)
        × (find id after.collection.doc_index ≡ some (address lib env (dump doc')))
  unfolding insert_many insert_documents with_lock
  insert_many-partial before s doc doc' second second' id known rest writes opens loaded steps named
        titled taken =
      let s2 = indexed lib env id doc' s in
      let finish = λ (ids : List String). ◌>>◌ lib (persist_meta lib env) (pure lib ids) in
      let more = insert_documents lib env 1 (second ∷ rest) in
      let first = λ (n : String). ◌>>=◌ lib more (λ ids. pure lib (n ∷ ids)) in
      let later =
        λ (n : String). ◌>>=◌ lib (insert_documents lib env 2 rest) (λ ids. pure lib (n ∷ ids)) in
      let refused =
        insert_document-refused s2 (env.fresh_id 1) known second second' named titled taken in
      (
        record s2 { lock_held = false },
        rw opens (
            ap
              (λ p. release lib (
                continue lib p
                  (λ _. ◌>>=◌ lib (insert_documents lib env 0 (doc ∷ second ∷ rest)) finish)))
              loaded
            ∙ ap (λ p. release lib (continue lib (continue lib p first) finish))
                (insert_document-indexed lib env s doc doc' id writes steps)
            ∙ ap
                (λ p. release lib (
                  continue lib (continue lib (continue lib p later) (λ ids. pure lib (id ∷ ids)))
                    finish))
                refused),
        refl,
        reload-loaded (record before { lock_held = true }) s loaded,
        find-put_self lib id (address lib env (dump doc')) s.collection.doc_index,
      )
