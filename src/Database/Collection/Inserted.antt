-- ===== src/Database/Collection/Inserted.antt =====
-- What `insertOne` of src/collection.cpp leaves in the block store and the head registry, as a
-- collection that is opened afterwards reads it.
use bright_chain_cpp.Prelude.{
  ◌≡◌, ◌⊎◌, refl, sym, ap, subst, ◌∙◌, String, true, false, none, some, str_eq, eq_iff, Bool-cases,
  Option-cases, inl, inr, if◌then◌else◌,
}
use bright_chain_cpp.Prelude.Map.{Map, find, put, find-put, contains, find-not_contains}
use bright_chain_cpp.Json.{JsonLibrary}
use bright_chain_cpp.Database.Store.{Store, Env, ok, acquires, address, put_block, put_metadata}
use bright_chain_cpp.Database.Collection.{
  State, head_key, reload, write_block, with_lock, release, continue, pure, M, ◌>>◌, ◌>>=◌,
  persist_meta,
}
use bright_chain_cpp.Database.Collection.Operations.{
  with_id, text_of, index_document, store_document, insert_document, insert_one,
}
use bright_chain_cpp.Database.Collection.Durable.{
  IsDigest, StoreWrites, Works, HasNoCollision, meta_bytes, with_block, persisted, document_in,
  document_after, read_found, shown, stored, find-put_self, load-after_meta, kept_found,
  kept-document_in, read_json-dump, persist_meta-persisted,
}

module _ (lib : JsonLibrary) where
  -- A new entry is not that of a document that is there.
  other_entry :
      (id j hex : String) (index : Map String) (store : Store lib) (d : lib.Json)
      → find id index ≡ none
      → document_in lib j index store ≡ some d
      → find j (put id hex index) ≡ find j index
  other_entry id j hex index store d absent known =
      find-put id j hex index ∙ elim (Bool-cases (str_eq id j)) [
        | inl same ↦
            let gone = subst (λ k. find k index ≡ none) ((eq_iff id j).0 same) absent in
            absurd (cc (sym (ap (λ o. read_found lib o store) gone) ∙ known))
        | inr other ↦ ap (λ b. if b then some hex else find j index) other
      ]

module _ (lib : JsonLibrary) (env : Env lib) where
  open lib use {Json, at, dump}

  -- The state in which the document is indexed and its block is written, and the one at the end.
  abbrev pub indexed : String → Json → State lib → State lib
  indexed id doc s = record s {
    collection = index_document lib id (address lib env (dump doc)) doc s.collection;
    store = with_block lib env (dump doc) s.store;
  }

  abbrev pub inserted : String → Json → State lib → State lib
  inserted id doc s = record (persisted lib env (indexed id doc s)) { lock_held = false }

  module _ (s : State lib) (doc doc' : Json) (id : String) where
    -- The steps of an `insertOne` that does not fail, from the state `s` after loading.
    abbrev pub Inserts : Type 0
    Inserts =
        (with_id lib (env.fresh_id 0) doc ≡ ok doc')
        × (text_of lib (at "_id" doc') ≡ ok id)
        × (contains id s.collection.doc_index ≡ false)

    store_document-indexed :
        StoreWrites lib env → store_document lib env id doc' s ≡ (indexed id doc' s, ok tt)
    unfolding store_document write_block put_block put_metadata
    store_document-indexed (blocks, metadata) = rw (blocks, metadata) refl

    pub insert_document-indexed :
        StoreWrites lib env
        → Inserts
        → insert_document lib env (env.fresh_id 0) doc s ≡ (indexed id doc' s, ok id)
    unfolding insert_document
    insert_document-indexed writes (named, titled, fresh) =
        rw (named, titled, fresh, store_document-indexed writes) refl

    pub insert_one-inserted :
        (before : State lib)
        → Works lib env
        → acquires lib env ≡ true
        → reload lib (record before { lock_held = true }) ≡ (s, ok tt)
        → Inserts
        → insert_one lib env doc before ≡ (inserted id doc' s, ok id)
    unfolding insert_one with_lock
    insert_one-inserted before works opens loaded steps =
        let finish : String → M lib String = λ n. ◌>>◌ lib (persist_meta lib env) (pure lib n) in
        let body : M lib String = ◌>>=◌ lib (insert_document lib env (env.fresh_id 0) doc) finish in
        rw opens (
          ap (λ p. release lib (continue lib p (λ _. body))) loaded
          ∙ ap (λ p. release lib (continue lib p finish)) (insert_document-indexed works.0 steps)
          ∙ ap (λ p. release lib (continue lib p (λ _. pure lib id)))
              (persist_meta-persisted lib env (indexed id doc' s) works))

    -- Where no file operation and no lock fails, and the blocks written collide with no other block:
    -- after an `insertOne` that passes its checks, in a collection that may be empty, a newly opened
    -- collection finds the document under its id; and under any id it finds the document that was
    -- there before, if there was one.
    pub insert_one-stored :
        (before : State lib) (j : String)
        → IsDigest lib env
        → Works lib env
        → acquires lib env ≡ true
        → reload lib (record before { lock_held = true }) ≡ (s, ok tt)
        → Inserts
        → HasNoCollision lib env (dump doc') s.store
        → HasNoCollision lib env (meta_bytes lib (indexed id doc' s)) (indexed id doc' s).store
        → (after : State lib) × (insert_one lib env doc before ≡ (after, ok id))
          × (stored lib id after ≡ some doc')
          × ((document_in lib j s.collection.doc_index s.store ≡ none)
              ⊎ (stored lib j after ≡ document_in lib j s.collection.doc_index s.store))
    insert_one-stored before j digest works opens loaded steps apart apart_meta =
        let s2 = indexed id doc' s in
        let meta = meta_bytes lib s2 in
        let hex = address lib env (dump doc') in
        let (r, load, found) =
          load-after_meta lib env s2 (inserted id doc' s) digest refl
            (find-put_self lib (address lib env meta) meta s2.store.blocks)
            (find-put_self lib (head_key s2.collection) _ s2.registry.heads) in
        let read =
          read_json-dump lib env doc' s2.store digest
            (find-put_self lib hex (dump doc') s.store.blocks) in
        let absent = find-not_contains id s.collection.doc_index steps.2 in
        (
          inserted id doc' s,
          insert_one-inserted before works opens loaded steps,
          ap (document_after lib id) load
              ∙ ap (λ o. read_found lib o (inserted id doc' s).store)
                  (found id ∙ find-put_self lib id hex s.collection.doc_index)
              ∙ kept_found lib env meta hex s2.store doc' apart_meta (ap (shown lib) read),
          elim (Option-cases (document_in lib j s.collection.doc_index s.store)) [
            | inl nothing ↦ inl nothing
            | inr (d, known) ↦ inr (
                ap (document_after lib j) load
                ∙ kept-document_in lib env meta j s2.collection.doc_index r s2.store d apart_meta
                    (found j)
                    (kept-document_in lib env (dump doc') j s.collection.doc_index
                      s2.collection.doc_index s.store d apart
                      (other_entry lib id j hex s.collection.doc_index s.store d absent known)
                      known)
                ∙ sym known)
          ],
        )
