-- ===== src/Database/Collection/Forgets.antt =====
-- What a write of src/collection.cpp does with the heads that another process has written to the file
-- of the registry.
use bright_chain_cpp.Prelude.{
  ◌≡◌, refl, ap, ◌∙◌, String, true, false, none, some, str_eq, if◌then◌else◌,
}
use bright_chain_cpp.Prelude.Map.{find, find-put}
use bright_chain_cpp.Json.{JsonLibrary}
use bright_chain_cpp.Database.Store.{Env, ok, acquires, address, heads_to_json}
use bright_chain_cpp.Database.Collection.{
  State, head_key, reload, ensure_loaded, load_from_store, continue, modify, set_loaded,
}
use bright_chain_cpp.Database.Collection.Operations.{insert_one}
use bright_chain_cpp.Database.Collection.Durable.{
  IsDigest, Works, meta_bytes, document_after, read_found, stored, find-put_self, load-after_meta,
}
use bright_chain_cpp.Database.Collection.Inserted.{indexed, inserted, Inserts, insert_one-inserted}

module _ (lib : JsonLibrary) where
  -- A collection that is to be loaded, under the lock.
  abbrev pub unloaded : State lib → State lib
  unloaded s = record s { collection = set_loaded lib false s.collection; lock_held = true }

  abbrev pub now_loaded : State lib → State lib
  now_loaded s = record s { collection = set_loaded lib true s.collection }

  -- A reload reads the heads in memory.
  reload-heads :
      (before s : State lib)
      → load_from_store lib (unloaded before) ≡ (s, ok tt)
      → reload lib (record before { lock_held = true }) ≡ (now_loaded s, ok tt)
  unfolding reload ensure_loaded
  reload-heads before s loads =
      ap (λ p. continue lib p (λ _. modify lib (set_loaded lib true))) loads

module _ (lib : JsonLibrary) (env : Env lib) where
  open lib use {Json, dump}

  -- Where no file operation and no lock fails, whatever the file of the registry holds: where the heads
  -- in memory lead to an index without a document, an `insertOne` of another one that passes its
  -- checks writes to the file the heads in memory with its own, and a collection that is opened with
  -- the heads of the file does not find the document.
  pub insert_one-forgets :
      (before s : State lib) (doc doc' : Json) (id j : String)
      → IsDigest lib env
      → Works lib env
      → acquires lib env ≡ true
      → load_from_store lib (unloaded lib before) ≡ (s, ok tt)
      → Inserts lib env (now_loaded lib s) doc doc' id
      → find j s.collection.doc_index ≡ none
      → str_eq id j ≡ false
      → (after : State lib) × (insert_one lib env doc before ≡ (after, ok id))
        × (after.registry.file ≡ some (heads_to_json lib after.registry.heads))
        × (stored lib j after ≡ none)
  insert_one-forgets before s doc doc' id j digest works opens loads steps absent other =
      let t = now_loaded lib s in
      let s2 = indexed lib env id doc' t in
      let meta = meta_bytes lib s2 in
      let end = inserted lib env id doc' t in
      let (r, load, found) =
        load-after_meta lib env s2 end digest refl
          (find-put_self lib (address lib env meta) meta s2.store.blocks)
          (find-put_self lib (head_key s2.collection) _ s2.registry.heads) in
      let hex = address lib env (dump doc') in
      let gone =
        found j
        ∙ find-put id j hex s.collection.doc_index
        ∙ ap (λ b. if b then some hex else find j s.collection.doc_index) other
        ∙ absent in
      (
        end,
        insert_one-inserted lib env t doc doc' id before works opens
            (reload-heads lib before s loads) steps,
        refl,
        ap (document_after lib j) load ∙ ap (λ o. read_found lib o end.store) gone,
      )
