-- ===== src/Database/Collection/Changes.antt =====
-- The other operations of `Collection` (src/collection.cpp): updating and deleting documents,
-- dropping the collection, and its indexes.
use bright_chain_cpp.Prelude.{
  ℕ, String, Bool, true, false, Option, none, some, List, [], ◌∷◌, ◌++◌, str_eq, ltb, length,
  if◌then◌else◌,
}
use bright_chain_cpp.Prelude.Map.{Map, find, erase}
use bright_chain_cpp.Json.{JsonLibrary}
use bright_chain_cpp.Database.Query.{matches}
use bright_chain_cpp.Database.Update.{apply_update}
use bright_chain_cpp.Database.Store.{Env, ok, remove_head}
use bright_chain_cpp.Database.Collection.{
  IndexSpec, Collection, head_key, M, pure, ◌>>=◌, ◌>>◌, modify, reload, persist_meta,
  load_document, with_lock,
}
use bright_chain_cpp.Database.Collection.Operations.{store_document, with_index}

pub record UpdateResult : Type 0 where
  pub matched_count : ℕ
  pub modified_count : ℕ

module _ (lib : JsonLibrary) where
  open lib use {Json, kind, text, object, entries, at, get_text, dump}

  -- `applyUpdate` of a document, which is an object.
  abbrev pub updated : Env lib → Json → Json → Json
  unfolding apply_update
  updated env doc update = object (apply_update lib env.timestamp (entries doc) update)

  unfoldable pub update_first : Env lib → Json → Json → Map String → M lib UpdateResult
  unfolding load_document matches store_document persist_meta updated
  update_first env filter update [] = pure lib (record { matched_count = 0; modified_count = 0 })
  update_first env filter update ((id, hex) ∷ index) = ◌>>=◌ lib (load_document lib hex) λ doc.
      let rest = update_first env filter update index in
      if matches lib doc filter
      then ◌>>◌ lib (store_document lib env id (updated env doc update)) (
          ◌>>◌ lib (persist_meta lib env)
            (pure lib (record { matched_count = 1; modified_count = 1 })))
      else rest

  unfoldable pub update_one : Env lib → Json → Json → M lib UpdateResult
  unfolding with_lock reload update_first
  update_one env filter update =
      with_lock lib env (◌>>◌ lib (reload lib) (with_index lib (update_first env filter update)))

  -- The ids of the documents that match.
  unfoldable pub matching_ids : Json → Map String → M lib (List String)
  unfolding load_document matches
  matching_ids filter [] = pure lib []
  matching_ids filter ((id, hex) ∷ index) = ◌>>=◌ lib (load_document lib hex) λ doc.
      ◌>>=◌ lib (matching_ids filter index)
        λ ids. pure lib (if matches lib doc filter then id ∷ ids else ids)

  -- `docIndex_[docId]`
  abbrev pub hex_of : Option String → String
  hex_of none = ""
  hex_of (some hex) = hex

  unfoldable pub update_ids : Env lib → Json → List String → M lib (Unit {0})
  unfolding load_document store_document updated find
  update_ids env update [] s = (s, ok tt)
  update_ids env update (id ∷ ids) s =
      (◌>>=◌ lib (load_document lib (hex_of (find id s.collection.doc_index))) λ doc.
          ◌>>◌ lib (store_document lib env id (updated env doc update)) (update_ids env update ids))
        s

  abbrev pub persist_if : Bool → Env lib → M lib (Unit {0})
  unfolding persist_meta
  persist_if true env = persist_meta lib env
  persist_if false env = pure lib tt

  unfoldable pub update_many : Env lib → Json → Json → M lib UpdateResult
  unfolding with_lock reload matching_ids update_ids persist_if
  update_many env filter update = with_lock lib env (
      ◌>>◌ lib (reload lib) (
        ◌>>=◌ lib (with_index lib (matching_ids filter)) λ ids.
          ◌>>◌ lib (update_ids env update ids) (
            ◌>>◌ lib (persist_if (ltb 0 (length ids)) env)
              (pure lib (record { matched_count = length ids; modified_count = length ids })))))

  abbrev pub forget : String → Collection lib → Collection lib
  unfolding erase
  forget id c = record c { doc_index = erase id c.doc_index; doc_cache = erase id c.doc_cache }

  unfoldable pub delete_first : Env lib → Json → Map String → M lib ℕ
  unfolding load_document matches forget persist_meta
  delete_first env filter [] = pure lib 0
  delete_first env filter ((id, hex) ∷ index) = ◌>>=◌ lib (load_document lib hex) λ doc.
      let rest = delete_first env filter index in
      if matches lib doc filter
      then ◌>>◌ lib (modify lib (forget id)) (◌>>◌ lib (persist_meta lib env) (pure lib 1))
      else rest

  unfoldable pub delete_one : Env lib → Json → M lib ℕ
  unfolding with_lock reload delete_first
  delete_one env filter =
      with_lock lib env (◌>>◌ lib (reload lib) (with_index lib (delete_first env filter)))

  unfoldable pub forget_all : List String → Collection lib → Collection lib
  unfolding forget
  forget_all [] c = c
  forget_all (id ∷ ids) c = forget_all ids (forget id c)

  unfoldable pub delete_many : Env lib → Json → M lib ℕ
  unfolding with_lock reload matching_ids forget_all persist_if
  delete_many env filter = with_lock lib env (
      ◌>>◌ lib (reload lib) (
        ◌>>=◌ lib (with_index lib (matching_ids filter)) λ ids.
          ◌>>◌ lib (modify lib (forget_all ids))
            (◌>>◌ lib (persist_if (ltb 0 (length ids)) env) (pure lib (length ids)))))

  abbrev pub emptied : Collection lib → Collection lib
  emptied c = record c { doc_index = []; doc_cache = []; indexes = []; loaded = false }

  abbrev pub drop_head : Env lib → M lib (Unit {0})
  unfolding remove_head head_key
  drop_head env s =
      let (registry, result) = remove_head lib env (head_key s.collection) s.registry in
      (record s { registry = registry }, result)

  unfoldable pub drop_collection : Env lib → M lib (Unit {0})
  unfolding with_lock drop_head
  drop_collection env = with_lock lib env (◌>>◌ lib (drop_head env) (modify lib emptied))

  abbrev pub add_index : IndexSpec lib → Collection lib → Collection lib
  add_index spec c = record c { indexes = c.indexes ++ (spec ∷ []) }

  unfoldable pub create_index : Env lib → IndexSpec lib → M lib (Unit {0})
  unfolding with_lock reload persist_meta
  create_index env spec =
      with_lock lib env
        (◌>>◌ lib (reload lib) (◌>>◌ lib (modify lib (add_index spec)) (persist_meta lib env)))

  abbrev pub without_index : String → List (IndexSpec lib) → List (IndexSpec lib)
  without_index name [] = []
  without_index name (i ∷ is') =
      let rest = without_index name is' in if str_eq i.name name then rest else i ∷ rest

  abbrev pub remove_index : String → Collection lib → Collection lib
  remove_index name c = record c { indexes = without_index name c.indexes }

  unfoldable pub drop_index : Env lib → String → M lib (Unit {0})
  unfolding with_lock reload persist_meta
  drop_index env name =
      with_lock lib env
        (◌>>◌ lib (reload lib) (◌>>◌ lib (modify lib (remove_index name)) (persist_meta lib env)))
