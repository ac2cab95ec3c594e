-- ===== src/Database/Collection.antt =====
-- `Collection` of src/collection.cpp and the documents of src/document.cpp: the state, and the loading
-- and the writing of its metadata. A method takes the state and returns the new one with a result;
-- an exception leaves the state as it is at that point.
pub mod Operations
pub mod Changes
pub mod Meta
pub mod Durable
pub mod Inserted
pub mod Forgets
pub mod Partial
pub mod Cached
pub mod Found
use Prim.Native.String.{◌++◌ as str_append}
use mathlib.Core.Option
use bright_chain_cpp.Prelude.{
  ℕ, String, Bool, true, false, not, ◌&&◌, ◌||◌, Option, none, some, List, [], ◌∷◌, map, str_eq,
  if◌then◌else◌,
}
use bright_chain_cpp.Prelude.Map.{Map, find, put}
use bright_chain_cpp.Json.{Kind, a_null, an_object, JsonLibrary}
use bright_chain_cpp.Gossip.Engine.{HeadEntry}
use bright_chain_cpp.Database.Query.Compare.{is_array, is_object}
use bright_chain_cpp.Database.Store.{
  Env, Store, HeadRegistry, DbError, bad_checksum, block_not_found, parse_failed, type_failed,
  lock_failed, Result, ok, err, Checksum, to_hex, from_hex, address, put_block, get_block, set_head,
  get_head, acquires,
}

pub record IndexSpec (lib : JsonLibrary) : Type 0 where
  pub name : String
  pub spec : lib.Json
  pub unique : Bool
  pub sparse : Bool

pub record Collection (lib : JsonLibrary) : Type 0 where
  pub name : String
  pub db_name : String
  pub loaded : Bool
  pub doc_index : Map String
  pub doc_cache : Map lib.Json
  pub indexes : List (IndexSpec lib)

-- A collection with the store, the registry and the lock that it refers to.
pub record State (lib : JsonLibrary) : Type 0 where
  pub collection : Collection lib
  pub store : Store lib
  pub registry : HeadRegistry lib
  pub lock_held : Bool

unfoldable pub head_key : {lib : JsonLibrary} → Collection lib → String
head_key c = str_append c.db_name (str_append ":" c.name)

abbrev pub or_error {ℓ} : {A : Type ℓ} → DbError → Option A → Result A
or_error e none = err e
or_error e (some a) = ok a

module _ (lib : JsonLibrary) where
  open lib use {
    Json, Bytes, kind, text, boolean, array, object, entries, items, at, get_text, get_bool, dump,
    parse,
  }

  abbrev pub M {ℓ} : Type ℓ → Type ℓ
  M A = State lib → State lib × Result A

  abbrev pub pure {ℓ} : {A : Type ℓ} → A → M A
  pure a s = (s, ok a)

  abbrev pub raise {ℓ} : {A : Type ℓ} → DbError → M A
  raise e s = (s, err e)

  abbrev pub continue {ℓ κ} :
      {A : Type ℓ} {B : Type κ} → State lib × Result A → (A → M B) → State lib × Result B
  continue (s, ok a) f = f a s
  continue (s, err e) f = (s, err e)

  infixl 5 ◌>>=◌ ◌>>◌
  abbrev pub ◌>>=◌ {ℓ κ} : {A : Type ℓ} {B : Type κ} → M A → (A → M B) → M B
  (m >>= f) s = continue (m s) f

  abbrev pub ◌>>◌ {ℓ} : {B : Type ℓ} → M (Unit {0}) → M B → M B
  (m >> k) s = continue (m s) (λ _. k)

  abbrev pub lift {ℓ} : {A : Type ℓ} → Result A → M A
  lift r s = (s, r)

  abbrev pub modify : (Collection lib → Collection lib) → M (Unit {0})
  modify f s = (record s { collection = f s.collection }, ok tt)

  -- `store_.get(Checksum::fromHex(hex))`
  abbrev pub read_block : Option Checksum → Store lib → Result Bytes
  unfolding get_block
  read_block none store = err bad_checksum
  read_block (some c) store = or_error block_not_found (get_block lib c store)

  -- `deserializeDocument` of the block of a checksum.
  abbrev pub decode : Result Bytes → Result Json
  decode (ok bytes) = or_error parse_failed (parse bytes)
  decode (err e) = err e

  unfoldable pub read_json : String → Store lib → Result Json
  unfolding read_block from_hex
  read_json hex store = decode (read_block (from_hex hex) store)

  -- The loop over "mappings"; `none` with the entries before a value that is no text.
  unfoldable pub read_mappings : Map Json → Map String → Map String × Bool
  unfolding put
  read_mappings [] index = (index, true)
  read_mappings ((k, v) ∷ m) index = elim (get_text v) [
    | none ↦ (index, false)
    | some hex ↦ read_mappings m (put k hex index)
  ]

  -- `idx.value(k, default)`
  abbrev pub value_or {ℓ} : {A : Type ℓ} → (Json → Option A) → A → Option Json → Option A
  value_or read default none = some default
  value_or read default (some v) = read v

  abbrev pub index_of : Option String → Json → Option Bool → Option Bool → Option (IndexSpec lib)
  index_of (some name) spec (some unique) (some sparse) =
      some (record { name = name; spec = spec; unique = unique; sparse = sparse })
  index_of _ spec _ _ = none

  abbrev pub spec_or_null : Option Json → Json
  spec_or_null none = lib.null
  spec_or_null (some v) = v

  abbrev pub read_index : Json → Option (IndexSpec lib)
  read_index j =
      if is_object (kind j)
      then index_of (value_or get_text "" (at "name" j)) (spec_or_null (at "spec" j))
          (value_or get_bool false (at "unique" j)) (value_or get_bool false (at "sparse" j))
      else none

  unfoldable pub read_indexes : List Json → List (IndexSpec lib) × Bool
  read_indexes [] = ([], true)
  read_indexes (j ∷ js) =
      let (rest, done) = read_indexes js in
      elim (read_index j) [ none ↦ ([], false) | some i ↦ (i ∷ rest, done) ]

  abbrev pub mappings_in : Option Json → Map String × Bool
  unfolding read_mappings
  mappings_in none = ([], true)
  mappings_in (some j) = if is_object (kind j) then read_mappings (entries j) [] else ([], true)

  abbrev pub indexes_in : Option Json → List (IndexSpec lib) × Bool
  unfolding read_indexes
  indexes_in none = ([], true)
  indexes_in (some j) = if is_array (kind j) then read_indexes (items j) else ([], true)

  abbrev pub set_index : Map String → Collection lib → Collection lib
  set_index index c = record c { doc_index = index }

  abbrev pub set_indexes : List (IndexSpec lib) → Collection lib → Collection lib
  set_indexes indexes c = record c { indexes = indexes }

  abbrev pub clear_cache : Collection lib → Collection lib
  clear_cache c = record c { doc_cache = [] }

  abbrev pub check : Bool → M (Unit {0})
  check b = if b then pure tt else raise type_failed

  -- What a metadata block says of the collection.
  unfoldable pub restore : Json → M (Unit {0})
  unfolding mappings_in indexes_in
  restore meta = do
    let mappings = mappings_in (at "mappings" meta)
    modify (set_index mappings.0)
    check mappings.1
    let indexes = indexes_in (at "indexes" meta)
    modify (set_indexes indexes.0)
    check indexes.1
    modify clear_cache

  unfoldable pub load_head : Option HeadEntry → M (Unit {0})
  unfolding read_json restore
  load_head none s = (s, ok tt)
  load_head (some entry) s = continue (s, read_json entry.block_id s.store) restore

  unfoldable pub load_from_store : M (Unit {0})
  unfolding load_head get_head head_key
  load_from_store s = load_head (get_head lib (head_key s.collection) s.registry) s

  abbrev pub set_loaded : Bool → Collection lib → Collection lib
  set_loaded b c = record c { loaded = b }

  unfoldable pub ensure_loaded : M (Unit {0})
  unfolding load_from_store
  ensure_loaded s =
      let load = (do load_from_store; modify (set_loaded true)) in
      (if s.collection.loaded then pure tt else load) s

  -- `loaded_ = false; ensureLoaded();`
  unfoldable pub reload : M (Unit {0})
  unfolding ensure_loaded
  reload = do modify (set_loaded false); ensure_loaded

  abbrev pub index_to_json : IndexSpec lib → Json
  index_to_json i = object (
      ("name", text i.name)
      ∷ ("spec", i.spec)
      ∷ ("unique", boolean i.unique)
      ∷ ("sparse", boolean i.sparse)
      ∷ [])

  abbrev pub meta_to_json : Collection lib → Json
  meta_to_json c = object (
      ("mappings", object (map (λ e. (e.0, text e.1)) c.doc_index))
      ∷ ("indexes", array (map index_to_json c.indexes))
      ∷ [])

  abbrev pub write_block : Env lib → Bytes → M (Unit {0})
  unfolding put_block
  write_block env bytes s =
      let (store, result) = put_block lib env bytes s.store in (record s { store = store }, result)

  abbrev pub write_head : Env lib → String → M (Unit {0})
  unfolding set_head
  write_head env id s =
      let (registry, result) = set_head lib env (head_key s.collection) id s.registry in
      (record s { registry = registry }, result)

  unfoldable pub persist_meta : Env lib → M (Unit {0})
  unfolding write_block write_head to_hex head_key
  persist_meta env s =
      let bytes = dump (meta_to_json s.collection) in
      (do write_block env bytes; write_head env (address lib env bytes)) s

  -- `docIndex_.find(docId)` leads to the checksum.
  abbrev pub maps_to : Option String → String → Bool
  maps_to none hex = false
  maps_to (some h) hex = str_eq h hex

  abbrev pub find_cached : String → Map String → Map Json → Option Json
  unfolding find
  find_cached hex index [] = none
  find_cached hex index ((id, doc) ∷ cache) =
      if maps_to (find id index) hex then some doc else find_cached hex index cache

  abbrev pub cache_by_id : Option Json → Json → Collection lib → Collection lib
  unfolding put
  cache_by_id none doc c = c
  cache_by_id (some id) doc c = elim (get_text id) [
    | none ↦ c
    | some id' ↦ record c { doc_cache = put id' doc c.doc_cache }
  ]

  abbrev pub load_block : String → M Json
  unfolding read_json cache_by_id
  load_block hex s =
      continue (s, read_json hex s.store)
        λ doc. do modify (cache_by_id (at "_id" doc) doc); pure doc

  unfoldable pub load_document : String → M Json
  unfolding find_cached load_block
  load_document hex s = elim (find_cached hex s.collection.doc_index s.collection.doc_cache) [
    | some doc ↦ (s, ok doc)
    | none ↦ load_block hex s
  ]

  abbrev pub release {ℓ} : {A : Type ℓ} → State lib × Result A → State lib × Result A
  release (s, result) = (record s { lock_held = false }, result)

  -- `StoreLock::Guard`
  unfoldable pub with_lock {ℓ} : {A : Type ℓ} → Env lib → M A → M A
  unfolding acquires
  with_lock env m s =
      if acquires lib env then release (m (record s { lock_held = true })) else (s, err lock_failed)
