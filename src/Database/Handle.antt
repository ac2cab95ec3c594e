-- ===== src/Database/Handle.antt =====
-- `BrightChainDb` of src/brightchain_db.cpp: the collections of one connection, which share the block
-- store, the head registry and the lock.
use bright_chain_cpp.Prelude.{String, Bool, true, false, Option, none, some, List, [], ◌∷◌, map}
use bright_chain_cpp.Prelude.Map.{Map, find, put, emplace, erase}
use bright_chain_cpp.Json.{JsonLibrary}
use bright_chain_cpp.Database.Store.{
  Env, Store, HeadRegistry, Result, ok, err, load_registry, clear_heads,
}
use bright_chain_cpp.Database.Collection.{Collection, State, M}
use bright_chain_cpp.Database.Collection.Changes.{drop_collection}

pub record BrightChainDb (lib : JsonLibrary) : Type 0 where
  pub name : String
  pub store : Store lib
  pub registry : HeadRegistry lib
  pub lock_held : Bool
  pub connected : Bool
  pub collections : Map (Collection lib)

module _ (lib : JsonLibrary) where
  -- `none` for the exception of a file that has an object of another form.
  unfoldable pub connect : BrightChainDb lib → Option (BrightChainDb lib)
  unfolding load_registry
  connect db = elim (load_registry lib db.registry) [
    | none ↦ none
    | some r ↦ some (record db { registry = r; connected = true })
  ]

  unfoldable pub disconnect : BrightChainDb lib → BrightChainDb lib
  disconnect db = record db { connected = false }

  abbrev pub new_collection : String → BrightChainDb lib → Collection lib
  new_collection name db = record {
    name = name;
    db_name = db.name;
    loaded = false;
    doc_index = [];
    doc_cache = [];
    indexes = [];
  }

  -- `collection`: the one of that name, which is made where there is none.
  unfoldable pub open_collection : String → BrightChainDb lib → BrightChainDb lib × Collection lib
  unfolding find emplace
  open_collection name db = elim (find name db.collections) [
    | some c ↦ (db, c)
    | none ↦
        let c = new_collection name db in
        (record db { collections = emplace name c db.collections }, c)
  ]

  unfoldable pub list_collections : BrightChainDb lib → List String
  list_collections db = map (λ e. e.0) db.collections

  abbrev pub state_of : BrightChainDb lib → Collection lib → State lib
  state_of db c = record {
    collection = c;
    store = db.store;
    registry = db.registry;
    lock_held = db.lock_held;
  }

  -- The handle after an operation of the collection of a name.
  abbrev pub with_state : String → BrightChainDb lib → State lib → BrightChainDb lib
  unfolding put
  with_state name db s = record db {
    store = s.store;
    registry = s.registry;
    lock_held = s.lock_held;
    collections = put name s.collection db.collections;
  }

  -- An operation on a collection of the database.
  unfoldable pub on_collection {ℓ} :
      {A : Type ℓ} → String → M lib A → BrightChainDb lib → BrightChainDb lib × Result A
  unfolding open_collection with_state
  on_collection name m db =
      let (db', c) = open_collection name db in
      let (s, result) = m (state_of db' c) in (with_state name db' s, result)

  abbrev pub forget_collection :
      String → BrightChainDb lib × Result (Unit {0}) → BrightChainDb lib × Result (Unit {0})
  unfolding erase
  forget_collection name (db, ok done) =
      (record db { collections = erase name db.collections }, ok done)
  forget_collection name (db, err e) = (db, err e)

  unfoldable pub drop_named :
      Env lib → String → BrightChainDb lib → BrightChainDb lib × Result (Unit {0})
  unfolding find on_collection drop_collection forget_collection
  drop_named env name db = elim (find name db.collections) [
    | none ↦ (db, ok tt)
    | some c ↦ forget_collection name (on_collection name (drop_collection lib env) db)
  ]

  abbrev pub then_drop :
      (BrightChainDb lib → BrightChainDb lib × Result (Unit {0}))
      → BrightChainDb lib × Result (Unit {0})
      → BrightChainDb lib × Result (Unit {0})
  then_drop next (db, ok done) = next db
  then_drop next (db, err e) = (db, err e)

  unfoldable pub drop_each :
      Env lib → List String → BrightChainDb lib → BrightChainDb lib × Result (Unit {0})
  unfolding on_collection drop_collection
  drop_each env [] db = (db, ok tt)
  drop_each env (name ∷ names) db =
      then_drop (drop_each env names) (on_collection name (drop_collection lib env) db)

  abbrev pub clear_all : Env lib → BrightChainDb lib → BrightChainDb lib × Result (Unit {0})
  unfolding clear_heads
  clear_all env db =
      let (registry, result) = clear_heads lib env db.registry in
      (record db { collections = []; registry = registry }, result)

  unfoldable pub drop_database : Env lib → BrightChainDb lib → BrightChainDb lib × Result (Unit {0})
  unfolding drop_each clear_all list_collections
  drop_database env db = then_drop (clear_all env) (drop_each env (list_collections db) db)
