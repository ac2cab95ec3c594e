-- ===== src/Database/Tests.antt =====
-- Instances of the theorems on the document database.
use bright_chain_cpp.Prelude.{
  ℕ, zero, suc, ◌+◌, ◌<◌, ◌≡◌, ◌⊎◌, ◌%◌, refl, String, true, false, none, some, [], ◌∷◌, replicate,
  length-replicate, arith, inl,
}
use bright_chain_cpp.Prelude.Int.{pos}
use bright_chain_cpp.Prelude.Map.{Map, find, put, contains, erase}
use bright_chain_cpp.Json.Example.{
  Value, nothing, number, word, sequence, group, Items, no_items, item, Fields, no_fields, entry,
  values, entries_of, once, depth_of,
}
use bright_chain_cpp.Voting.Poll.Keys.{AreBytes}
use bright_chain_cpp.Database.Query.{matches_filter}
use bright_chain_cpp.Database.Query.Totality.{IsDefined, matches_filter-IsDefined}
use bright_chain_cpp.Database.Update.{apply_update}
use bright_chain_cpp.Database.Update.Frame.{apply_update-frame}
use bright_chain_cpp.Database.Store.{
  Env, ok, err, duplicate_key, acquires, address, to_hex, from_hex, put_block, put_metadata,
  get_block, set_head, get_head, HeadRegistry, load_registry, change_heads, heads_to_json,
}
use bright_chain_cpp.Voting.Poll.{to_key}
use bright_chain_cpp.Gossip.Hex.{decode_hex}
use bright_chain_cpp.Gossip.Engine.{HeadEntry}
use bright_chain_cpp.Database.Store.Registry.{load_registry-change_heads}
use bright_chain_cpp.Database.Collection.{
  State, reload, head_key, persist_meta, load_from_store, load_head, ensure_loaded, restore,
  read_mappings, read_indexes, read_json, with_lock,
}
use bright_chain_cpp.Database.Collection.Operations.{
  with_id, insert_document, store_document, insert_one, insert_many, find_all, FindOptions,
}
use bright_chain_cpp.Database.Collection.Durable.{IsDigest, document_in, stored}
use bright_chain_cpp.Database.Collection.Cached.{IsTitled-read, Loads}
use bright_chain_cpp.Database.Collection.Found.{expected, find_all-expected}
use bright_chain_cpp.Database.Collection.Inserted.{insert_one-stored}
use bright_chain_cpp.Database.Collection.Forgets.{unloaded, insert_one-forgets}
use bright_chain_cpp.Database.Collection.Partial.{insert_many-partial}

-- {"$or": [{"age": {"$gt": 30}}, {"name": "ann"}]}
abbrev filter : Value
filter = group (
    entry "$or"
      (sequence (
        item (group (entry "age" (group (entry "$gt" (number (pos 30)) no_fields)) no_fields))
          (item (group (entry "name" (word "ann") no_fields)) no_items)))
      no_fields)

abbrev ann : Value
ann = group (entry "age" (number (pos 20)) (entry "name" (word "ann") no_fields))

matches_filter-IsDefined_example : IsDefined (matches_filter values 5 ann filter)
unfolding depth_of
matches_filter-IsDefined_example = matches_filter-IsDefined values 5 ann filter (omega arith)

-- {"$inc": {"age": 1}, "$rename": {"name": "title"}}
abbrev update : Value
update = group (
    entry "$inc" (group (entry "age" (number (pos 1)) no_fields))
      (entry "$rename" (group (entry "name" (word "title") no_fields)) no_fields))

abbrev fields : Map Value
fields = ("age", number (pos 20)) ∷ ("name", word "ann") ∷ ("city", word "Rome") ∷ []

apply_update-frame_example :
    find "city" (apply_update values "2024-01-01T00:00:00Z" fields update) ≡ find "city" fields
unfolding entries_of once erase
apply_update-frame_example =
    apply_update-frame values "2024-01-01T00:00:00Z" "city" fields update
      ((refl, refl, tt), ((refl, refl, tt), tt))

-- A hash that tells the sizes of values apart.
mutual
  weight : Value → ℕ
  weight (sequence xs) = suc (weight_items xs)
  weight (group fs) = suc (weight_fields fs)
  weight _ = 1

  weight_items : Items → ℕ
  weight_items no_items = 0
  weight_items (item x xs) = weight x + weight_items xs

  weight_fields : Fields → ℕ
  weight_fields no_fields = 0
  weight_fields (entry k v fs) = weight v + weight_fields fs

abbrev env : Env values
unfolding weight
env = record {
  digest = λ v. replicate 64 (weight v % 256);
  size = λ v. 0;
  now = 0;
  timestamp = "2024-01-01T00:00:00Z";
  fresh_id = λ i. "0";
  block_size = 0;
  store_writes = true;
  metadata_writes = true;
  registry_lock = true;
  registry_writes = true;
  opens = λ i. true;
  opens_last = true;
}

AreBytes-replicate : (n b : ℕ) → b < 256 → AreBytes (replicate n b)
AreBytes-replicate zero b h = tt
AreBytes-replicate (suc n) b h = (h, AreBytes-replicate n b h)

env-IsDigest : IsDigest values env
unfolding weight
env-IsDigest b =
    (length-replicate 64 (weight b % 256), AreBytes-replicate 64 (weight b % 256) (omega arith))

-- {"_id": "b"}, {"_id": "a", "n": 1} and another document with the id of the first
abbrev doc_b : Value
doc_b = group (entry "_id" (word "b") no_fields)

abbrev doc_a : Value
doc_a = group (entry "_id" (word "a") (entry "n" (number (pos 1)) no_fields))

abbrev double_b : Value
double_b = group (entry "_id" (word "b") (entry "n" (number (pos 2)) (entry "m" nothing no_fields)))

abbrev empty : State values
empty = record {
  collection = record {
    name = "c";
    db_name = "d";
    loaded = false;
    doc_index = [];
    doc_cache = [];
    indexes = [];
  };
  store = record { blocks = []; metadata = [] };
  registry = record { heads = []; file = none };
  lock_held = false;
}

abbrev before : State values
before = (insert_one values env doc_b empty).0

abbrev loaded : State values
loaded = (reload values (record before { lock_held = true })).0

-- The first insert into an empty collection.
first_insert : stored values "b" before ≡ some doc_b
unfolding insert_one insert_many reload with_id acquires contains find put weight to_hex to_key
    head_key put_block put_metadata get_block set_head get_head persist_meta load_from_store
    load_head ensure_loaded restore read_mappings read_indexes read_json from_hex decode_hex
    insert_document store_document with_lock entries_of once erase
first_insert = refl

insert_one-stored_example :
    (after : State values) × (insert_one values env doc_a before ≡ (after, ok "a"))
    × (stored values "a" after ≡ some doc_a)
    × ((document_in values "b" loaded.collection.doc_index loaded.store ≡ none)
        ⊎ (stored values "b" after
            ≡ document_in values "b" loaded.collection.doc_index loaded.store))
unfolding insert_one insert_many reload with_id acquires contains find put weight to_hex to_key
    head_key put_block put_metadata get_block set_head get_head persist_meta load_from_store
    load_head ensure_loaded restore read_mappings read_indexes read_json from_hex decode_hex
    insert_document store_document with_lock entries_of once erase
insert_one-stored_example =
    insert_one-stored values env loaded doc_a doc_a "a" before "b" env-IsDigest
      ((refl, refl), refl, refl) refl refl (refl, refl, refl) (inl refl) (inl refl)

insert_many-partial_example :
    (after : State values) × (insert_many values env (doc_a ∷ double_b ∷ []) before
      ≡ (after, err (duplicate_key "b")))
    × (after.registry ≡ loaded.registry)
    × (after.collection.loaded ≡ true)
    × (find "a" after.collection.doc_index ≡ some (address values env doc_a))
unfolding insert_one insert_many reload with_id acquires contains find put weight to_hex to_key
    head_key put_block put_metadata get_block set_head get_head persist_meta load_from_store
    load_head ensure_loaded restore read_mappings read_indexes read_json from_hex decode_hex
    insert_document store_document with_lock entries_of once erase
insert_many-partial_example =
    insert_many-partial values env before loaded doc_a doc_a double_b double_b "a" "b" []
      (refl, refl) refl refl (refl, refl, refl) refl refl refl

-- A collection with both documents, opened again, and the second of its documents.
abbrev both : State values
both = (reload values (insert_one values env doc_a before).0).0

abbrev second_only : FindOptions
second_only = record { limit = none; skip = some 1 }

find_all-expected_example :
    Loads values both
      (find_all values (group no_fields) second_only both)
      (expected values (group no_fields) second_only 0 0 (doc_b ∷ doc_a ∷ []))
unfolding insert_one insert_many reload with_id acquires contains find put weight to_hex to_key
    head_key put_block put_metadata get_block set_head get_head persist_meta load_from_store
    load_head ensure_loaded restore read_mappings read_indexes read_json from_hex decode_hex
    insert_document store_document with_lock entries_of once erase
find_all-expected_example =
    find_all-expected values (group no_fields) second_only both both (doc_b ∷ doc_a ∷ []) refl tt
      (
        IsTitled-read values both.collection.doc_index both.store _ doc_b (word "b") "b" refl refl
            refl refl,
        (
          IsTitled-read values both.collection.doc_index both.store _ doc_a (word "a") "a" refl refl
              refl refl,
          tt,
        ),
      )
      (refl, (refl, tt))

abbrev new_head : Map HeadEntry → Map HeadEntry
new_head heads = put "d:e" (record { block_id = "00"; timestamp = "" }) heads

load_registry-change_heads_example :
    (after : HeadRegistry values) × (load_registry values
        (record (change_heads values env new_head both.registry).0 { heads = [] })
      ≡ some after)
    × ((j : String) → find j after.heads ≡ find j (new_head both.registry.heads))
unfolding weight
load_registry-change_heads_example =
    load_registry-change_heads values env new_head both.registry [] refl refl

-- The file has the head of another process, which inserted document "a"; this one inserts "c".
abbrev doc_c : Value
doc_c = group (entry "_id" (word "c") no_fields)

abbrev behind : State values
behind = record before { registry = record before.registry { file = both.registry.file } }

insert_one-forgets_example :
    (after : State values) × (insert_one values env doc_c behind ≡ (after, ok "c"))
    × (after.registry.file ≡ some (heads_to_json values after.registry.heads))
    × (stored values "a" after ≡ none)
unfolding insert_one insert_many reload with_id acquires contains find put weight to_hex to_key
    head_key put_block put_metadata get_block set_head get_head persist_meta load_from_store
    load_head ensure_loaded restore read_mappings read_indexes read_json from_hex decode_hex
    insert_document store_document with_lock entries_of once erase
insert_one-forgets_example =
    insert_one-forgets values env behind (load_from_store values (unloaded values behind)).0 doc_c
      doc_c "c" "a" env-IsDigest ((refl, refl), refl, refl) refl refl (refl, refl, refl) refl refl
