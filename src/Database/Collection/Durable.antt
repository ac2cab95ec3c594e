-- ===== src/Database/Collection/Durable.antt =====
-- What `insertOne` of src/collection.cpp leaves in the block store and the head registry, as a
-- collection that is opened afterwards reads it.
use text.Mathlib.TextPositions.{eq_refl}
use bright_chain_cpp.Prelude.{
  ◌≡◌, ◌⊎◌, refl, sym, ap, subst, ◌∙◌, String, true, false, Option, none, some, [], length, str_eq,
  eq_iff, arith, if◌then◌else◌, Bool-cases, Option-cases, inl, inr,
}
use bright_chain_cpp.Prelude.Map.{Map, find, put, find-put}
use bright_chain_cpp.Json.{JsonLibrary}
use bright_chain_cpp.Voting.Poll.Keys.{AreBytes}
use bright_chain_cpp.Gossip.Engine.{HeadEntry}
use bright_chain_cpp.Database.Store.{
  block_not_found, Checksum, Env, Store, Result, ok, err, address, to_hex, from_hex, put_block,
  put_metadata, get_block, get_head, set_head, change_heads, heads_to_json,
}
use bright_chain_cpp.Database.Store.Hex.{from_hex-to_hex}
use bright_chain_cpp.Database.Collection.{
  Collection, State, head_key, meta_to_json, restore, load_head, load_from_store, persist_meta,
  write_block, write_head, read_json, read_block, decode, continue, or_error,
}
use bright_chain_cpp.Database.Collection.Meta.{restored, restore-meta}

module _ (lib : JsonLibrary) where
  open lib use {Json, Bytes, dump, parse, parse-dump}

  -- A hash has 64 bytes.
  abbrev pub IsDigest : Env lib → Type 0
  IsDigest env = (b : Bytes) → (length (env.digest b) ≡ 64) × AreBytes (env.digest b)

  abbrev pub StoreWrites : Env lib → Type 0
  StoreWrites env = (env.store_writes ≡ true) × (env.metadata_writes ≡ true)

  -- No file operation and no lock fails.
  abbrev pub Works : Env lib → Type 0
  Works env = StoreWrites env × (env.registry_lock ≡ true) × (env.registry_writes ≡ true)

  -- No other bytes stand under the hash of these.
  abbrev pub HasNoCollision : Env lib → Bytes → Store lib → Type 0
  HasNoCollision env bytes store =
      (find (address lib env bytes) store.blocks ≡ none)
      ⊎ (find (address lib env bytes) store.blocks ≡ some bytes)

  abbrev pub meta_bytes : State lib → Bytes
  meta_bytes s = dump (meta_to_json lib s.collection)

  abbrev pub with_head : Env lib → State lib → Map HeadEntry
  with_head env s =
      put (head_key s.collection)
        (record { block_id = address lib env (meta_bytes s); timestamp = env.timestamp })
        s.registry.heads

  -- The store after `put`, and the state after `persistMeta`.
  abbrev pub with_block : Env lib → Bytes → Store lib → Store lib
  with_block env bytes store = record {
    blocks = put (address lib env bytes) bytes store.blocks;
    metadata =
        put (address lib env bytes)
          (record {
            size = env.block_size;
            created_at = env.now;
            length_without_padding = env.size bytes;
          })
          store.metadata;
  }

  abbrev pub persisted : Env lib → State lib → State lib
  persisted env s = record s {
    store = with_block env (meta_bytes s) s.store;
    registry = record {
      heads = with_head env s;
      file = some (heads_to_json lib (with_head env s));
    };
  }

  pub persist_meta-persisted :
      (env : Env lib) (s : State lib)
      → Works env
      → persist_meta lib env s ≡ (persisted env s, ok tt)
  unfolding persist_meta put_block put_metadata set_head change_heads write_block write_head
  persist_meta-persisted env s ((blocks, metadata), lock, registry) =
      simp (blocks, metadata, lock, registry) refl

  pub read_json-dump :
      (env : Env lib) (j : Json) (store : Store lib)
      → IsDigest env
      → find (address lib env (dump j)) store.blocks ≡ some (dump j)
      → read_json lib (address lib env (dump j)) store ≡ ok j
  unfolding read_json get_block read_block
  read_json-dump env j store digest found =
      let (size, bytes) = digest (dump j) in
      rw (from_hex-to_hex (env.digest (dump j)) size bytes, found, parse-dump j) refl

  abbrev pub reopened : Collection lib → Collection lib
  reopened c = record c { loaded = false; doc_index = []; doc_cache = []; indexes = [] }

  abbrev pub reopen : State lib → State lib
  reopen s = record s { collection = reopened s.collection }

  -- The document that a collection has under an id, in its index and in the block store.
  abbrev pub shown : Result Json → Option Json
  shown (ok doc) = some doc
  shown (err e) = none

  abbrev pub read_found : Option String → Store lib → Option Json
  read_found none store = none
  read_found (some hex) store = shown (read_json lib hex store)

  abbrev pub document_in : String → Map String → Store lib → Option Json
  document_in id index store = read_found (find id index) store

  abbrev pub document_after : String → State lib × Result (Unit {0}) → Option Json
  document_after id (s, ok done) = document_in id s.collection.doc_index s.store
  document_after id (s, err e) = none

  -- The document that a newly opened collection finds under an id.
  abbrev pub stored : String → State lib → Option Json
  stored id s = document_after id (load_from_store lib (reopen s))

  pub find-put_self {ℓ} :
      {V : Type ℓ} (k : String) (v : V) (m : Map V) → find k (put k v m) ≡ some v
  find-put_self k v m = rw (find-put k k v m, eq_refl k) refl

  -- After `persistMeta` a newly opened collection reads the index and the indexes of this one.
  pub load-after_meta :
      (env : Env lib) (s : State lib) (t : State lib)
      → IsDigest env
      → t.collection ≡ s.collection
      → find (address lib env (meta_bytes s)) t.store.blocks ≡ some (meta_bytes s)
      → find (head_key s.collection) t.registry.heads
        ≡ some (record { block_id = address lib env (meta_bytes s); timestamp = env.timestamp })
      → (r : Map String) × (load_from_store lib (reopen t) ≡ (
        record t { collection = restored lib r s.collection.indexes (reopened t.collection) },
        ok tt,
      ))
        × ((j : String) → find j r ≡ find j s.collection.doc_index)
  unfolding load_from_store load_head get_head head_key
  load-after_meta env s t digest same block head_found =
      let (r, back, found) = restore-meta lib s.collection (reopen t) in
      let head_here = ap (λ c. find (head_key (reopened c)) t.registry.heads) same ∙ head_found in
      (
        r,
        ap (λ h. load_head lib h (reopen t)) head_here
            ∙ ap (λ j. continue lib (reopen t, j) (restore lib))
                (read_json-dump env (meta_to_json lib s.collection) t.store digest block)
            ∙ back,
        found,
      )

  kept_cases :
      (env : Env lib) (bytes b : Bytes) (hex : String) (store : Store lib)
      → HasNoCollision env bytes store
      → find hex store.blocks ≡ some b
      → (str_eq (address lib env bytes) hex ≡ true) ⊎ (str_eq (address lib env bytes) hex ≡ false)
      → (if str_eq (address lib env bytes) hex then some bytes else find hex store.blocks) ≡ some b
  kept_cases env bytes b hex store (inl absent) found (inl same) =
      let here =
        subst (λ k. find k store.blocks ≡ none) ((eq_iff (address lib env bytes) hex).0 same)
          absent in
      absurd (cc (here, found))
  kept_cases env bytes b hex store (inr old) found (inl same) =
      let here =
        subst (λ k. find k store.blocks ≡ some bytes) ((eq_iff (address lib env bytes) hex).0 same)
          old in
      rw same (sym here ∙ found)
  kept_cases env bytes b hex store fresh found (inr other) = rw other found

  -- A block that is there stays when another one without a collision is written.
  kept-with_block :
      (env : Env lib) (bytes b : Bytes) (hex : String) (store : Store lib)
      → HasNoCollision env bytes store
      → find hex store.blocks ≡ some b
      → find hex (with_block env bytes store).blocks ≡ some b
  kept-with_block env bytes b hex store fresh found =
      find-put (address lib env bytes) hex bytes store.blocks
      ∙ kept_cases env bytes b hex store fresh found
          (Bool-cases (str_eq (address lib env bytes) hex))

  kept_read :
      (env : Env lib) (bytes : Bytes) (c : Option Checksum) (store : Store lib) (d : Json)
      → HasNoCollision env bytes store
      → decode lib (read_block lib c store) ≡ ok d
      → decode lib (read_block lib c (with_block env bytes store)) ≡ ok d
  unfolding get_block read_block
  kept_read env bytes none store d fresh e = absurd (cc)
  kept_read env bytes (some c) store d fresh e =
      let decoded : Option Bytes → Result Json = λ o. decode lib (or_error block_not_found o) in
      elim (Option-cases (find (to_hex c) store.blocks)) [
        | inl absent ↦ absurd (cc (sym (ap decoded absent) ∙ e))
        | inr (b, found) ↦
            ap decoded (kept-with_block env bytes b (to_hex c) store fresh found)
            ∙ sym (ap decoded found)
            ∙ e
      ]

  pub kept-read_json :
      (env : Env lib) (bytes : Bytes) (hex : String) (store : Store lib) (d : Json)
      → HasNoCollision env bytes store
      → read_json lib hex store ≡ ok d
      → read_json lib hex (with_block env bytes store) ≡ ok d
  unfolding read_json get_block read_block
  kept-read_json env bytes hex store d fresh e = kept_read env bytes (from_hex hex) store d fresh e

  shown-ok : (r : Result Json) (d : Json) → shown r ≡ some d → r ≡ ok d
  shown-ok (ok doc) d e = ground (arith, e)
  shown-ok (err x) d e = cc

  pub kept_found :
      (env : Env lib) (bytes : Bytes) (hex : String) (store : Store lib) (d : Json)
      → HasNoCollision env bytes store
      → read_found (some hex) store ≡ some d
      → read_found (some hex) (with_block env bytes store) ≡ some d
  kept_found env bytes hex store d fresh e =
      ap shown (kept-read_json env bytes hex store d fresh (shown-ok (read_json lib hex store) d e))

  -- A document of an index is that of any index with the same entries, after a block was written.
  pub kept-document_in :
      (env : Env lib) (bytes : Bytes) (id : String) (index r : Map String) (store : Store lib)
      (d : Json)
      → HasNoCollision env bytes store
      → find id r ≡ find id index
      → document_in id index store ≡ some d
      → document_in id r (with_block env bytes store) ≡ some d
  kept-document_in env bytes id index r store d fresh same e = elim (Option-cases (find id index)) [
    | inl absent ↦ absurd (cc (sym (ap (λ o. read_found o store) absent) ∙ e))
    | inr (hex, found) ↦
        ap (λ o. read_found o (with_block env bytes store)) (same ∙ found)
        ∙ kept_found env bytes hex store d fresh (sym (ap (λ o. read_found o store) found) ∙ e)
  ]
