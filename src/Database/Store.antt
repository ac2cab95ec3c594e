-- ===== src/Database/Store.antt =====
-- The places where the database keeps its data: `Checksum` (src/checksum.cpp), `DiskBlockStore`
-- (src/disk_block_store.cpp), `HeadRegistry` (src/head_registry.cpp) and `StoreLock`
-- (src/store_lock.cpp). Files are the maps of the blocks and of their metadata, and the text of the
-- registry's file.
pub mod Hex
pub mod Registry
use bright_chain_cpp.Prelude.{
  ℕ, zero, suc, ◌*◌, String, Bool, true, false, ◌||◌, Option, none, some, List, [], ◌∷◌, ◌==◌,
  if◌then◌else◌, map, length,
}
use bright_chain_cpp.Prelude.Map.{Map, find, contains, put, erase}
use bright_chain_cpp.Json.{Kind, a_text, an_object, JsonLibrary}
use bright_chain_cpp.Gossip.Engine.{HeadEntry}
use bright_chain_cpp.Gossip.Handle.{codes}
use bright_chain_cpp.Gossip.Hex.{decode_hex}
use bright_chain_cpp.Voting.Poll.{to_key}
use bright_chain_cpp.Database.Query.Compare.{is_object}

-- The 64 bytes of a SHA3-512 hash.
abbrev pub Checksum : Type 0
Checksum = List ℕ

-- `toHex`: two hexadecimal digits for each byte.
unfoldable pub to_hex : Checksum → String
unfolding to_key
to_hex c = to_key c

unfoldable pub from_hex : String → Option Checksum
unfolding decode_hex
from_hex hex = if length (codes hex) == 128 then decode_hex (codes hex) else none

pub record BlockMetadata : Type 0 where
  pub size : ℕ
  pub created_at : ℕ
  pub length_without_padding : ℕ

-- Whether each operation on files succeeds, the time, the hash and the size of bytes.
pub record Env (lib : JsonLibrary) : Type 0 where
  pub digest : lib.Bytes → Checksum
  pub size : lib.Bytes → ℕ
  pub now : ℕ
  pub timestamp : String
  pub fresh_id : ℕ → String
  pub block_size : ℕ
  pub store_writes : Bool
  pub metadata_writes : Bool
  pub registry_lock : Bool
  pub registry_writes : Bool
  pub opens : ℕ → Bool
  pub opens_last : Bool

pub record Store (lib : JsonLibrary) : Type 0 where
  pub blocks : Map lib.Bytes
  pub metadata : Map BlockMetadata

pub record HeadRegistry (lib : JsonLibrary) : Type 0 where
  pub heads : Map HeadEntry
  pub file : Option lib.Json

pub data DbError : Type 0 where
  duplicate_key : String → DbError
  block_not_found bad_checksum parse_failed type_failed lock_failed registry_failed store_failed :
      DbError

pub data Result {ℓ} (A : Type ℓ) : Type ℓ where
  ok : A → Result A
  err : DbError → Result A

module _ (lib : JsonLibrary) where
  open lib use {Json, Bytes, kind, text, object, entries, at, get_text}

  -- The name of the file of a block.
  abbrev pub address : Env lib → Bytes → String
  address env bytes = to_hex (env.digest bytes)

  -- `putMetadata` with `BlockMetadata(blockSize_, data.size())`
  unfoldable pub put_metadata : Env lib → Bytes → Store lib → Store lib × Result (Unit {0})
  unfolding put to_hex
  put_metadata env bytes s =
      if env.metadata_writes
      then (
        record s {
          metadata =
              put (address env bytes)
                (record {
                  size = env.block_size;
                  created_at = env.now;
                  length_without_padding = env.size bytes;
                })
                s.metadata;
        },
        ok tt,
      )
      else (s, err store_failed)

  -- `put(data, metadata)`: a block that is there is written again, and a block whose metadata cannot
  -- be written stays.
  unfoldable pub put_block : Env lib → Bytes → Store lib → Store lib × Result (Unit {0})
  unfolding put to_hex put_metadata
  put_block env bytes s =
      if env.store_writes
      then put_metadata env bytes (record s { blocks = put (address env bytes) bytes s.blocks })
      else (s, err store_failed)

  unfoldable pub get_block : Checksum → Store lib → Option Bytes
  unfolding find to_hex
  get_block c s = find (to_hex c) s.blocks

  unfoldable pub has_block : Checksum → Store lib → Bool
  unfolding contains to_hex
  has_block c s = contains (to_hex c) s.blocks

  unfoldable pub remove_block : Checksum → Store lib → Store lib × Bool
  unfolding has_block erase to_hex
  remove_block c s = (
    record { blocks = erase (to_hex c) s.blocks; metadata = erase (to_hex c) s.metadata },
    has_block c s,
  )

  unfoldable pub get_metadata : Checksum → Store lib → Option BlockMetadata
  unfolding find to_hex
  get_metadata c s = find (to_hex c) s.metadata

  -- `value.value("timestamp", "")`
  abbrev pub text_or_empty : Option Json → Option String
  text_or_empty none = some ""
  text_or_empty (some v) = get_text v

  abbrev pub entry_of : Option String → Option String → Option HeadEntry
  entry_of (some block_id) (some timestamp) =
      some (record { block_id = block_id; timestamp = timestamp })
  entry_of _ _ = none

  -- An entry of the file: an object with a block id, or the text of the legacy format. An entry of
  -- another form is left out, and `none` in an object of the form stands for the exception.
  abbrev pub read_object_entry : Option Json → Option Json → Option (Option HeadEntry)
  read_object_entry none timestamp = some none
  read_object_entry (some block_id) timestamp =
      elim (entry_of (get_text block_id) (text_or_empty timestamp)) [
        | none ↦ none
        | some e ↦ some (some e)
      ]

  abbrev pub read_entry : Kind → Json → Option (Option HeadEntry)
  read_entry a_text v = some (entry_of (get_text v) (some ""))
  read_entry an_object v = read_object_entry (at "blockId" v) (at "timestamp" v)
  read_entry _ v = some none

  abbrev pub add_entry : String → Option HeadEntry → Map HeadEntry → Map HeadEntry
  unfolding put
  add_entry k none heads = heads
  add_entry k (some e) heads = put k e heads

  abbrev pub read_heads : Map Json → Map HeadEntry → Option (Map HeadEntry)
  unfolding add_entry
  read_heads [] heads = some heads
  read_heads ((k, v) ∷ m) heads = elim (read_entry (kind v) v) [
    | none ↦ none
    | some e ↦ read_heads m (add_entry k e heads)
  ]

  -- `load`: without a file, or where it holds no object, the registry is empty.
  unfoldable pub load_registry : HeadRegistry lib → Option (HeadRegistry lib)
  unfolding read_heads
  load_registry r = elim r.file [
    | none ↦ some (record r { heads = [] })
    | some j ↦
        if is_object (kind j)
        then elim (read_heads (entries j) []) [
          | none ↦ none
          | some heads ↦ some (record r { heads = heads })
        ]
        else some (record r { heads = [] })
  ]

  unfoldable pub get_head : String → HeadRegistry lib → Option HeadEntry
  unfolding find
  get_head k r = find k r.heads

  abbrev pub entry_to_json : HeadEntry → Json
  entry_to_json e = object (("blockId", text e.block_id) ∷ ("timestamp", text e.timestamp) ∷ [])

  abbrev pub heads_to_json : Map HeadEntry → Json
  heads_to_json heads = object (map (λ e. (e.0, entry_to_json e.1)) heads)

  -- Under the lock the heads are changed, and then written; where the file cannot be written they
  -- stay changed.
  unfoldable pub change_heads :
      Env lib
      → (Map HeadEntry → Map HeadEntry)
      → HeadRegistry lib
      → HeadRegistry lib × Result (Unit {0})
  change_heads env change r =
      if env.registry_lock
      then if env.registry_writes
        then (
          record { heads = change r.heads; file = some (heads_to_json (change r.heads)) },
          ok tt,
        )
        else (record r { heads = change r.heads }, err registry_failed)
      else (r, err registry_failed)

  unfoldable pub set_head :
      Env lib → String → String → HeadRegistry lib → HeadRegistry lib × Result (Unit {0})
  unfolding change_heads put
  set_head env k id = change_heads env (put k (record { block_id = id; timestamp = env.timestamp }))

  unfoldable pub remove_head :
      Env lib → String → HeadRegistry lib → HeadRegistry lib × Result (Unit {0})
  unfolding change_heads erase
  remove_head env k = change_heads env (erase k)

  unfoldable pub clear_heads : Env lib → HeadRegistry lib → HeadRegistry lib × Result (Unit {0})
  unfolding change_heads
  clear_heads env = change_heads env (λ _. [])

  abbrev pub keys : HeadRegistry lib → List String
  keys r = map (λ e. e.0) r.heads

  -- Whether one of the next `n` attempts to create the lock file succeeds.
  abbrev pub any_opens : (ℕ → Bool) → ℕ → ℕ → Bool
  any_opens opens i zero = false
  any_opens opens i (suc n) = opens i || any_opens opens (suc i) n

  -- `acquire`: 250 attempts, and one more after the lock file has been removed.
  unfoldable pub acquires : Env lib → Bool
  acquires env = any_opens env.opens 0 250 || env.opens_last
