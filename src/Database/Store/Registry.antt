-- ===== src/Database/Store/Registry.antt =====
-- What the file of `HeadRegistry` (src/head_registry.cpp) keeps.
use bright_chain_cpp.Prelude.{
  ◌≡◌, refl, ap, ◌∙◌, String, true, Option, none, some, [], ◌∷◌, map, str_eq, Bool-cases, inl, inr,
}
use bright_chain_cpp.Prelude.Map.{Map, find, put, AllValues, Distinct}
use bright_chain_cpp.Json.{JsonLibrary}
use bright_chain_cpp.Json.Fields.{read_in, find-read_in, or_else, or_else-none}
use bright_chain_cpp.Gossip.Engine.{HeadEntry}
use bright_chain_cpp.Database.Store.{
  Env, HeadRegistry, read_entry, read_object_entry, read_heads, load_registry, entry_to_json,
  heads_to_json, change_heads,
}

module _ (lib : JsonLibrary) where
  open lib use {
    Json, text, object, entries, at, kind, kind-object, at-object, get_text-text, find-entries,
    distinct-entries, entries-object,
  }

  abbrev flat {ℓ} : {A : Type ℓ} → Option (Option A) → Option A
  flat none = none
  flat (some o) = o

  abbrev head_in : Json → Option HeadEntry
  head_in v = flat (read_entry lib (kind v) v)

  abbrev IsHead : Json → Type 0
  IsHead v = (e : HeadEntry) × (read_entry lib (kind v) v ≡ some (some e))

  read_object_entry-back :
      (b t : String)
      → read_object_entry lib (some (text b)) (some (text t))
        ≡ some (some (record { block_id = b; timestamp = t }))
  read_object_entry-back b t = rw (get_text-text b, get_text-text t, read_object_entry) refl

  read_entry-back :
      (e : HeadEntry)
      → read_entry lib (kind (entry_to_json lib e)) (entry_to_json lib e) ≡ some (some e)
  unfolding find
  read_entry-back e = simp (kind-object, at-object) (read_object_entry-back e.block_id e.timestamp)

  read_heads-find :
      (m : Map Json) (heads : Map HeadEntry)
      → AllValues IsHead m
      → Distinct m
      → (r : Map HeadEntry) × (read_heads lib m heads ≡ some r)
        × ((j : String) → find j r ≡ or_else (read_in head_in (find j m)) (find j heads))
  unfolding find put
  read_heads-find [] heads h d = (heads, refl, λ j. refl)
  read_heads-find ((k, v) ∷ m) heads ((e, read), hs) (fresh, d) =
      let (r, same, found) = read_heads-find m (put k e heads) hs d in
      (
        r,
        rw (read, read_heads) same,
        λ j. found j ∙ find-read_in head_in k j v e m heads (ap flat read) fresh,
      )

  abbrev written : Map HeadEntry → Map Json
  written heads = map (λ e. (e.0, entry_to_json lib e.1)) heads

  written-IsHead : (heads : Map HeadEntry) → AllValues IsHead (written heads)
  written-IsHead [] = tt
  written-IsHead ((k, e) ∷ heads) = ((e, read_entry-back e), written-IsHead heads)

  written-find :
      (j : String) (heads : Map HeadEntry) → read_in head_in (find j (written heads)) ≡ find j heads
  unfolding find
  written-find j [] = refl
  written-find j ((k, e) ∷ heads) = elim (Bool-cases (str_eq k j)) [
    | inl same ↦ rw same (ap flat (read_entry-back e))
    | inr other ↦ rw other (written-find j heads)
  ]

  heads-back :
      (heads : Map HeadEntry)
      → (r : Map HeadEntry) × (read_heads lib (entries (object (written heads))) [] ≡ some r)
        × ((j : String) → find j r ≡ find j heads)
  unfolding find
  heads-back heads =
      let m = written heads in
      let (r, same, found) =
        read_heads-find (entries (object m)) [] (entries-object IsHead m (written-IsHead heads))
          (distinct-entries (object m)) in
      (
        r,
        same,
        λ j.
            found j
            ∙ rw (find-entries j (object m), at-object j m, written-find j heads)
                (or_else-none (find j heads)),
      )

  -- Where the lock is taken and the file written: after a change of the heads (`setHead`, `removeHead`
  -- or `clear`), a registry that loads the file, whatever it held, has the changed heads.
  pub load_registry-change_heads :
      (env : Env lib) (change : Map HeadEntry → Map HeadEntry) (r : HeadRegistry lib)
      (old : Map HeadEntry)
      → env.registry_lock ≡ true
      → env.registry_writes ≡ true
      → (after : HeadRegistry lib) × (load_registry lib
            (record (change_heads lib env change r).0 { heads = old })
          ≡ some after)
        × ((j : String) → find j after.heads ≡ find j (change r.heads))
  unfolding load_registry change_heads
  load_registry-change_heads env change r old lock writes =
      let (back, same, found) = heads-back (change r.heads) in
      (
        record { heads = back; file = some (heads_to_json lib (change r.heads)) },
        rw (lock, writes) (rw (kind-object (written (change r.heads))) (rw same refl)),
        found,
      )
