-- ===== src/Database/Update.antt =====
-- `UpdateEngine` of src/update_engine.cpp. A document is a JSON object, here its fields; the time of
-- `$currentDate` is an argument.
pub mod Frame
use bright_chain_cpp.Prelude.{
  ℕ, String, Bool, true, false, not, ◌||◌, ◌&&◌, Option, none, some, List, [], ◌∷◌, ◌++◌, str_eq,
  if◌then◌else◌,
}
use bright_chain_cpp.Prelude.Int.{ℤ, pos, negsuc}
use bright_chain_cpp.Prelude.Map.{Map, find, put, erase}
use bright_chain_cpp.Json.{JsonLibrary}
use bright_chain_cpp.Database.Query.Compare.{is_array, is_object, is_number, equal_ints}

-- All but the last element.
abbrev pub drop_last {ℓ} : {A : Type ℓ} → List A → List A
drop_last [] = []
drop_last (x ∷ []) = []
drop_last (x ∷ y ∷ xs) = x ∷ drop_last (y ∷ xs)

abbrev pub drop_first {ℓ} : {A : Type ℓ} → List A → List A
drop_first [] = []
drop_first (x ∷ xs) = xs

-- `for (auto it = fields.begin(); ...)`
unfoldable pub for_fields {ℓ} : {V : Type ℓ} → (String → V → Map V → Map V) → Map V → Map V → Map V
for_fields step [] doc = doc
for_fields step ((k, v) ∷ fields) doc = for_fields step fields (step k v doc)

module _ (lib : JsonLibrary) where
  open lib use {
    Json, text, integer, array, kind, get_text, get_int, items, entries, equal, less, add_number,
    multiply_number,
  }

  abbrev pub is_number_in : Option Json → Bool
  is_number_in none = false
  is_number_in (some v) = is_number (kind v)

  -- One field of `$set`, `$unset` and so on.
  unfoldable pub set_field : String → Json → Map Json → Map Json
  unfolding put
  set_field k v doc = put k v doc

  unfoldable pub unset_field : String → Json → Map Json → Map Json
  unfolding erase
  unset_field k v doc = erase k doc

  abbrev pub increased : Json → Option Json → Json
  increased amount none = amount
  increased amount (some old) = if is_number (kind old) then add_number old amount else amount

  unfoldable pub inc_field : String → Json → Map Json → Map Json
  unfolding find put
  inc_field k amount doc =
      if is_number (kind amount) then put k (increased amount (find k doc)) doc else doc

  abbrev pub multiplied : Json → Option Json → Json
  multiplied factor none = integer (pos 0)
  multiplied factor (some old) =
      if is_number (kind old) then multiply_number old factor else integer (pos 0)

  unfoldable pub mul_field : String → Json → Map Json → Map Json
  unfolding find put
  mul_field k factor doc =
      if is_number (kind factor) then put k (multiplied factor (find k doc)) doc else doc

  -- `doc[k] = v` where the field is missing or `replaces` says so of the old value.
  abbrev pub put_if : (Json → Bool) → String → Json → Option Json → Map Json → Map Json
  unfolding put
  put_if replaces k v none doc = put k v doc
  put_if replaces k v (some old) doc = if replaces old then put k v doc else doc

  unfoldable pub min_field : String → Json → Map Json → Map Json
  unfolding find put_if
  min_field k v doc = put_if (λ old. less v old) k v (find k doc) doc

  unfoldable pub max_field : String → Json → Map Json → Map Json
  unfolding find put_if
  max_field k v doc = put_if (λ old. less old v) k v (find k doc) doc

  abbrev pub renamed : String → Option String → Option Json → Map Json → Map Json
  unfolding put erase
  renamed k none old doc = doc
  renamed k (some new) none doc = doc
  renamed k (some new) (some v) doc = erase k (put new v doc)

  unfoldable pub rename_field : String → Json → Map Json → Map Json
  unfolding find renamed
  rename_field k v doc = renamed k (get_text v) (find k doc) doc

  unfoldable pub date_field : String → String → Json → Map Json → Map Json
  unfolding put
  date_field now k v doc = put k (text now) doc

  -- What `doc[key]` is changed to where it is an array, or missing and then an empty one.
  abbrev pub on_array : (List Json → List Json) → String → Option Json → Map Json → Map Json
  unfolding put
  on_array change k none doc = put k (array (change [])) doc
  on_array change k (some old) doc =
      if is_array (kind old) then put k (array (change (items old))) doc else doc

  -- The same where a missing field is left out.
  abbrev pub on_old_array : (List Json → List Json) → String → Option Json → Map Json → Map Json
  unfolding on_array
  on_old_array change k none doc = doc
  on_old_array change k (some old) doc = on_array change k (some old) doc

  abbrev pub appended : Json → List Json → List Json
  appended v xs = xs ++ (v ∷ [])

  unfoldable pub push_field : String → Json → Map Json → Map Json
  unfolding find on_array
  push_field k v doc = on_array (appended v) k (find k doc) doc

  abbrev pub without : Json → List Json → List Json
  without v [] = []
  without v (x ∷ xs) = let rest = without v xs in if equal x v then rest else x ∷ rest

  unfoldable pub pull_field : String → Json → Map Json → Map Json
  unfolding find on_old_array
  pull_field k v doc = on_old_array (without v) k (find k doc) doc

  abbrev pub has_equal : Json → List Json → Bool
  has_equal v [] = false
  has_equal v (x ∷ xs) = equal x v || has_equal v xs

  abbrev pub added : Json → List Json → List Json
  added v xs = if has_equal v xs then xs else appended v xs

  unfoldable pub add_to_set_field : String → Json → Map Json → Map Json
  unfolding find on_array
  add_to_set_field k v doc = on_array (added v) k (find k doc) doc

  abbrev pub popped : Option ℤ → List Json → List Json
  popped none xs = xs
  popped (some dir) xs =
      if equal_ints dir (pos 1)
      then drop_last xs
      else if equal_ints dir (negsuc 0)
      then drop_first xs
      else xs

  unfoldable pub pop_field : String → Json → Map Json → Map Json
  unfolding find on_old_array
  pop_field k direction doc =
      if is_number (kind direction)
      then on_old_array (popped (get_int direction)) k (find k doc) doc
      else doc

  -- The step of an operator; an operator that is not known changes nothing.
  unfoldable pub field_step : String → String → String → Json → Map Json → Map Json
  unfolding set_field unset_field inc_field push_field pull_field add_to_set_field min_field
      max_field rename_field date_field mul_field pop_field
  field_step now op =
      if str_eq op "$set"
      then set_field
      else if str_eq op "$unset"
      then unset_field
      else if str_eq op "$inc"
      then inc_field
      else if str_eq op "$push"
      then push_field
      else if str_eq op "$pull"
      then pull_field
      else if str_eq op "$addToSet"
      then add_to_set_field
      else if str_eq op "$min"
      then min_field
      else if str_eq op "$max"
      then max_field
      else if str_eq op "$rename"
      then rename_field
      else if str_eq op "$currentDate"
      then date_field now
      else if str_eq op "$mul"
      then mul_field
      else if str_eq op "$pop"
      then pop_field
      else (λ k v doc. doc)

  -- The operators of an update, in the order of its keys.
  unfoldable pub apply_operators : String → Map Json → Map Json → Map Json
  unfolding field_step for_fields
  apply_operators now [] doc = doc
  apply_operators now ((op, fields) ∷ update) doc =
      apply_operators now update (
        if is_object (kind fields)
        then for_fields (field_step now op) (entries fields) doc
        else doc)

  unfoldable pub apply_update : String → Map Json → Json → Map Json
  unfolding apply_operators
  apply_update now doc update =
      if is_object (kind update) then apply_operators now (entries update) doc else doc
