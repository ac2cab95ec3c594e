-- ===== src/Database/Query.antt =====
-- `QueryEngine` of src/query_engine.cpp.
pub mod Compare
pub mod Totality
use Prim.Native.Char.{Char, code}
use bright_chain_cpp.Prelude.{
  ℕ, zero, suc, String, Bool, true, false, not, ◌&&◌, ◌||◌, Option, none, some, List, [], ◌∷◌,
  str_eq, ltb, ◌==◌, if◌then◌else◌, length,
}
use bright_chain_cpp.Prelude.Int.{ℤ, pos, negsuc, ◌-ℤ◌, ltb_ℤ}
use bright_chain_cpp.Prelude.Map.{Map}
use bright_chain_cpp.Prelude.Text.{text_before}
use bright_chain_cpp.Json.{
  Kind, a_null, a_boolean, a_number, a_text, an_array, an_object, a_binary, JsonLibrary,
}
use bright_chain_cpp.Database.Query.Compare.{
  is_array, is_object, is_number, type_rank, equal_ints, is_zero, is_above, is_below, sign_of,
  compare_bools, compare_texts, compare_same, compare_values,
}

-- The pieces of a path as `std::getline` with '.' reads them: an empty last piece is none.
abbrev pub cons_head : Char → List String → List String
cons_head c [] = (String.◌∷◌ c "") ∷ []
cons_head c (s ∷ rest) = (String.◌∷◌ c s) ∷ rest

abbrev pub pieces : String → List String
pieces String.[] = "" ∷ []
pieces (String.◌∷◌ c s) =
    let rest = pieces s in if code c == b'.' then "" ∷ rest else cons_head c rest

abbrev pub drop_empty_last : List String → List String
drop_empty_last [] = []
drop_empty_last (s ∷ []) = if str_eq s "" then [] else s ∷ []
drop_empty_last (s ∷ t ∷ rest) = s ∷ drop_empty_last (t ∷ rest)

unfoldable pub segments : String → List String
segments path = drop_empty_last (pieces path)

-- `!key.empty() && key[0] == '$'`
abbrev pub is_operator : String → Bool
is_operator String.[] = false
is_operator (String.◌∷◌ c s) = code c == b'$'

-- A result in order: `none`, out of fuel, and false end the loop.
abbrev pub and_then : Option Bool → Option Bool → Option Bool
and_then none rest = none
and_then (some false) rest = some false
and_then (some true) rest = rest

abbrev pub or_then : Option Bool → Option Bool → Option Bool
or_then none rest = none
or_then (some true) rest = some true
or_then (some false) rest = rest

abbrev pub is_true : Option Bool → Bool
is_true none = false
is_true (some b) = b

module _ (lib : JsonLibrary) where
  open lib use {Json, kind, get_text, get_bool, items, entries, at, equal, less, less_number, depth}

  abbrev pub resolve : List String → Option Json → Option Json
  resolve path none = none
  resolve [] (some j) = some j
  resolve (s ∷ path) (some j) =
      let rest = resolve path (at s j) in if is_object (kind j) then rest else none

  unfoldable pub resolve_field : Json → String → Option Json
  unfolding segments
  resolve_field doc path = resolve (segments path) (some doc)

  abbrev pub any_equal : Json → List Json → Bool
  unfolding compare_values
  any_equal v [] = false
  any_equal v (x ∷ xs) = is_zero (compare_values lib v x) || any_equal v xs

  -- `operand.is_boolean() ? operand.get<bool>() : true`
  abbrev pub should_exist : Json → Bool
  should_exist operand = elim (get_bool operand) [ none ↦ true | some b ↦ b ]

  unfoldable pub matches_operator : Json → String → Json → Bool
  unfolding compare_values any_equal
  matches_operator v op operand =
      let c = compare_values lib v operand in
      if str_eq op "$eq"
      then is_zero c
      else if str_eq op "$ne"
      then not (is_zero c)
      else if str_eq op "$gt"
      then is_above c
      else if str_eq op "$gte"
      then not (is_below c)
      else if str_eq op "$lt"
      then is_below c
      else if str_eq op "$lte"
      then not (is_above c)
      else if str_eq op "$in"
      then is_array (kind operand) && any_equal v (items operand)
      else if str_eq op "$nin"
      then not (is_array (kind operand)) || not (any_equal v (items operand))
      else if str_eq op "$exists"
      then should_exist operand
      else false

  abbrev pub has_operators : Map Json → Bool
  has_operators [] = false
  has_operators ((k, v) ∷ m) = is_operator k || has_operators m

  abbrev pub matches_operators : Json → Map Json → Bool
  unfolding matches_operator
  matches_operators v [] = true
  matches_operators v ((op, operand) ∷ m) = matches_operator v op operand && matches_operators v m

  unfoldable pub matches_field_filter : Json → Json → Bool
  unfolding matches_operators compare_values
  matches_field_filter v filter =
      if is_object (kind filter) && has_operators (entries filter)
      then matches_operators v (entries filter)
      else is_zero (compare_values lib v filter)

  -- The operators besides `$exists`.
  abbrev pub matches_others : Json → Map Json → Bool
  unfolding matches_operator
  matches_others v [] = true
  matches_others v ((op, operand) ∷ m) =
      (str_eq op "$exists" || matches_operator v op operand) && matches_others v m

  abbrev pub matches_found : Option Json → Json → Bool
  unfolding matches_others
  matches_found none filter = true
  matches_found (some v) filter =
      if ltb 1 (length (entries filter)) then matches_others v (entries filter) else true

  abbrev pub is_there : Option Json → Bool
  is_there none = false
  is_there (some v) = true

  abbrev pub same_bool : Bool → Bool → Bool
  same_bool true b = b
  same_bool false b = not b

  abbrev pub matches_exists : Option Json → Json → Json → Bool
  unfolding matches_found
  matches_exists found operand filter =
      same_bool (is_there found) (should_exist operand) && matches_found found filter

  abbrev pub matches_present : Option Json → Json → Bool
  unfolding matches_field_filter
  matches_present none filter = false
  matches_present (some v) filter = matches_field_filter v filter

  -- A condition on one field.
  unfoldable pub matches_field : Json → String → Json → Bool
  unfolding matches_exists matches_present resolve_field
  matches_field doc key filter =
      elim (if is_object (kind filter) then at "$exists" filter else none) [
        | some operand ↦ matches_exists (resolve_field doc key) operand filter
        | none ↦ matches_present (resolve_field doc key) filter
      ]

  abbrev pub all_match : (Json → Option Bool) → List Json → Option Bool
  all_match test [] = some true
  all_match test (x ∷ xs) = and_then (test x) (all_match test xs)

  abbrev pub any_match : (Json → Option Bool) → List Json → Option Bool
  any_match test [] = some false
  any_match test (x ∷ xs) = or_then (test x) (any_match test xs)

  unfoldable pub matches_logical : (Json → Option Bool) → String → Json → Option Bool
  matches_logical test op operand =
      if is_array (kind operand)
      then if str_eq op "$and"
        then all_match test (items operand)
        else if str_eq op "$or"
        then any_match test (items operand)
        else some false
      else some false

  -- The conditions of a filter, in order; `test` is the match of a nested filter.
  unfoldable pub matches_entries : (Json → Option Bool) → Json → Map Json → Option Bool
  unfolding matches_logical matches_field
  matches_entries test doc [] = some true
  matches_entries test doc ((key, filter) ∷ m) =
      and_then
        (if str_eq key "$and" || str_eq key "$or"
          then matches_logical test key filter
          else some (matches_field doc key filter))
        (matches_entries test doc m)

  abbrev pub is_null : Kind → Bool
  is_null a_null = true
  is_null _ = false

  -- `filter.empty()`
  abbrev pub is_empty_json : Json → Bool
  is_empty_json j =
      is_null (kind j)
      || (is_array (kind j) && (length (items j) == 0)
          || is_object (kind j) && (length (entries j) == 0))

  -- One unit of fuel for each level of nested filters.
  unfoldable pub matches_filter : ℕ → Json → Json → Option Bool
  unfolding matches_entries
  matches_filter zero doc filter = none
  matches_filter (suc n) doc filter =
      let inner = matches_entries (matches_filter n doc) doc (entries filter) in
      if is_empty_json filter
      then some true
      else if is_object (kind filter)
      then inner
      else some false

  -- `matchesFilter`, with the fuel that is enough.
  unfoldable pub matches : Json → Json → Bool
  unfolding matches_filter
  matches doc filter = is_true (matches_filter (suc (depth filter)) doc filter)
