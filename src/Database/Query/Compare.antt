-- ===== src/Database/Query/Compare.antt =====
-- The comparison of values by `QueryEngine::compareValues` of src/query_engine.cpp.

use bright_chain_cpp.Prelude.{String, Bool, true, false, Option, some, ltb, ◌==◌, if◌then◌else◌}
use bright_chain_cpp.Prelude.Int.{ℤ, pos, negsuc, ◌-ℤ◌}
use bright_chain_cpp.Prelude.Text.{text_before}
use bright_chain_cpp.Json.{
  Kind, a_null, a_boolean, a_number, a_text, an_array, an_object, a_binary, JsonLibrary,
}

abbrev pub is_array : Kind → Bool
is_array an_array = true
is_array _ = false

abbrev pub is_object : Kind → Bool
is_object an_object = true
is_object _ = false

abbrev pub is_number : Kind → Bool
is_number a_number = true
is_number _ = false

-- `typeRank`
abbrev pub type_rank : Kind → ℤ
type_rank a_null = pos 0
type_rank a_boolean = pos 1
type_rank a_number = pos 2
type_rank a_text = pos 3
type_rank an_array = pos 4
type_rank an_object = pos 5
type_rank a_binary = negsuc 0

abbrev pub equal_ints : ℤ → ℤ → Bool
equal_ints (pos m) (pos n) = m == n
equal_ints (negsuc m) (negsuc n) = m == n
equal_ints _ _ = false

abbrev pub is_zero : ℤ → Bool
is_zero (pos n) = n == 0
is_zero (negsuc n) = false

abbrev pub is_above : ℤ → Bool
is_above (pos n) = ltb 0 n
is_above (negsuc n) = false

abbrev pub is_below : ℤ → Bool
is_below (pos n) = false
is_below (negsuc n) = true

-- The sign of a comparison by `<` in both directions.
abbrev pub sign_of : Bool → Bool → ℤ
sign_of true after = negsuc 0
sign_of false true = pos 1
sign_of false false = pos 0

abbrev pub compare_bools : Option Bool → Option Bool → ℤ
compare_bools (some false) (some true) = negsuc 0
compare_bools (some true) (some false) = pos 1
compare_bools _ _ = pos 0

abbrev pub compare_texts : Option String → Option String → ℤ
unfolding text_before
compare_texts (some s) (some t) = sign_of (text_before s t) (text_before t s)
compare_texts _ _ = pos 0

module _ (lib : JsonLibrary) where
  open lib use {Json, kind, get_text, get_bool, items, entries, at, equal, less, less_number, depth}

  -- The comparison of two values of one kind.
  unfoldable pub compare_same : Kind → Json → Json → ℤ
  compare_same a_null a b = pos 0
  compare_same a_boolean a b = compare_bools (get_bool a) (get_bool b)
  compare_same a_number a b = sign_of (less_number a b) (less_number b a)
  compare_same a_text a b = compare_texts (get_text a) (get_text b)
  compare_same an_array a b = if equal a b then pos 0 else if less a b then negsuc 0 else pos 1
  compare_same an_object a b = if equal a b then pos 0 else if less a b then negsuc 0 else pos 1
  compare_same a_binary a b = pos 0

  unfoldable pub compare_values : Json → Json → ℤ
  unfolding compare_same ◌-ℤ◌
  compare_values a b =
      if equal_ints (type_rank (kind a)) (type_rank (kind b))
      then compare_same (kind a) a b
      else type_rank (kind a) -ℤ type_rank (kind b)
