-- ===== src/Json.antt =====
-- `nlohmann::json`, which src/ uses for the messages of the gossip protocol and for the documents of
-- the database. The library is not part of the repository: it is a record of the operations that the
-- code calls, with the documented behaviour that the code relies on. An exception is `none`.
pub mod Fields
pub mod Example
use bright_chain_cpp.Prelude.{
  ℕ, ◌+◌, ◌^◌, ◌<◌, ◌≡◌, String, Bool, true, false, Option, none, some, List, [], ◌∷◌,
}
use bright_chain_cpp.Prelude.Int.{ℤ, pos, negsuc}
use bright_chain_cpp.Prelude.Map.{Map, find, AllValues, Distinct}

-- What `is_null()`, `is_boolean()`, `is_number()`, `is_string()`, `is_array()` and `is_object()`
-- tell apart; `a_binary` is none of these.
pub data Kind : Type 0 where
  a_null a_boolean a_number a_text an_array an_object a_binary : Kind

-- The integers of an `intN_t` with `w + 1` bits.
abbrev pub FitsInt : ℕ → ℤ → Type 0
FitsInt w (pos n) = n < 2 ^ w
FitsInt w (negsuc n) = n < 2 ^ w

abbrev pub All {ℓ κ} : {A : Type ℓ} → (A → Type κ) → List A → Type κ
All P [] = Unit
All P (x ∷ xs) = P x × All P xs

pub record JsonLibrary : Type 1 where
  pub Json : Type 0
  pub null : Json
  pub text : String → Json
  pub boolean : Bool → Json
  pub integer : ℤ → Json
  pub array : List Json → Json
  pub object : Map Json → Json
  pub kind : Json → Kind
  -- `get<std::string>()`, `get<bool>()`, `get<int>()` and `get<int64_t>()`
  pub get_text : Json → Option String
  pub get_bool : Json → Option Bool
  pub get_int : Json → Option ℤ
  pub get_int64 : Json → Option ℤ
  -- `get<std::vector<Json>>()`, of arrays only
  pub get_array : Json → Option (List Json)
  -- the elements of an array, the entries of an object, and the entry of a key
  pub items : Json → List Json
  pub entries : Json → Map Json
  pub at : String → Json → Option Json
  -- `a == b`, `a < b`, and `<`, `+` and `*` of the numbers read as `double`
  pub equal : Json → Json → Bool
  pub less : Json → Json → Bool
  pub less_number : Json → Json → Bool
  pub add_number : Json → Json → Json
  pub multiply_number : Json → Json → Json
  -- `dump()` and `parse()`
  pub Bytes : Type 0
  pub dump : Json → Bytes
  pub parse : Bytes → Option Json
  -- how deep the value is nested
  pub depth : Json → ℕ
  pub get_text-text : (s : String) → get_text (text s) ≡ some s
  pub get_bool-boolean : (b : Bool) → get_bool (boolean b) ≡ some b
  pub get_int-integer : (z : ℤ) → FitsInt 31 z → get_int (integer z) ≡ some z
  pub get_int64-integer : (z : ℤ) → FitsInt 63 z → get_int64 (integer z) ≡ some z
  pub get_array-array : (xs : List Json) → get_array (array xs) ≡ some xs
  pub items-array : (xs : List Json) → items (array xs) ≡ xs
  pub kind-array : (xs : List Json) → kind (array xs) ≡ an_array
  pub kind-object : (m : Map Json) → kind (object m) ≡ an_object
  pub kind-text : (s : String) → kind (text s) ≡ a_text
  pub at-object : (k : String) (m : Map Json) → at k (object m) ≡ find k m
  pub distinct-entries : (j : Json) → Distinct (entries j)
  pub entries-object :
      (P : Json → Type 0) (m : Map Json) → AllValues P m → AllValues P (entries (object m))
  pub find-entries : (k : String) (j : Json) → find k (entries j) ≡ at k j
  pub depth-items : (j : Json) → All (λ v. depth v < depth j) (items j)
  pub depth-entries : (j : Json) → AllValues (λ v. depth v < depth j) (entries j)
  -- of texts of Unicode characters and finite numbers, which `dump` writes without loss
  pub parse-dump : (j : Json) → parse (dump j) ≡ some j
