-- ===== src/Json/Example.antt =====
-- JSON values as a data type: a library that meets the assumptions, for the instances.
use bright_chain_cpp.Prelude.{
  ℕ, suc, ◌<◌, ◌≡◌, refl, sym, ap, ◌∙◌, subst, String, Bool, true, false, Option, none, some, List,
  [], ◌∷◌, str_eq, if◌then◌else◌, arith, max, ◌&&◌,
}
use bright_chain_cpp.Prelude.Int.{ℤ, ltb_ℤ, ◌+ℤ◌, ◌*ℤ◌}
use bright_chain_cpp.Prelude.Map.{
  Map, find, erase, find-erase, Lacks-erase_self, AllValues, AllValues-erase, Distinct,
  Distinct-erase,
}
use bright_chain_cpp.Json.{
  Kind, a_null, a_boolean, a_number, a_text, an_array, an_object, JsonLibrary, All,
}

mutual
  pub data Value : Type 0 where
    nothing : Value
    flag : Bool → Value
    number : ℤ → Value
    word : String → Value
    sequence : Items → Value
    group : Fields → Value

  pub data Items : Type 0 where
    no_items : Items
    item : Value → Items → Items

  pub data Fields : Type 0 where
    no_fields : Fields
    entry : String → Value → Fields → Fields

abbrev pub of_list : List Value → Items
of_list [] = no_items
of_list (x ∷ xs) = item x (of_list xs)

abbrev pub to_list : Items → List Value
to_list no_items = []
to_list (item x xs) = x ∷ to_list xs

abbrev pub of_map : Map Value → Fields
of_map [] = no_fields
of_map ((k, v) ∷ m) = entry k v (of_map m)

abbrev pub to_map : Fields → Map Value
to_map no_fields = []
to_map (entry k v fs) = (k, v) ∷ to_map fs

pub to_list-of_list : (xs : List Value) → to_list (of_list xs) ≡ xs
to_list-of_list [] = refl
to_list-of_list (x ∷ xs) = ap (λ ys. x ∷ ys) (to_list-of_list xs)

pub to_map-of_map : (m : Map Value) → to_map (of_map m) ≡ m
to_map-of_map [] = refl
to_map-of_map ((k, v) ∷ m) = ap (λ n. (k, v) ∷ n) (to_map-of_map m)

abbrev pub kind_of : Value → Kind
kind_of nothing = a_null
kind_of (flag b) = a_boolean
kind_of (number z) = a_number
kind_of (word s) = a_text
kind_of (sequence xs) = an_array
kind_of (group fs) = an_object

abbrev pub word_of : Value → Option String
word_of (word s) = some s
word_of _ = none

abbrev pub flag_of : Value → Option Bool
flag_of (flag b) = some b
flag_of _ = none

abbrev pub number_of : Value → Option ℤ
number_of (number z) = some z
number_of _ = none

abbrev pub sequence_of : Value → Option (List Value)
sequence_of (sequence xs) = some (to_list xs)
sequence_of _ = none

abbrev pub items_of : Value → List Value
items_of (sequence xs) = to_list xs
items_of _ = []

-- Of entries with one key the first counts.
unfoldable pub once : Map Value → Map Value
unfolding erase
once [] = []
once ((k, v) ∷ m) = (k, v) ∷ erase k (once m)

unfoldable pub entries_of : Value → Map Value
unfolding once
entries_of (group fs) = once (to_map fs)
entries_of _ = []

abbrev pub at_of : String → Value → Option Value
unfolding find entries_of once erase
at_of k v = find k (entries_of v)

abbrev pub equal_int : ℤ → ℤ → Bool
equal_int a b = if ltb_ℤ a b then false else if ltb_ℤ b a then false else true

abbrev pub equal_bool : Bool → Bool → Bool
equal_bool true b = b
equal_bool false true = false
equal_bool false false = true

unfoldable mutual
  pub equal_values : Value → Value → Bool
  equal_values nothing nothing = true
  equal_values (flag a) (flag b) = equal_bool a b
  equal_values (number a) (number b) = equal_int a b
  equal_values (word s) (word t) = str_eq s t
  equal_values (sequence xs) (sequence ys) = equal_items xs ys
  equal_values (group fs) (group gs) = equal_fields fs gs
  equal_values _ _ = false

  pub equal_items : Items → Items → Bool
  equal_items no_items no_items = true
  equal_items (item x xs) (item y ys) = equal_values x y && equal_items xs ys
  equal_items _ _ = false

  pub equal_fields : Fields → Fields → Bool
  equal_fields no_fields no_fields = true
  equal_fields (entry k v fs) (entry j w gs) =
      str_eq k j && (equal_values v w && equal_fields fs gs)
  equal_fields _ _ = false

abbrev pub with_numbers : (ℤ → ℤ → Value) → Value → Value → Value
with_numbers f (number a) (number b) = f a b
with_numbers f _ _ = nothing

abbrev pub less_numbers : Value → Value → Bool
less_numbers (number a) (number b) = ltb_ℤ a b
less_numbers _ _ = false

unfoldable mutual
  pub depth_of : Value → ℕ
  depth_of (sequence xs) = suc (depth_items xs)
  depth_of (group fs) = suc (depth_fields fs)
  depth_of _ = 0

  pub depth_items : Items → ℕ
  depth_items no_items = 0
  depth_items (item x xs) = max (depth_of x) (depth_items xs)

  pub depth_fields : Fields → ℕ
  depth_fields no_fields = 0
  depth_fields (entry k v fs) = max (depth_of v) (depth_fields fs)

pub items_below : (n : ℕ) (xs : Items) → depth_items xs < n → All (λ v. depth_of v < n) (to_list xs)
unfolding depth_items
items_below n no_items h = tt
items_below n (item x xs) h = (omega arith, items_below n xs (omega arith))

pub fields_below :
    (n : ℕ) (fs : Fields) → depth_fields fs < n → AllValues (λ v. depth_of v < n) (to_map fs)
unfolding depth_fields
fields_below n no_fields h = tt
fields_below n (entry k v fs) h = (omega arith, fields_below n fs (omega arith))

pub find-once : (k : String) (m : Map Value) → find k (once m) ≡ find k m
unfolding find once
find-once k [] = refl
find-once k ((j, v) ∷ m) = ground (arith, find-erase j k (once m), find-once k m)

pub Distinct-once : (m : Map Value) → Distinct (once m)
unfolding once
Distinct-once [] = tt
Distinct-once ((k, v) ∷ m) =
    (Lacks-erase_self k (once m), Distinct-erase k (once m) (Distinct-once m))

pub AllValues-once : (P : Value → Type 0) (m : Map Value) → AllValues P m → AllValues P (once m)
unfolding once
AllValues-once P [] h = tt
AllValues-once P ((k, v) ∷ m) (h, hs) = (h, AllValues-erase P k (once m) (AllValues-once P m hs))

pub Distinct-entries_of : (v : Value) → Distinct (entries_of v)
unfolding entries_of
Distinct-entries_of nothing = tt
Distinct-entries_of (flag b) = tt
Distinct-entries_of (number z) = tt
Distinct-entries_of (word s) = tt
Distinct-entries_of (sequence xs) = tt
Distinct-entries_of (group fs) = Distinct-once (to_map fs)

pub entries-group :
    (P : Value → Type 0) (m : Map Value)
    → AllValues P m
    → AllValues P (entries_of (group (of_map m)))
unfolding entries_of
entries-group P m h =
    AllValues-once P (to_map (of_map m)) (subst (AllValues P) (sym (to_map-of_map m)) h)

pub depth-items_of : (v : Value) → All (λ x. depth_of x < depth_of v) (items_of v)
unfolding depth_of
depth-items_of nothing = tt
depth-items_of (flag b) = tt
depth-items_of (number z) = tt
depth-items_of (word s) = tt
depth-items_of (sequence xs) = items_below (suc (depth_items xs)) xs (omega arith)
depth-items_of (group fs) = tt

pub depth-entries_of : (v : Value) → AllValues (λ x. depth_of x < depth_of v) (entries_of v)
unfolding depth_of entries_of
depth-entries_of nothing = tt
depth-entries_of (flag b) = tt
depth-entries_of (number z) = tt
depth-entries_of (word s) = tt
depth-entries_of (sequence xs) = tt
depth-entries_of (group fs) =
    AllValues-once (λ x. depth_of x < suc (depth_fields fs)) (to_map fs)
      (fields_below (suc (depth_fields fs)) fs (omega arith))

pub at_of-group : (k : String) (m : Map Value) → at_of k (group (of_map m)) ≡ find k m
unfolding find entries_of once erase
at_of-group k m = find-once k (to_map (of_map m)) ∙ ap (find k) (to_map-of_map m)

pub find-entries_of : (k : String) (v : Value) → find k (entries_of v) ≡ at_of k v
unfolding find entries_of once erase
find-entries_of k v = refl

abbrev pub values : JsonLibrary
values = record {
  Json = Value;
  null = nothing;
  text = word;
  boolean = flag;
  integer = number;
  array = λ xs. sequence (of_list xs);
  object = λ m. group (of_map m);
  kind = kind_of;
  get_text = word_of;
  get_bool = flag_of;
  get_int = number_of;
  get_int64 = number_of;
  get_array = sequence_of;
  items = items_of;
  entries = entries_of;
  at = at_of;
  equal = equal_values;
  less = less_numbers;
  less_number = less_numbers;
  add_number = with_numbers (λ a b. number (a +ℤ b));
  multiply_number = with_numbers (λ a b. number (a *ℤ b));
  Bytes = Value;
  dump = λ v. v;
  parse = some;
  depth = depth_of;
  get_text-text = λ s. refl;
  get_bool-boolean = λ b. refl;
  get_int-integer = λ z h. refl;
  get_int64-integer = λ z h. refl;
  get_array-array = λ xs. ap some (to_list-of_list xs);
  items-array = to_list-of_list;
  kind-array = λ xs. refl;
  kind-object = λ m. refl;
  kind-text = λ s. refl;
  at-object = at_of-group;
  distinct-entries = Distinct-entries_of;
  entries-object = entries-group;
  find-entries = find-entries_of;
  depth-items = depth-items_of;
  depth-entries = depth-entries_of;
  parse-dump = λ j. refl;
}
