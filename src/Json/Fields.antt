-- ===== src/Json/Fields.antt =====
-- Reading and writing the fields of JSON objects, as the conversions of src/ do it.
use mathlib.Core.Option
use bright_chain_cpp.Prelude.{
  ◌≡◌, refl, ap, subst, ◌∙◌, String, Option, none, some, ◌∷◌, str_eq, eq_iff, if◌then◌else◌, arith,
  Bool-cases, inl, inr,
}
use bright_chain_cpp.Prelude.Map.{Map, find, put, find-put, Lacks, find-Lacks}
use bright_chain_cpp.Json.{JsonLibrary}

infixl 5 ◌>>=◌
abbrev pub ◌>>=◌ {ℓ κ} : {A : Type ℓ} {B : Type κ} → Option A → (A → Option B) → Option B
none >>= f = none
some a >>= f = f a

-- `if (o.has_value()) j[k] = *o;` on the fields of an object
unfoldable pub put_optional {ℓ} : {V : Type ℓ} → String → Option V → Map V → Map V
put_optional k none m = m
put_optional k (some v) m = put k v m

abbrev pub or_else {ℓ} : {V : Type ℓ} → Option V → Option V → Option V
or_else none o = o
or_else (some v) o = some v

pub or_else-none {ℓ} : {V : Type ℓ} (o : Option V) → or_else o none ≡ o
or_else-none none = refl
or_else-none (some v) = refl

pub find-put_optional {ℓ} :
    {V : Type ℓ} (k j : String) (o : Option V) (m : Map V)
    → find j (put_optional k o m) ≡ (if str_eq k j then or_else o (find j m) else find j m)
unfolding put_optional
find-put_optional k j none m = ground arith
find-put_optional k j (some v) m = find-put k j v m

module _ (lib : JsonLibrary) where
  open lib use {Json, at}

  -- `j.at(k)`, converted
  unfoldable pub field {ℓ} : {A : Type ℓ} → (Json → Option A) → String → Json → Option A
  field read k j = at k j >>= read

  abbrev pub kept {ℓ} : {A : Type ℓ} → Option A → Option (Option A)
  kept none = none
  kept (some a) = some (some a)

  abbrev pub read_present {ℓ} : {A : Type ℓ} → (Json → Option A) → Option Json → Option (Option A)
  read_present read none = some none
  read_present read (some v) = kept (read v)

  -- `if (j.contains(k)) m = read(j[k]);`
  unfoldable pub optional_field {ℓ} :
      {A : Type ℓ} → (Json → Option A) → String → Json → Option (Option A)
  optional_field read k j = read_present read (at k j)

  pub read_present-map {ℓ} :
      {A : Type ℓ} (read : Json → Option A) (write : A → Json) (o : Option A)
      → ((a : A) → o ≡ some a → read (write a) ≡ some a)
      → read_present read (Option.map write o) ≡ some o
  read_present-map read write none same = refl
  read_present-map read write (some a) same = rw (same a refl) refl

-- Entries that are read one after the other into a map.
abbrev pub read_in {ℓ κ} : {A : Type ℓ} {B : Type κ} → (A → Option B) → Option A → Option B
read_in read none = none
read_in read (some v) = read v

pub find-read_in {ℓ κ} :
    {A : Type ℓ} {B : Type κ} (read : A → Option B) (k j : String) (v : A) (b : B) (m : Map A)
    (known : Map B)
    → read v ≡ some b
    → Lacks k m
    → or_else (read_in read (find j m)) (find j (put k b known))
      ≡ or_else (read_in read (find j ((k, v) ∷ m))) (find j known)
unfolding find
find-read_in read k j v b m known e fresh = elim (Bool-cases (str_eq k j)) [
  | inl same ↦
      let gone : find j m ≡ none =
        subst (λ i. find i m ≡ none) ((eq_iff k j).0 same) (find-Lacks k m fresh) in
      rw (gone, same, e) (find-put k j b known ∙ ap (λ c. if c then some b else find j known) same)
  | inr other ↦ rw other (
      ap (or_else (read_in read (find j m)))
        (find-put k j b known ∙ ap (λ c. if c then some b else find j known) other))
]
