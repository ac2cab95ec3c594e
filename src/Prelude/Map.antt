-- ===== src/Prelude/Map.antt =====
-- `std::map` and `std::unordered_map` with string keys, as association lists. An entry keeps its
-- place when it is assigned again; a new one goes to the end.
use Prim.Native.String.{String}
use mathlib.Core.Path.{◌≡◌, refl, subst}
use mathlib.Core.Logic.{inl, inr}
use mathlib.Core.Bool.{Bool, false, ◌||◌}
use mathlib.Core.Option.{Option, none, some}
use mathlib.Core.List.{List, [], ◌∷◌}
use native.Mathlib.Omega.{arith}
use text.Mathlib.Text.{◌==◌ as str_eq}
use text.Mathlib.TextEquality.{eq_iff}
use text.Mathlib.TextPositions.{eq_refl}
use bright_chain_cpp.Prelude.Tests.{if◌then◌else◌, if_cases, Bool-cases}

abbrev pub Map {ℓ} : Type ℓ → Type ℓ
Map V = List (String × V)

-- Whether a list holds a string.
abbrev pub contains_key : String → List String → Bool
contains_key k [] = false
contains_key k (j ∷ ks) = str_eq j k || contains_key k ks

module _ {ℓ} {V : Type ℓ} where
  -- `m.find(k)`, with `none` for `m.end()`
  unfoldable pub find : String → Map V → Option V
  find k [] = none
  find k ((j, v) ∷ m) = if str_eq j k then some v else find k m

  -- `m.count(k) > 0`, `m.contains(k)`
  unfoldable pub contains : String → Map V → Bool
  contains k [] = false
  contains k ((j, v) ∷ m) = str_eq j k || contains k m

  -- `m[k] = v`
  unfoldable pub put : String → V → Map V → Map V
  put k v [] = (k, v) ∷ []
  put k v ((j, w) ∷ m) = if str_eq j k then (j, v) ∷ m else (j, w) ∷ put k v m

  -- `m.emplace(k, v)` leaves an entry that is there as it is
  unfoldable pub emplace : String → V → Map V → Map V
  emplace k v [] = (k, v) ∷ []
  emplace k v ((j, w) ∷ m) = if str_eq j k then (j, w) ∷ m else (j, w) ∷ emplace k v m

  -- `m.erase(k)`
  unfoldable pub erase : String → Map V → Map V
  erase k [] = []
  erase k ((j, v) ∷ m) = let rest = erase k m in if str_eq j k then rest else (j, v) ∷ rest

  pub find-put :
      (k j : String) (v : V) (m : Map V)
      → find j (put k v m) ≡ (if str_eq k j then some v else find j m)
  unfolding find put
  find-put k j v [] = refl
  find-put k j v ((i, w) ∷ m) = ground (arith, eq_iff k j, eq_iff i k, eq_iff i j, find-put k j v m)

  pub contains-put :
      (k j : String) (v : V) (m : Map V) → contains j (put k v m) ≡ (str_eq k j || contains j m)
  unfolding contains put
  contains-put k j v [] = refl
  contains-put k j v ((i, w) ∷ m) =
      ground (arith, eq_iff k j, eq_iff i k, eq_iff i j, contains-put k j v m)

  pub find-erase :
      (k j : String) (m : Map V) → find j (erase k m) ≡ (if str_eq k j then none else find j m)
  unfolding find erase
  find-erase k j [] = ground arith
  find-erase k j ((i, v) ∷ m) = ground (arith, find-erase k j m, eq_iff i k, eq_iff i j, eq_iff k j)

  pub find-emplace_new :
      (k : String) (v : V) (m : Map V) → find k m ≡ none → find k (emplace k v m) ≡ some v
  unfolding find emplace
  find-emplace_new k v [] h = rw (eq_refl k)
  find-emplace_new k v ((i, w) ∷ m) h = ground (arith, find-emplace_new k v m)

  pub find-emplace_old : (k : String) (v w : V) (m : Map V) → find k m ≡ some w → emplace k v m ≡ m
  unfolding find emplace
  find-emplace_old k v w [] h = cc
  find-emplace_old k v w ((i, u) ∷ m) h = ground (arith, find-emplace_old k v w m)

  pub find-emplace_kept :
      (k j : String) (v w : V) (m : Map V) → find j m ≡ some w → find j (emplace k v m) ≡ some w
  unfolding find emplace
  find-emplace_kept k j v w [] h = cc
  find-emplace_kept k j v w ((i, u) ∷ m) h = ground (arith, find-emplace_kept k j v w m)

-- Every value of the map.
abbrev pub AllValues {ℓ κ} : {V : Type ℓ} → (V → Type κ) → Map V → Type κ
AllValues P [] = Unit
AllValues P ((k, v) ∷ m) = P v × AllValues P m

module _ {ℓ κ} {V : Type ℓ} (P : V → Type κ) where
  pub AllValues-put :
      (k : String) (v : V) (m : Map V) → P v → AllValues P m → AllValues P (put k v m)
  unfolding put
  AllValues-put k v [] h a = (h, tt)
  AllValues-put k v ((j, w) ∷ m) h a = ground (arith, AllValues-put k v m h a.1)

  pub AllValues-emplace :
      (k : String) (v : V) (m : Map V) → P v → AllValues P m → AllValues P (emplace k v m)
  unfolding emplace
  AllValues-emplace k v [] h a = (h, tt)
  AllValues-emplace k v ((j, w) ∷ m) h a = ground (arith, AllValues-emplace k v m h a.1)

  pub AllValues-erase : (k : String) (m : Map V) → AllValues P m → AllValues P (erase k m)
  unfolding erase
  AllValues-erase k [] a = a
  AllValues-erase k ((j, w) ∷ m) a = ground (arith, AllValues-erase k m a.1)

  pub AllValues-find : (k : String) (v : V) (m : Map V) → AllValues P m → find k m ≡ some v → P v
  unfolding find
  AllValues-find k v [] a e = cc
  AllValues-find k v ((j, w) ∷ m) a e = elim (Bool-cases (str_eq j k)) [
    | inl same ↦ subst P (ground arith) a.0
    | inr other ↦ AllValues-find k v m a.1 (ground arith)
  ]

-- No entry has the key.
abbrev pub Lacks {ℓ} : {V : Type ℓ} → String → Map V → Type 0
Lacks k [] = Unit
Lacks k ((j, v) ∷ m) = (str_eq j k ≡ false) × Lacks k m

-- Every key stands once.
abbrev pub Distinct {ℓ} : {V : Type ℓ} → Map V → Type 0
Distinct [] = Unit
Distinct ((k, v) ∷ m) = Lacks k m × Distinct m

module _ {ℓ} {V : Type ℓ} where
  pub Lacks-erase_self : (k : String) (m : Map V) → Lacks k (erase k m)
  unfolding erase
  Lacks-erase_self k [] = tt
  Lacks-erase_self k ((j, v) ∷ m) =
      if_cases (Lacks k) (str_eq j k) (erase k m) ((j, v) ∷ erase k m) (λ _. Lacks-erase_self k m)
        (λ other. (other, Lacks-erase_self k m))

  pub Lacks-erase : (k j : String) (m : Map V) → Lacks j m → Lacks j (erase k m)
  unfolding erase
  Lacks-erase k j [] h = tt
  Lacks-erase k j ((i, v) ∷ m) (other, h) =
      if_cases (Lacks j) (str_eq i k) (erase k m) ((i, v) ∷ erase k m) (λ _. Lacks-erase k j m h)
        (λ _. (other, Lacks-erase k j m h))

  pub Distinct-erase : (k : String) (m : Map V) → Distinct m → Distinct (erase k m)
  unfolding erase
  Distinct-erase k [] d = tt
  Distinct-erase k ((j, v) ∷ m) (fresh, d) =
      if_cases Distinct (str_eq j k) (erase k m) ((j, v) ∷ erase k m) (λ _. Distinct-erase k m d)
        (λ _. (Lacks-erase k j m fresh, Distinct-erase k m d))

  pub find-Lacks : (k : String) (m : Map V) → Lacks k m → find k m ≡ none
  unfolding find
  find-Lacks k [] h = refl
  find-Lacks k ((j, v) ∷ m) (other, h) = rw other (find-Lacks k m h)

  pub find-not_contains : (k : String) (m : Map V) → contains k m ≡ false → find k m ≡ none
  unfolding find contains
  find-not_contains k [] h = refl
  find-not_contains k ((j, v) ∷ m) h = ground (arith, find-not_contains k m)
