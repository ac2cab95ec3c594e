-- ===== src/Database/Query/Totality.antt =====
-- The match of a filter by src/query_engine.cpp ends: filters are nested to a finite depth.
use bright_chain_cpp.Prelude.{
  ℕ, zero, suc, ◌≤◌, ◌<◌, ◌≡◌, refl, ◌||◌, String, Bool, true, false, Option, none, some, List, [],
  ◌∷◌, str_eq, arith, if_cases,
}
use bright_chain_cpp.Prelude.Map.{Map, AllValues}
use bright_chain_cpp.Json.{JsonLibrary, All}
use bright_chain_cpp.Database.Query.{
  and_then, or_then, all_match, any_match, is_empty_json, matches_logical, matches_field,
  matches_entries, matches_filter,
}
use bright_chain_cpp.Database.Query.Compare.{is_array, is_object}

-- The result is there.
abbrev pub IsDefined : Option Bool → Type 0
IsDefined o = (b : Bool) × (o ≡ some b)

and_then-IsDefined :
    (o rest : Option Bool) → IsDefined o → IsDefined rest → IsDefined (and_then o rest)
and_then-IsDefined none rest (b, e) r = absurd (cc)
and_then-IsDefined (some true) rest d r = r
and_then-IsDefined (some false) rest d r = (false, refl)

or_then-IsDefined :
    (o rest : Option Bool) → IsDefined o → IsDefined rest → IsDefined (or_then o rest)
or_then-IsDefined none rest (b, e) r = absurd (cc)
or_then-IsDefined (some true) rest d r = (true, refl)
or_then-IsDefined (some false) rest d r = r

module _ (lib : JsonLibrary) where
  open lib use {Json, kind, items, entries, depth, depth-items, depth-entries}

  all_match-IsDefined :
      (test : Json → Option Bool) (n : ℕ)
      → ((x : Json) → depth x < n → IsDefined (test x))
      → (xs : List Json) → All (λ x. depth x < n) xs
      → IsDefined (all_match lib test xs)
  all_match-IsDefined test n defined [] h = (true, refl)
  all_match-IsDefined test n defined (x ∷ xs) (h, hs) =
      and_then-IsDefined (test x) (all_match lib test xs) (defined x h)
        (all_match-IsDefined test n defined xs hs)

  any_match-IsDefined :
      (test : Json → Option Bool) (n : ℕ)
      → ((x : Json) → depth x < n → IsDefined (test x))
      → (xs : List Json) → All (λ x. depth x < n) xs
      → IsDefined (any_match lib test xs)
  any_match-IsDefined test n defined [] h = (false, refl)
  any_match-IsDefined test n defined (x ∷ xs) (h, hs) =
      or_then-IsDefined (test x) (any_match lib test xs) (defined x h)
        (any_match-IsDefined test n defined xs hs)

  matches_logical-IsDefined :
      (test : Json → Option Bool) (op : String) (operand : Json)
      → ((x : Json) → depth x < depth operand → IsDefined (test x))
      → IsDefined (matches_logical lib test op operand)
  unfolding matches_logical
  matches_logical-IsDefined test op operand defined =
      let refused : IsDefined (some false) = (false, refl) in
      let all =
        all_match-IsDefined test (depth operand) defined (items operand) (depth-items operand) in
      let any =
        any_match-IsDefined test (depth operand) defined (items operand) (depth-items operand) in
      if_cases IsDefined (is_array (kind operand)) _ _
        (λ _.
          if_cases IsDefined (str_eq op "$and") _ _ (λ _. all)
            (λ _. if_cases IsDefined (str_eq op "$or") _ _ (λ _. any) (λ _. refused)))
        (λ _. refused)

  matches_entries-IsDefined :
      (test : Json → Option Bool) (doc : Json) (n : ℕ)
      → ((x : Json) → depth x < n → IsDefined (test x))
      → (m : Map Json) → AllValues (λ v. depth v ≤ n) m
      → IsDefined (matches_entries lib test doc m)
  unfolding matches_entries
  matches_entries-IsDefined test doc n defined [] h = (true, refl)
  matches_entries-IsDefined test doc n defined ((k, v) ∷ m) (h, hs) =
      and_then-IsDefined _ (matches_entries lib test doc m)
        (if_cases IsDefined (str_eq k "$and" || str_eq k "$or") (matches_logical lib test k v)
          (some (matches_field lib doc k v))
          (λ _. matches_logical-IsDefined test k v (λ x below. defined x (omega (arith, below, h))))
          (λ _. (matches_field lib doc k v, refl)))
        (matches_entries-IsDefined test doc n defined m hs)

  at_most :
      (n : ℕ) (m : Map Json) → AllValues (λ v. depth v < suc n) m → AllValues (λ v. depth v ≤ n) m
  at_most n [] h = tt
  at_most n ((k, v) ∷ m) (h, hs) = (omega (arith, h), at_most n m hs)

  below_all :
      (n d : ℕ) (m : Map Json)
      → d ≤ n
      → AllValues (λ v. depth v < d) m
      → AllValues (λ v. depth v < n) m
  below_all n d [] h a = tt
  below_all n d ((k, v) ∷ m) h (a, as') = (omega (arith, h, a), below_all n d m h as')

  -- With a unit of fuel for each level of nesting, and one more, the match of a filter ends with a
  -- result.
  pub matches_filter-IsDefined :
      (n : ℕ) (doc filter : Json) → depth filter < n → IsDefined (matches_filter lib n doc filter)
  unfolding matches_filter
  matches_filter-IsDefined zero doc filter h = absurd (omega (arith, h))
  matches_filter-IsDefined (suc n) doc filter h =
      if_cases IsDefined (is_empty_json lib filter) _ _ (λ _. (true, refl))
        λ _.
          if_cases IsDefined (is_object (kind filter)) _ _
            (λ _.
              matches_entries-IsDefined (matches_filter lib n doc) doc n
                (λ x below. matches_filter-IsDefined n doc x below) (entries filter)
                (at_most n (entries filter) (
                  below_all (suc n) (depth filter) (entries filter) (omega (arith, h))
                    (depth-entries filter))))
            (λ _. (false, refl))
