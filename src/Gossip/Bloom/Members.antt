-- ===== src/Gossip/Bloom/Members.antt =====
-- The Bloom filter of src/gossip/bloom_filter.cpp has no false negatives.
use native.Mathlib.Nat.{mod-lt}
use bright_chain_cpp.Prelude.{
  ℕ, zero, suc, ◌<◌, ◌≡◌, refl, sym, ap, subst, ◌||◌, ◌∙◌, String, Bool, true, false, Option, none,
  some, List, [], ◌∷◌, length, length-set, get_or, get_or-set_self, get_or-set_ne, set, arith,
  ℕ_discrete, str_eq, eq_iff, if◌then◌else◌, if_true, Bool-cases, inl, inr, ◌==◌,
}
use bright_chain_cpp.Prelude.Map.{contains_key}
use bright_chain_cpp.Gossip.Bloom.{
  BloomFilter, set_bits, all_set, indices, mixed, hashes, add, might_contain,
}

-- As many bits as the size says, and at least one.
abbrev pub HasBits : BloomFilter → Type 0
HasBits f = (length f.bits ≡ f.size) × (0 < f.size)

abbrev AllBelow : ℕ → List ℕ → Type 0
AllBelow n [] = Unit
AllBelow n (i ∷ is') = (i < n) × AllBelow n is'

-- A bit that is set stays set.
set-keeps :
    (bits : List Bool) (i j : ℕ)
    → i < length bits
    → get_or bits j false ≡ true
    → get_or (set bits i true) j false ≡ true
set-keeps bits i j below h = elim (ℕ_discrete i j) [
  | yes same ↦ rw (sym same) (get_or-set_self bits i true false below)
  | no other ↦ get_or-set_ne bits i j true false other ∙ h
]

set_bits-keeps :
    (is' : List ℕ) (bits : List Bool) (j : ℕ)
    → AllBelow (length bits) is'
    → get_or bits j false ≡ true
    → get_or (set_bits is' bits) j false ≡ true
unfolding set_bits
set_bits-keeps [] bits j below h = h
set_bits-keeps (i ∷ is') bits j (here, rest) h =
    set_bits-keeps is' (set bits i true) j (rw (length-set bits i true) rest)
      (set-keeps bits i j here h)

length-set_bits : (is' : List ℕ) (bits : List Bool) → length (set_bits is' bits) ≡ length bits
unfolding set_bits
length-set_bits [] bits = refl
length-set_bits (i ∷ is') bits = length-set_bits is' (set bits i true) ∙ length-set bits i true

all_set-set_bits :
    (is' : List ℕ) (bits : List Bool)
    → AllBelow (length bits) is'
    → all_set is' (set_bits is' bits) ≡ true
unfolding all_set set_bits
all_set-set_bits [] bits below = refl
all_set-set_bits (i ∷ is') bits (here, rest) =
    let fits : AllBelow (length (set bits i true)) is' = rw (length-set bits i true) rest in
    rw (set_bits-keeps is' (set bits i true) i fits (get_or-set_self bits i true false here))
      (all_set-set_bits is' (set bits i true) fits)

all_set-keeps :
    (js is' : List ℕ) (bits : List Bool)
    → AllBelow (length bits) js
    → all_set is' bits ≡ true
    → all_set is' (set_bits js bits) ≡ true
unfolding all_set
all_set-keeps js [] bits below h = refl
all_set-keeps js (i ∷ is') bits below h =
    let (here, rest) = if_true (get_or bits i false) (all_set is' bits) h in
    rw (set_bits-keeps js bits i below here) (all_set-keeps js is' bits below rest)

module _ (word : String → ℕ → ℕ) where
  indices-AllBelow :
      (item : String) (size i n : ℕ) → 0 < size → AllBelow size (indices word item size i n)
  indices-AllBelow item size i zero some' = tt
  indices-AllBelow item size i (suc n) some' =
      (mod-lt (mixed word item i) some', indices-AllBelow item size (suc i) n some')

  -- The filter after `add` of each item.
  abbrev pub add_all : List String → BloomFilter → Option BloomFilter
  add_all [] f = some f
  add_all (s ∷ ss) f = elim (add word s f) [ none ↦ none | some g ↦ add_all ss g ]

  abbrev after : String → BloomFilter → BloomFilter
  after s f = record f { bits = set_bits (indices word s f.size 0 f.hash_count) f.bits }

  hashes-indices :
      (s : String) (f : BloomFilter)
      → HasBits f
      → hashes word s f ≡ some (indices word s f.size 0 f.hash_count)
  unfolding hashes
  hashes-indices s f (size, some') =
      let nonzero : (f.size == 0) ≡ false = ground (arith, some') in
      ap (λ b. if b then none else some (indices word s f.size 0 f.hash_count)) nonzero

  add-after : (s : String) (f : BloomFilter) → HasBits f → add word s f ≡ some (after s f)
  unfolding add
  add-after s f ok = rw (hashes-indices s f ok, add) refl

  HasBits-after : (s : String) (f : BloomFilter) → HasBits f → HasBits (after s f)
  HasBits-after s f (size, some') =
      (length-set_bits (indices word s f.size 0 f.hash_count) f.bits ∙ size, some')

  -- What an `if` with `mightContain` finds.
  abbrev Contains : String → BloomFilter → Type 0
  Contains s f = all_set (indices word s f.size 0 f.hash_count) f.bits ≡ true

  Contains-self : (s : String) (f : BloomFilter) → HasBits f → Contains s (after s f)
  Contains-self s f (size, some') =
      all_set-set_bits (indices word s f.size 0 f.hash_count) f.bits
        (rw size (indices-AllBelow s f.size 0 f.hash_count some'))

  Contains-after :
      (s t : String) (f : BloomFilter) → HasBits f → Contains s f → Contains s (after t f)
  Contains-after s t f (size, some') h =
      all_set-keeps (indices word t f.size 0 f.hash_count) (indices word s f.size 0 f.hash_count)
        f.bits (rw size (indices-AllBelow t f.size 0 f.hash_count some')) h

  abbrev final : List String → BloomFilter → BloomFilter
  final [] f = f
  final (s ∷ ss) f = final ss (after s f)

  add_all-final :
      (ss : List String) (f : BloomFilter) → HasBits f → add_all ss f ≡ some (final ss f)
  add_all-final [] f ok = refl
  add_all-final (s ∷ ss) f ok =
      rw (add-after s f ok, add_all) (add_all-final ss (after s f) (HasBits-after s f ok))

  HasBits-final : (ss : List String) (f : BloomFilter) → HasBits f → HasBits (final ss f)
  HasBits-final [] f ok = ok
  HasBits-final (s ∷ ss) f ok = HasBits-final ss (after s f) (HasBits-after s f ok)

  Contains-final :
      (ss : List String) (s : String) (f : BloomFilter)
      → HasBits f
      → Contains s f
      → Contains s (final ss f)
  Contains-final [] s f ok h = h
  Contains-final (t ∷ ss) s f ok h =
      Contains-final ss s (after t f) (HasBits-after t f ok) (Contains-after s t f ok h)

  Contains-member :
      (ss : List String) (s : String) (f : BloomFilter)
      → HasBits f
      → contains_key s ss ≡ true
      → Contains s (final ss f)
  Contains-member [] s f ok h = absurd (cc)
  Contains-member (t ∷ ss) s f ok h = elim (Bool-cases (str_eq t s)) [
    | inl same ↦
        subst (λ k. Contains k (final ss (after t f))) ((eq_iff t s).0 same)
          (Contains-final ss t (after t f) (HasBits-after t f ok) (Contains-self t f ok))
    | inr other ↦
        Contains-member ss s (after t f) (HasBits-after t f ok)
          (ap (λ b. b || contains_key s ss) (sym other) ∙ h)
  ]

  might_contain-Contains :
      (s : String) (f : BloomFilter) → HasBits f → Contains s f → might_contain word s f ≡ some true
  unfolding might_contain
  might_contain-Contains s f ok h = rw (hashes-indices s f ok, might_contain) (ap some h)

  -- Adding items to a filter with bits succeeds, and `mightContain` finds each of them afterwards.
  pub add_all-might_contain :
      (ss : List String) (f : BloomFilter)
      → HasBits f
      → (g : BloomFilter) × (add_all ss f ≡ some g)
        × ((s : String) → contains_key s ss ≡ true → might_contain word s g ≡ some true)
  add_all-might_contain ss f ok = (
    final ss f,
    add_all-final ss f ok,
    λ s h.
        might_contain-Contains s (final ss f) (HasBits-final ss f ok) (Contains-member ss s f ok h),
  )
