-- ===== src/Voting/Poll/Keys.antt =====
-- The keys that `toKey` of src/poll.cpp makes of voter ids.
use Prim.Native.Char.{code}
use bright_chain_cpp.Prelude.{
  ℕ, ◌+◌, ◌/◌, ◌%◌, ◌<◌, ◌≡◌, refl, sym, ap, ◌∙◌, [], ◌∷◌, arith, ltb, ◌==◌, ==_iff, all_below_lem,
  if◌then◌else◌,
}
use bright_chain_cpp.Voting.Bytes.{Bytes}
use bright_chain_cpp.Voting.Poll.{digit, to_key}

-- Every byte is below 256.
abbrev pub AreBytes : Bytes → Type 0
AreBytes [] = Unit
AreBytes (b ∷ bs) = (b < 256) × AreBytes bs

code-digit : (d : ℕ) → d < 16 → code (digit d) ≡ (if ltb d 10 then 48 + d else 87 + d)
unfolding digit
code-digit d h =
    (==_iff _ _).0
      (all_below_lem (λ d. code (digit d) == (if ltb d 10 then 48 + d else 87 + d)) 16 d refl h)

digit_injective : (a b : ℕ) → a < 16 → b < 16 → digit a ≡ digit b → a ≡ b
digit_injective a b ha hb e = ground (arith, sym (code-digit a ha) ∙ ap code e ∙ code-digit b hb)

-- Different ids of bytes below 256 have different keys in the maps of a poll.
to_key_injective : (a b : Bytes) → AreBytes a → AreBytes b → to_key a ≡ to_key b → a ≡ b
unfolding to_key
to_key_injective [] [] ha hb e = refl
to_key_injective [] (y ∷ b) ha hb e = absurd (cc)
to_key_injective (x ∷ a) [] ha hb e = absurd (cc)
to_key_injective (x ∷ a) (y ∷ b) ha hb e =
    let high = digit_injective (x / 16) (y / 16) (omega arith) (omega arith) (cc) in
    let low = digit_injective (x % 16) (y % 16) (omega arith) (omega arith) (cc) in
    let same : x ≡ y = omega (arith, high, low) in
    let rest = to_key_injective a b ha.1 hb.1 (cc) in rw (same, rest) refl
