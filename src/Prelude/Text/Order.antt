-- ===== src/Prelude/Text/Order.antt =====
-- The order of texts is total, and a map in the order of its keys looks up like any other.
use Prim.Native.Char.{code}
use Prim.Native.String.{String}
use mathlib.Core.Path.{◌≡◌, refl, sym, ap, ◌∙◌, subst}
use mathlib.Core.Logic.{inl, inr}
use mathlib.Core.Bool.{true, false, ◌||◌}
use mathlib.Core.Option.{some}
use mathlib.Core.List.{[], ◌∷◌}
use native.Mathlib.Omega.{arith}
use text.Mathlib.Text.{◌==◌ as str_eq}
use text.Mathlib.TextEquality.{eq_iff, Char-path}
use bright_chain_cpp.Prelude.Map.{Map, find, contains}
use bright_chain_cpp.Prelude.Tests.{if◌then◌else◌, Bool-cases}
use bright_chain_cpp.Prelude.Text.{text_before, put_ordered}

text_before_irrefl : (s : String) → text_before s s ≡ false
unfolding text_before
text_before_irrefl String.[] = refl
text_before_irrefl (String.◌∷◌ c s) = ground (arith, text_before_irrefl s)

text_before-ne : (s t : String) → text_before s t ≡ true → str_eq s t ≡ false
text_before-ne s t h = elim (Bool-cases (str_eq s t)) [
  | inl same ↦
      let here = subst (λ u. text_before s u ≡ true) (sym ((eq_iff s t).0 same)) h in
      absurd (ground (arith, here, text_before_irrefl s))
  | inr other ↦ other
]

text_before_total : (s t : String) → text_before s t ≡ false → text_before t s ≡ false → s ≡ t
unfolding text_before
text_before_total String.[] String.[] h k = refl
text_before_total String.[] (String.◌∷◌ d t) h k = absurd (ground (arith, h))
text_before_total (String.◌∷◌ c s) String.[] h k = absurd (ground (arith, k))
text_before_total (String.◌∷◌ c s) (String.◌∷◌ d t) h k =
    let codes : code c ≡ code d = ground (arith, h, k) in
    let rest : s ≡ t = text_before_total s t (ground (arith, h, k)) (ground (arith, h, k)) in
    ap (λ a. String.◌∷◌ a s) (Char-path c d codes) ∙ ap (λ u. String.◌∷◌ d u) rest

module _ {ℓ} {V : Type ℓ} where
  pub find-put_ordered :
      (k j : String) (v : V) (m : Map V)
      → find j (put_ordered k v m) ≡ (if str_eq k j then some v else find j m)
  unfolding find put_ordered
  find-put_ordered k j v [] = refl
  find-put_ordered k j v ((i, w) ∷ m) = ground (
    arith,
    eq_iff k j,
    eq_iff i k,
    eq_iff i j,
    find-put_ordered k j v m,
    text_before-ne i k,
    text_before_total i k,
  )

  pub contains-put_ordered :
      (k j : String) (v : V) (m : Map V)
      → contains j (put_ordered k v m) ≡ (str_eq k j || contains j m)
  unfolding contains put_ordered
  contains-put_ordered k j v [] = refl
  contains-put_ordered k j v ((i, w) ∷ m) = ground (
    arith,
    eq_iff k j,
    eq_iff i k,
    eq_iff i j,
    contains-put_ordered k j v m,
    text_before-ne i k,
    text_before_total i k,
  )
