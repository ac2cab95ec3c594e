-- ===== src/Prelude/Text.antt =====
-- The order of texts, and maps in the order of their keys.
pub mod Order
use Prim.Native.Char.{code}
use Prim.Native.String.{String}
use mathlib.Core.Bool.{Bool, true, false}
use mathlib.Core.List.{[], ◌∷◌}
use bright_chain_cpp.Prelude.Map.{Map}
use bright_chain_cpp.Prelude.Tests.{ltb, ◌==◌, if◌then◌else◌}

-- The order of `std::string`.
unfoldable pub text_before : String → String → Bool
text_before s String.[] = false
text_before String.[] (String.◌∷◌ d t) = true
text_before (String.◌∷◌ c s) (String.◌∷◌ d t) =
    let rest = text_before s t in
    if ltb (code c) (code d) then true else if code c == code d then rest else false

-- `m[k] = v` for a map in the order of its keys
unfoldable pub put_ordered {ℓ} : {V : Type ℓ} → String → V → Map V → Map V
unfolding text_before
put_ordered k v [] = (k, v) ∷ []
put_ordered k v ((j, w) ∷ m) =
    let rest = put_ordered k v m in
    if text_before j k
    then (j, w) ∷ rest
    else if text_before k j
    then (k, v) ∷ (j, w) ∷ m
    else (j, v) ∷ m
