-- ===== src/Gossip/Hex.antt =====
-- The decoding of a hex text in `handleAnnouncement` of src/gossip/gossip_engine.cpp: `std::stoi` to
-- the base 16 of each pair of characters. Texts are their character codes.
use bright_chain_cpp.Prelude.{
  ℕ, ◌+◌, ◌-◌, ◌*◌, ◌%◌, Bool, ◌&&◌, ◌||◌, Option, none, some, List, [], ◌∷◌, leb, ◌==◌,
  if◌then◌else◌,
}

unfoldable pub hex_value : ℕ → Option ℕ
hex_value c =
    if leb b'0' c && leb c b'9'
    then some (c - b'0')
    else if leb b'a' c && leb c b'f'
    then some (10 + (c - b'a'))
    else if leb b'A' c && leb c b'F'
    then some (10 + (c - b'A'))
    else none

abbrev pub is_space : ℕ → Bool
is_space c = c == 32 || (leb 9 c && leb c 13)

abbrev pub negated_byte : Option ℕ → Option ℕ
negated_byte none = none
negated_byte (some v) = some ((256 - v) % 256)

-- `static_cast<uint8_t>(std::stoi(text, nullptr, 16))` of a text of two characters, with `none` for
-- the exception. The first character may be a space or a sign; a second one that is no digit ends
-- the number.
unfoldable pub stoi_pair : ℕ → ℕ → Option ℕ
unfolding hex_value
stoi_pair c d = elim (hex_value c) [
  | some v ↦ elim (hex_value d) [ some w ↦ some (v * 16 + w) | none ↦ some v ]
  | none ↦
      if is_space c || c == b'+'
      then hex_value d
      else if c == b'-'
      then negated_byte (hex_value d)
      else none
]

abbrev pub cons_byte : Option ℕ → Option (List ℕ) → Option (List ℕ)
cons_byte none rest = none
cons_byte (some b) none = none
cons_byte (some b) (some bs) = some (b ∷ bs)

-- `for (i = 0; i + 1 < size; i += 2)`: a last character alone is left out.
unfoldable pub decode_hex : List ℕ → Option (List ℕ)
unfolding stoi_pair
decode_hex [] = some []
decode_hex (c ∷ []) = some []
decode_hex (c ∷ d ∷ cs) = cons_byte (stoi_pair c d) (decode_hex cs)
