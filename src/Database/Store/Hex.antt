-- ===== src/Database/Store/Hex.antt =====
-- The hexadecimal form of a checksum (src/checksum.cpp) is read back.
use Prim.Native.Char.{code}
use bright_chain_cpp.Prelude.{
  ℕ, ◌*◌, ◌/◌, ◌%◌, ◌≡◌, refl, Bool, true, false, Option, some, List, [], ◌∷◌, ◌==◌, ==_iff,
  all_below, all_below_lem, arith, length,
}
use bright_chain_cpp.Gossip.Handle.{codes}
use bright_chain_cpp.Gossip.Hex.{decode_hex, stoi_pair, hex_value}
use bright_chain_cpp.Voting.Poll.{to_key, digit}
use bright_chain_cpp.Voting.Poll.Keys.{AreBytes}
use bright_chain_cpp.Database.Store.{Checksum, to_hex, from_hex}

abbrev reads : ℕ → Option ℕ → Bool
reads b (some v) = v == b
reads b _ = false

every_pair :
    all_below (λ b. reads b (stoi_pair (code (digit (b / 16))) (code (digit (b % 16))))) 256 ≡ true
unfolding stoi_pair hex_value digit
every_pair = refl

reads-some : (b : ℕ) (o : Option ℕ) → reads b o ≡ true → o ≡ some b
reads-some b (some v) h = ground (arith, ==_iff v b)
reads-some b _ h = cc

decode_hex-to_key : (bs : List ℕ) → AreBytes bs → decode_hex (codes (to_key bs)) ≡ some bs
unfolding decode_hex to_key
decode_hex-to_key [] h = refl
decode_hex-to_key (b ∷ bs) (h, hs) =
    let pair = reads-some b (stoi_pair (code (digit (b / 16))) (code (digit (b % 16)))) (
      all_below_lem (λ d. reads d (stoi_pair (code (digit (d / 16))) (code (digit (d % 16))))) 256 b
        every_pair h) in
    rw (pair, decode_hex-to_key bs hs) refl

length-codes : (bs : List ℕ) → length (codes (to_key bs)) ≡ 2 * length bs
unfolding to_key
length-codes [] = refl
length-codes (b ∷ bs) = omega (arith, length-codes bs)

-- A checksum of 64 bytes is read back from its hexadecimal form.
pub from_hex-to_hex : (c : Checksum) → length c ≡ 64 → AreBytes c → from_hex (to_hex c) ≡ some c
unfolding from_hex to_hex
from_hex-to_hex c size bytes =
    let full : (length (codes (to_key c)) == 128) ≡ true =
      (==_iff (length (codes (to_key c))) 128).1 (omega (arith, length-codes c, size)) in
    rw full (decode_hex-to_key c bytes)
