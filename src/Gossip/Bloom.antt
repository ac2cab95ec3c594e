-- ===== src/Gossip/Bloom.antt =====
-- `BloomFilter` of src/gossip/bloom_filter.cpp. The number of bits, which `optimalSize` computes with
-- floating-point numbers, and the words of the hash are arguments.
pub mod Members
use Prim.Native.Nat.{bit_and, bit_or, bit_xor}
use bright_chain_cpp.Prelude.{
  ℕ, zero, suc, ◌+◌, ◌*◌, ◌/◌, ◌%◌, ◌^◌, String, Bool, true, false, not, ◌&&◌, Option, none, some,
  List, [], ◌∷◌, ◌++◌, length, replicate, set, get_or, ltb, ◌==◌, if◌then◌else◌,
}
use bright_chain_cpp.Voting.Bytes.{Bytes}
use bright_chain_cpp.Voting.Poll.{timestamp_bytes}

pub record BloomFilter : Type 0 where
  pub bits : List Bool
  pub hash_count : ℕ
  pub size : ℕ

-- The constructor, with `none` for its exception.
unfoldable pub new_filter : ℕ → ℕ → Option BloomFilter
new_filter bits hash_count =
    if ltb hash_count 1
    then none
    else some (record { bits = replicate bits false; hash_count = hash_count; size = bits })

-- Set the bit of each index.
unfoldable pub set_bits : List ℕ → List Bool → List Bool
set_bits [] bits = bits
set_bits (i ∷ is') bits = set_bits is' (set bits i true)

unfoldable pub all_set : List ℕ → List Bool → Bool
all_set [] bits = true
all_set (i ∷ is') bits = let rest = all_set is' bits in if get_or bits i false then rest else false

abbrev pub or_one : List ℕ → ℕ → ℕ → List ℕ
or_one out i mask = set out i (bit_or (get_or out i 0) mask)

-- The loop of `serialize` over the bits, from bit `i` on.
unfoldable pub pack_bits : ℕ → List Bool → Bytes → Bytes
pack_bits i [] out = out
pack_bits i (b ∷ bits) out =
    pack_bits (suc i) bits (if b then or_one out (4 + i / 8) (2 ^ (i % 8)) else out)

-- Four bytes of the size, and the bits, the first in the lowest place of its byte.
unfoldable pub serialize : BloomFilter → Bytes
unfolding pack_bits
serialize f = pack_bits 0 f.bits (timestamp_bytes 4 f.size ++ replicate ((f.size + 7) / 8) 0)

abbrev pub size_of : Bytes → ℕ
size_of data' =
    get_or data' 0 0
    + 256 * get_or data' 1 0
    + 256 ^ 2 * get_or data' 2 0
    + 256 ^ 3 * get_or data' 3 0

abbrev pub bit_at : Bytes → ℕ → Bool
bit_at data' i = not (bit_and (get_or data' (4 + i / 8) 0) (2 ^ (i % 8)) == 0)

-- `n` bits from bit `i` on.
abbrev pub bits_of : Bytes → ℕ → ℕ → List Bool
bits_of data' i zero = []
bits_of data' i (suc n) = bit_at data' i ∷ bits_of data' (suc i) n

unfoldable pub deserialize : Bytes → Option BloomFilter
deserialize data' =
    if ltb (length data') 4
    then none
    else if ltb (length data') (4 + (size_of data' + 7) / 8)
    then none
    else some
        (record { bits = bits_of data' 0 (size_of data'); hash_count = 7; size = size_of data' })

-- `word s i` is the little-endian number in the bytes from `8 * i` on of the hash of `s`.
module _ (word : String → ℕ → ℕ) where
  abbrev pub mixed : String → ℕ → ℕ
  mixed item i =
      if ltb i 8
      then word item i
      else bit_xor (word item (i % 8)) (i * 11400714819323198485 % 2 ^ 64)

  -- `n` indices from index `i` on.
  abbrev pub indices : String → ℕ → ℕ → ℕ → List ℕ
  indices item size i zero = []
  indices item size i (suc n) = mixed item i % size ∷ indices item size (suc i) n

  -- `none` for the division by zero of a filter without bits.
  unfoldable pub hashes : String → BloomFilter → Option (List ℕ)
  hashes item f = if f.size == 0 then none else some (indices item f.size 0 f.hash_count)

  unfoldable pub add : String → BloomFilter → Option BloomFilter
  unfolding hashes set_bits
  add item f = elim (hashes item f) [
    | none ↦ none
    | some is' ↦ some (record f { bits = set_bits is' f.bits })
  ]

  unfoldable pub might_contain : String → BloomFilter → Option Bool
  unfolding hashes all_set
  might_contain item f = elim (hashes item f) [ none ↦ none | some is' ↦ some (all_set is' f.bits) ]
