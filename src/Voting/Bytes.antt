-- ===== src/Voting/Bytes.antt =====
-- The byte form of 64-bit integers: `bytesToInt`, `intToBytes`, `addBigintBytes` and
-- `compareBigintBytes` of src/poll_tallier.cpp. A byte is a number below 256, an `int64_t` an integer
-- from -2^63 to 2^63 - 1, and its overflow wraps.
pub mod RoundTrip
use bright_chain_cpp.Prelude.{
  ℕ, zero, suc, ◌+◌, ◌-◌, ◌*◌, ◌/◌, ◌%◌, ◌^◌, Bool, List, [], ◌∷◌, ◌++◌, take, ltb, ◌==◌,
  if◌then◌else◌,
}
use bright_chain_cpp.Prelude.Int.{ℤ, pos, negsuc, pos_part, neg_part, ◌+ℤ◌, ltb_ℤ}

abbrev pub Bytes : Type 0
Bytes = List ℕ

-- The number that bytes stand for, least significant byte first.
abbrev pub le_value : Bytes → ℕ
le_value [] = 0
le_value (b ∷ bs) = b + 256 * le_value bs

-- A bit pattern read as an `int64_t`.
abbrev pub of_pattern : ℕ → ℤ
of_pattern n = if ltb n (2 ^ 63) then pos n else negsuc (2 ^ 64 - n - 1)

-- No more than eight bytes are read.
unfoldable pub bytes_to_int : Bytes → ℤ
bytes_to_int bs = of_pattern (le_value (take 8 bs) % 2 ^ 64)

-- The low `fuel` bytes of a number, up to its most significant one.
abbrev pub le_bytes : ℕ → ℕ → Bytes
le_bytes zero n = []
le_bytes (suc fuel) n = let rest = le_bytes fuel (n / 256) in if n == 0 then [] else n % 256 ∷ rest

-- Eight bytes hold every absolute value. A negative value gets a last byte 0xFF.
unfoldable pub int_to_bytes : ℤ → Bytes
int_to_bytes (pos zero) = 0 ∷ []
int_to_bytes (pos (suc n)) = le_bytes 8 (suc n)
int_to_bytes (negsuc n) = le_bytes 8 (suc n) ++ 255 ∷ []

-- The 64-bit pattern of an integer.
abbrev pub pattern_of : ℤ → ℕ
pattern_of (pos n) = n % 2 ^ 64
pattern_of (negsuc n) = 2 ^ 64 - 1 - n % 2 ^ 64

unfoldable pub add_int64 : ℤ → ℤ → ℤ
unfolding ◌+ℤ◌
add_int64 a b = of_pattern (pattern_of (a +ℤ b))

unfoldable pub add_bigint_bytes : Bytes → Bytes → Bytes
unfolding bytes_to_int int_to_bytes add_int64
add_bigint_bytes a b = int_to_bytes (add_int64 (bytes_to_int a) (bytes_to_int b))

-- a < b
unfoldable pub compare_bigint_bytes : Bytes → Bytes → Bool
unfolding bytes_to_int
compare_bigint_bytes a b = ltb_ℤ (bytes_to_int a) (bytes_to_int b)
