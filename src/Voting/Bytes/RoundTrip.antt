-- ===== src/Voting/Bytes/RoundTrip.antt =====
-- What src/poll_tallier.cpp reads back of the integers it writes as bytes.

use bright_chain_cpp.Prelude.{ℕ, zero, suc, ◌+◌, ◌/◌, ◌^◌, ◌<◌, ◌≡◌, refl, take, arith}
use bright_chain_cpp.Prelude.Int.{pos, negsuc, ◌+ℤ◌}
use bright_chain_cpp.Voting.Bytes.{
  Bytes, le_value, bytes_to_int, le_bytes, int_to_bytes, add_int64, add_bigint_bytes,
}

le_value-le_bytes : (fuel n : ℕ) → n < 256 ^ fuel → le_value (take fuel (le_bytes fuel n)) ≡ n
le_value-le_bytes zero n h = omega arith
le_value-le_bytes (suc fuel) n h = ground (arith, le_value-le_bytes fuel (n / 256))

-- Every integer from 0 to 2^63 - 1 is read back as it was written.
pub bytes_to_int-int_to_bytes : (n : ℕ) → n < 2 ^ 63 → bytes_to_int (int_to_bytes (pos n)) ≡ pos n
unfolding bytes_to_int int_to_bytes
bytes_to_int-int_to_bytes zero h = refl
bytes_to_int-int_to_bytes (suc n) h = ground (arith, le_value-le_bytes 8 (suc n))

add_fits : (m n : ℕ) → m + n < 2 ^ 63 → add_int64 (pos m) (pos n) ≡ pos (m + n)
unfolding add_int64 ◌+ℤ◌
add_fits m n h = ground arith

-- Sums that fit are the sums of the integers.
pub add_bytes :
    (a b : Bytes) (m n : ℕ)
    → bytes_to_int a ≡ pos m
    → bytes_to_int b ≡ pos n
    → m + n < 2 ^ 63
    → add_bigint_bytes a b ≡ int_to_bytes (pos (m + n))
unfolding add_bigint_bytes
add_bytes a b m n ha hb fits = rw (ha, hb, add_fits m n fits) refl

minus_one_back : bytes_to_int (int_to_bytes (negsuc 0)) ≡ pos 65281
unfolding bytes_to_int int_to_bytes
minus_one_back = refl
