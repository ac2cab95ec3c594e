-- ===== src/Logs.antt =====
-- The logs of the voting system: `AuditLog` (src/audit_log.cpp), `BulletinBoard`
-- (src/bulletin_board.cpp) and `EventLogger` (src/event_logger.cpp), and what they share.
pub mod Audit
pub mod Board
pub mod Events
mod Tests
use bright_chain_cpp.Prelude.{
  ℕ, zero, suc, ◌/◌, ◌%◌, ◌^◌, Bool, true, false, Option, List, [], ◌∷◌, ◌++◌, ◌==◌, ◌&&◌, ◌≡◌,
  refl, ap, arith, ==_iff, and_true,
}
use bright_chain_cpp.Voting.Bytes.{Bytes}

-- The member that signs, with the hashes: SHA3-512 for the audit log, SHA-256 for the board.
-- `shift_int n s` is the value of `n >> s` for an `int`, which C++ does not define from 32 bits on.
pub record Signer : Type 0 where
  pub id : Bytes
  pub sign : Bytes → Option Bytes
  pub verify : Bytes → Bytes → Bool
  pub sha3 : Bytes → Bytes
  pub sha256 : Bytes → Bytes
  pub shift_int : ℕ → ℕ → ℕ

-- `arraysEqual` and `operator==` of `std::vector<uint8_t>`
abbrev pub arrays_equal : Bytes → Bytes → Bool
arrays_equal [] [] = true
arrays_equal (a ∷ as') (b ∷ bs) = a == b && arrays_equal as' bs
arrays_equal _ _ = false

pub arrays_equal_refl : (a : Bytes) → arrays_equal a a ≡ true
arrays_equal_refl [] = refl
arrays_equal_refl (x ∷ a) = ground (arith, arrays_equal_refl a)

pub eq_of_arrays_equal : (a b : Bytes) → arrays_equal a b ≡ true → a ≡ b
eq_of_arrays_equal [] [] h = refl
eq_of_arrays_equal [] (y ∷ b) h = absurd (cc)
eq_of_arrays_equal (x ∷ a) [] h = absurd (cc)
eq_of_arrays_equal (x ∷ a) (y ∷ b) h =
    let (same, rest) = and_true (x == y) (arrays_equal a b) h in
    let tails = eq_of_arrays_equal a b rest in let heads = (==_iff x y).0 same in cc (heads, tails)

abbrev pub concat : List Bytes → Bytes
concat [] = []
concat (a ∷ as') = a ++ concat as'

-- `encodeNumber`: the last `n` bytes of a number, the most significant one first.
abbrev pub big_endian : ℕ → ℕ → Bytes
big_endian zero n = []
big_endian (suc k) n = n / 256 ^ k % 256 ∷ big_endian k n

abbrev pub encode_number : ℕ → Bytes
encode_number n = big_endian 8 n
