-- ===== src/Gossip/Peers/Reconnect.antt =====
-- `calculateReconnectDelay` of src/gossip/peer_manager.cpp.

use bright_chain_cpp.Prelude.{ℕ, ◌^◌, ◌<◌, ◌≡◌, refl, min, ◌==◌, ==_iff, all_below_lem}
use bright_chain_cpp.Prelude.Int.{ℤ, pos}
use bright_chain_cpp.Gossip.Peers.{shift_one, calculate_reconnect_delay}

-- Up to attempt 31 the delay is 2^attempt seconds, but never more than 60.
reconnect_delay_lem :
    (wide : ℕ → ℤ) (attempt : ℕ)
    → attempt < 32
    → calculate_reconnect_delay wide (pos attempt) ≡ min (2 ^ attempt) 60
unfolding calculate_reconnect_delay shift_one
reconnect_delay_lem wide attempt h = (==_iff _ _).0 (
    all_below_lem (λ n. calculate_reconnect_delay wide (pos n) == min (2 ^ n) 60) 32 attempt refl h)
