-- ===== src/Gossip/Config.antt =====
-- include/brightchain/gossip/gossip_config.hpp and the validation of src/gossip/gossip_config.cpp.
use bright_chain_cpp.Prelude.{ℕ, suc, ◌-◌, ◌^◌, Bool, ◌&&◌}
use bright_chain_cpp.Prelude.Int.{ℤ, pos, negsuc}
use bright_chain_cpp.Gossip.Announcement.{is_positive}

pub record PriorityGossipConfig : Type 0 where
  pub fanout : ℤ
  pub ttl : ℤ

pub record MessagePriority : Type 0 where
  pub normal : PriorityGossipConfig
  pub high : PriorityGossipConfig

pub record GossipConfig : Type 0 where
  pub fanout : ℤ
  pub default_ttl : ℤ
  pub batch_interval_ms : ℤ
  pub max_batch_size : ℤ
  pub message_priority : MessagePriority

-- The values that the members have by default.
abbrev pub default_config : GossipConfig
default_config = record {
  fanout = pos 3;
  default_ttl = pos 3;
  batch_interval_ms = pos 1000;
  max_batch_size = pos 100;
  message_priority = record {
    normal = record { fanout = pos 5; ttl = pos 5 };
    high = record { fanout = pos 7; ttl = pos 7 };
  };
}

unfoldable pub validate : GossipConfig → Bool
validate c =
    is_positive c.fanout
    && (is_positive c.default_ttl
        && (is_positive c.message_priority.normal.fanout
            && (is_positive c.message_priority.normal.ttl
                && (is_positive c.message_priority.high.fanout
                    && is_positive c.message_priority.high.ttl))))

-- `static_cast<size_t>(n)` for an `int`
abbrev pub to_size : ℤ → ℕ
to_size (pos n) = n
to_size (negsuc n) = 2 ^ 64 - suc n
