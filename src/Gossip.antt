-- ===== src/Gossip.antt =====
-- src/gossip: the gossip protocol of the nodes.
pub mod Announcement
pub mod Wire
pub mod Bloom
pub mod Retry
pub mod Config
pub mod Peers
pub mod Engine
pub mod Select
pub mod Sending
pub mod Flush
pub mod Hex
pub mod Announce
pub mod Handle
mod Tests
