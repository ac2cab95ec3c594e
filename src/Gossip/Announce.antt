-- ===== src/Gossip/Announce.antt =====
-- The `announce…` calls of src/gossip/gossip_engine.cpp, but for `announcePoolCreation`, which
-- encrypts pool metadata.

use bright_chain_cpp.Prelude.{String, Option, none, some, str_eq, if◌then◌else◌}
use bright_chain_cpp.Prelude.Int.{ℤ}
use bright_chain_cpp.Gossip.Announcement.{
  AnnouncementType, BlockAnnouncement, MessageDeliveryMetadata, DeliveryAckMetadata, WriteProof,
  QuorumProposalMetadata, QuorumVoteMetadata, CblIndexEntry,
}
use bright_chain_cpp.Gossip.Engine.{Env, Engine, queue_announcement}

-- An announcement of the local node with no metadata.
unfoldable pub new_announcement : Env → Engine → AnnouncementType → String → ℤ → BlockAnnouncement
new_announcement env e type block_id ttl = record {
  type = type;
  block_id = block_id;
  node_id = e.local_node;
  timestamp = env.now;
  ttl = ttl;
  message_delivery = none;
  delivery_ack = none;
  pool_id = none;
  cbl_index_entry = none;
  head_update = none;
  acl_block_id = none;
  pool_announcement = none;
  quorum_proposal = none;
  quorum_vote = none;
  write_proof = none;
}

unfoldable pub announce_block : Env → Engine → String → Option String → Engine
unfolding new_announcement queue_announcement
announce_block env e block_id pool_id =
    queue_announcement e
      (record (new_announcement env e AnnouncementType.add block_id e.config.default_ttl) {
        pool_id = pool_id;
      })

unfoldable pub announce_removal : Env → Engine → String → Option String → Engine
unfolding new_announcement queue_announcement
announce_removal env e block_id pool_id =
    queue_announcement e
      (record (new_announcement env e AnnouncementType.remove block_id e.config.default_ttl) {
        pool_id = pool_id;
      })

unfoldable pub announce_message : Env → Engine → MessageDeliveryMetadata → Engine
unfolding new_announcement queue_announcement
announce_message env e m =
    let ttl : ℤ =
      if str_eq m.priority "high"
      then e.config.message_priority.high.ttl
      else e.config.message_priority.normal.ttl in
    queue_announcement e (record (new_announcement env e AnnouncementType.add m.cbl_block_id ttl) {
      message_delivery = some m;
    })

unfoldable pub send_delivery_ack : Env → Engine → DeliveryAckMetadata → Engine
unfolding new_announcement queue_announcement
send_delivery_ack env e ack =
    queue_announcement e
      (record (new_announcement env e AnnouncementType.ack ack.message_id e.config.default_ttl) {
        delivery_ack = some ack;
      })

unfoldable pub announce_head_update :
    Env → Engine → String → String → String → Option WriteProof → Engine
unfolding new_announcement queue_announcement
announce_head_update env e db_name collection_name block_id proof =
    queue_announcement e
      (record (new_announcement env e AnnouncementType.head_update block_id e.config.default_ttl) {
        head_update = some (record { db_name = db_name; collection_name = collection_name });
        write_proof = proof;
      })

unfoldable pub announce_pool_removal : Env → Engine → String → Engine
unfolding new_announcement queue_announcement
announce_pool_removal env e pool_id =
    queue_announcement e
      (record (new_announcement env e AnnouncementType.pool_remove pool_id e.config.default_ttl) {
        pool_id = some pool_id;
      })

unfoldable pub announce_pool_deletion : Env → Engine → String → Engine
unfolding new_announcement queue_announcement
announce_pool_deletion env e pool_id =
    queue_announcement e
      (record (new_announcement env e AnnouncementType.pool_deleted pool_id e.config.default_ttl) {
        pool_id = some pool_id;
      })

unfoldable pub announce_bright_trust_proposal : Env → Engine → QuorumProposalMetadata → Engine
unfolding new_announcement queue_announcement
announce_bright_trust_proposal env e meta =
    queue_announcement e
      (record (new_announcement env e AnnouncementType.quorum_proposal meta.proposal_id
        e.config.message_priority.high.ttl) { quorum_proposal = some meta })

unfoldable pub announce_bright_trust_vote : Env → Engine → QuorumVoteMetadata → Engine
unfolding new_announcement queue_announcement
announce_bright_trust_vote env e meta =
    queue_announcement e
      (record (new_announcement env e AnnouncementType.quorum_vote meta.proposal_id
        e.config.message_priority.high.ttl) { quorum_vote = some meta })

unfoldable pub announce_cbl_index :
    Env → Engine → AnnouncementType → String → CblIndexEntry → Engine
unfolding new_announcement queue_announcement
announce_cbl_index env e type pool_id entry =
    queue_announcement e
      (record (new_announcement env e type entry.block_id1 e.config.default_ttl) {
        pool_id = some pool_id;
        cbl_index_entry = some entry;
      })

unfoldable pub announce_acl_update : Env → Engine → String → String → Engine
unfolding new_announcement queue_announcement
announce_acl_update env e pool_id acl_block_id =
    queue_announcement e
      (record (new_announcement env e AnnouncementType.acl_update acl_block_id
        e.config.default_ttl) { pool_id = some pool_id; acl_block_id = some acl_block_id })

unfoldable pub announce_cbl_index_update : Env → Engine → String → CblIndexEntry → Engine
unfolding announce_cbl_index
announce_cbl_index_update env e = announce_cbl_index env e AnnouncementType.cbl_index_update

unfoldable pub announce_cbl_index_delete : Env → Engine → String → CblIndexEntry → Engine
unfolding announce_cbl_index
announce_cbl_index_delete env e = announce_cbl_index env e AnnouncementType.cbl_index_delete
