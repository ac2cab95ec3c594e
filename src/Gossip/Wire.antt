-- ===== src/Gossip/Wire.antt =====
-- The JSON form of announcements: `toJson`, `fromJson` and the names of the types, of
-- src/gossip/block_announcement.cpp. An exception is `none`.
pub mod Types
pub mod Metadata
pub mod RoundTrip
mod Tests
use mathlib.Core.Option
use bright_chain_cpp.Prelude.{
  ℕ, ◌+◌, ◌-◌, ◌%◌, String, Bool, true, false, Option, none, some, List, [], ◌∷◌, map, str_eq,
  if◌then◌else◌,
}
use bright_chain_cpp.Prelude.Int.{ℤ, pos, negsuc}
use bright_chain_cpp.Prelude.Map.{Map, put}
use bright_chain_cpp.Json.{JsonLibrary}
use bright_chain_cpp.Json.Fields.{◌>>=◌, put_optional, field, optional_field}
use bright_chain_cpp.Gossip.Announcement.{
  AnnouncementType, add, remove, ack, pool_deleted, cbl_index_update, cbl_index_delete, head_update,
  acl_update, pool_announce, pool_remove, quorum_proposal, quorum_vote, MessageDeliveryMetadata,
  DeliveryAckMetadata, HeadUpdateMetadata, PoolAnnouncementMetadata, QuorumProposalMetadata,
  QuorumVoteMetadata, WriteProof, CblIndexEntry, BlockAnnouncement,
}
use bright_chain_cpp.Gossip.Wire.Types.{type_mappings, type_to_string, find_type, type_from_string}
use bright_chain_cpp.Gossip.Wire.Metadata.{
  to_byte, read_all, texts, get_texts, message_delivery_to_json, or_false,
  message_delivery_from_json, delivery_ack_to_json, delivery_ack_from_json, head_update_to_json,
  head_update_from_json, pool_announcement_to_json, pool_announcement_from_json,
  quorum_proposal_to_json, quorum_proposal_from_json, byte_to_json, share_to_json, get_byte,
  share_from_json, quorum_vote_to_json, quorum_vote_from_json, write_proof_to_json,
  write_proof_from_json, cbl_index_entry_to_json, cbl_index_entry_from_json,
}

module _ (lib : JsonLibrary) where
  open lib use {
    Json, text, boolean, integer, array, object, get_text, get_bool, get_int, get_int64, get_array,
    items,
  }

  abbrev pub get_type : Json → Option AnnouncementType
  unfolding type_from_string
  get_type j = get_text j >>= type_from_string

  abbrev pub type_to_json : AnnouncementType → Json
  unfolding type_to_string
  type_to_json t = text (type_to_string t)

  unfoldable pub announcement_to_json : BlockAnnouncement → Json
  unfolding put put_optional
  announcement_to_json m = object (
      put_optional "writeProof" (Option.map (write_proof_to_json lib) m.write_proof) (
        put_optional "quorumVote" (Option.map (quorum_vote_to_json lib) m.quorum_vote) (
          put_optional "quorumProposal" (Option.map (quorum_proposal_to_json lib) m.quorum_proposal)
            (put_optional "poolAnnouncement"
              (Option.map (pool_announcement_to_json lib) m.pool_announcement)
              (put_optional "aclBlockId" (Option.map text m.acl_block_id) (
                put_optional "headUpdate" (Option.map (head_update_to_json lib) m.head_update) (
                  put_optional "cblIndexEntry"
                    (Option.map (cbl_index_entry_to_json lib) m.cbl_index_entry)
                    (put_optional "poolId" (Option.map text m.pool_id) (
                      put_optional "deliveryAck"
                        (Option.map (delivery_ack_to_json lib) m.delivery_ack)
                        (put_optional "messageDelivery"
                          (Option.map (message_delivery_to_json lib) m.message_delivery)
                          (put "ttl" (integer m.ttl) (
                            put "timestamp" (text m.timestamp) (
                              put "nodeId" (text m.node_id) (
                                put "blockId" (text m.block_id)
                                  (put "type" (type_to_json m.type) [])))))))))))))))

  unfoldable pub announcement_from_json : Json → Option BlockAnnouncement
  unfolding field optional_field read_all
  announcement_from_json j = do
    type ← field lib get_type "type" j
    block_id ← field lib get_text "blockId" j
    node_id ← field lib get_text "nodeId" j
    timestamp ← field lib get_text "timestamp" j
    ttl ← field lib get_int "ttl" j
    message_delivery ← optional_field lib (message_delivery_from_json lib) "messageDelivery" j
    delivery_ack ← optional_field lib (delivery_ack_from_json lib) "deliveryAck" j
    pool_id ← optional_field lib get_text "poolId" j
    cbl_index_entry ← optional_field lib (cbl_index_entry_from_json lib) "cblIndexEntry" j
    head ← optional_field lib (head_update_from_json lib) "headUpdate" j
    acl_block_id ← optional_field lib get_text "aclBlockId" j
    pool_announcement ← optional_field lib (pool_announcement_from_json lib) "poolAnnouncement" j
    proposal ← optional_field lib (quorum_proposal_from_json lib) "quorumProposal" j
    cast ← optional_field lib (quorum_vote_from_json lib) "quorumVote" j
    write_proof ← optional_field lib (write_proof_from_json lib) "writeProof" j
    some (record {
      type = type;
      block_id = block_id;
      node_id = node_id;
      timestamp = timestamp;
      ttl = ttl;
      message_delivery = message_delivery;
      delivery_ack = delivery_ack;
      pool_id = pool_id;
      cbl_index_entry = cbl_index_entry;
      head_update = head;
      acl_block_id = acl_block_id;
      pool_announcement = pool_announcement;
      quorum_proposal = proposal;
      quorum_vote = cast;
      write_proof = write_proof;
    })
