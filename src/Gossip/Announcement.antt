-- ===== src/Gossip/Announcement.antt =====
-- include/brightchain/gossip/block_announcement.hpp and the validation of
-- src/gossip/block_announcement.cpp.
use Prim.Native.String.{len}
use bright_chain_cpp.Prelude.{
  ℕ, String, Bool, true, false, not, ◌&&◌, ◌||◌, Option, none, some, List, ltb, str_eq,
}
use bright_chain_cpp.Prelude.Int.{ℤ, pos, negsuc}

pub data AnnouncementType : Type 0 where
  add remove ack pool_deleted cbl_index_update cbl_index_delete head_update acl_update pool_announce
        pool_remove quorum_proposal quorum_vote :
      AnnouncementType

pub record MessageDeliveryMetadata : Type 0 where
  pub message_id : String
  pub recipient_ids : List String
  pub priority : String
  pub block_ids : List String
  pub cbl_block_id : String
  pub ack_required : Bool
  pub gateway_outbound : Bool

pub record DeliveryAckMetadata : Type 0 where
  pub message_id : String
  pub recipient_id : String
  pub status : String
  pub original_sender_node : String

pub record HeadUpdateMetadata : Type 0 where
  pub db_name : String
  pub collection_name : String

pub record PoolAnnouncementMetadata : Type 0 where
  pub block_count : ℤ
  pub total_size : ℤ
  pub encrypted : Bool
  pub encrypted_metadata : Option String

pub record QuorumProposalMetadata : Type 0 where
  pub proposal_id : String
  pub description : String
  pub action_type : String
  pub action_payload : String
  pub proposer_member_id : String
  pub expires_at : String
  pub required_threshold : ℤ
  pub attachment_cbl_id : Option String

pub record QuorumVoteMetadata : Type 0 where
  pub proposal_id : String
  pub voter_member_id : String
  pub decision : String
  pub comment : Option String
  pub encrypted_share : Option (List ℕ)

pub record WriteProof : Type 0 where
  pub signer_public_key : String
  pub signature : String
  pub db_name : String
  pub collection_name : String
  pub block_id : String

pub record CblIndexEntry : Type 0 where
  pub magnet_url : String
  pub block_id1 : String
  pub block_id2 : String

pub record BlockAnnouncement : Type 0 where
  pub type : AnnouncementType
  pub block_id : String
  pub node_id : String
  pub timestamp : String
  pub ttl : ℤ
  pub message_delivery : Option MessageDeliveryMetadata
  pub delivery_ack : Option DeliveryAckMetadata
  pub pool_id : Option String
  pub cbl_index_entry : Option CblIndexEntry
  pub head_update : Option HeadUpdateMetadata
  pub acl_block_id : Option String
  pub pool_announcement : Option PoolAnnouncementMetadata
  pub quorum_proposal : Option QuorumProposalMetadata
  pub quorum_vote : Option QuorumVoteMetadata
  pub write_proof : Option WriteProof

abbrev pub has_value {ℓ} : {A : Type ℓ} → Option A → Bool
has_value none = false
has_value (some a) = true

-- `s.empty()`
abbrev pub is_empty : String → Bool
is_empty s = str_eq s ""

-- `!s.has_value() || s->empty()`
abbrev pub lacks : Option String → Bool
lacks none = true
lacks (some s) = is_empty s

-- `n >= 1` and `n > 0` for an `int`
abbrev pub is_positive : ℤ → Bool
is_positive (pos n) = ltb 0 n
is_positive (negsuc n) = false

unfoldable pub validate_cbl_index : Option CblIndexEntry → Bool
validate_cbl_index none = false
validate_cbl_index (some e) =
    not (is_empty e.magnet_url) && (not (is_empty e.block_id1) && not (is_empty e.block_id2))

unfoldable pub validate_head_update : Option HeadUpdateMetadata → Bool
validate_head_update none = false
validate_head_update (some h) = not (is_empty h.db_name) && not (is_empty h.collection_name)

-- `len` is the number of bytes in UTF-8, as `size()` is.
unfoldable pub validate_quorum_proposal : Option QuorumProposalMetadata → Bool
validate_quorum_proposal none = false
validate_quorum_proposal (some q) =
    not (is_empty q.proposal_id)
    && (not (ltb 4096 (len q.description))
        && (not (is_empty q.proposer_member_id) && is_positive q.required_threshold))

abbrev pub comment_fits : Option String → Bool
comment_fits none = true
comment_fits (some c) = not (ltb 1024 (len c))

unfoldable pub validate_quorum_vote : Option QuorumVoteMetadata → Bool
validate_quorum_vote none = false
validate_quorum_vote (some q) =
    not (is_empty q.proposal_id)
    && (not (is_empty q.voter_member_id)
        && ((str_eq q.decision "approve" || str_eq q.decision "reject") && comment_fits q.comment))

abbrev pub is_add : AnnouncementType → Bool
is_add add = true
is_add _ = false

abbrev pub is_ack : AnnouncementType → Bool
is_ack ack = true
is_ack _ = false

-- The `switch` of `validate`.
unfoldable pub validate_type : AnnouncementType → BlockAnnouncement → Bool
unfolding validate_cbl_index validate_head_update validate_quorum_proposal validate_quorum_vote
validate_type add a = true
validate_type remove a = true
validate_type ack a = has_value a.delivery_ack
validate_type pool_deleted a =
    not (lacks a.pool_id) && not (has_value a.message_delivery || has_value a.delivery_ack)
validate_type cbl_index_update a = not (lacks a.pool_id) && validate_cbl_index a.cbl_index_entry
validate_type cbl_index_delete a = not (lacks a.pool_id) && validate_cbl_index a.cbl_index_entry
validate_type head_update a = not (is_empty a.block_id) && validate_head_update a.head_update
validate_type acl_update a = not (lacks a.pool_id) && not (lacks a.acl_block_id)
validate_type pool_announce a = not (lacks a.pool_id) && has_value a.pool_announcement
validate_type pool_remove a = not (lacks a.pool_id)
validate_type quorum_proposal a = validate_quorum_proposal a.quorum_proposal
validate_type quorum_vote a = validate_quorum_vote a.quorum_vote

unfoldable pub validate : BlockAnnouncement → Bool
unfolding validate_type
validate a =
    not (has_value a.message_delivery && not (is_add a.type))
    && (not (has_value a.delivery_ack && not (is_ack a.type)) && validate_type a.type a)
