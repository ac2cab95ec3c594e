-- ===== src/Gossip/Wire/Metadata.antt =====
-- The JSON form of the parts of announcements, of src/gossip/block_announcement.cpp.
use mathlib.Core.Option
use bright_chain_cpp.Prelude.{
  ℕ, ◌-◌, ◌%◌, String, Bool, false, Option, none, some, List, [], ◌∷◌, map, if◌then◌else◌,
}
use bright_chain_cpp.Prelude.Int.{ℤ, pos, negsuc}
use bright_chain_cpp.Prelude.Map.{put}
use bright_chain_cpp.Json.{JsonLibrary}
use bright_chain_cpp.Json.Fields.{◌>>=◌, put_optional, field, optional_field}
use bright_chain_cpp.Gossip.Announcement.{
  MessageDeliveryMetadata, DeliveryAckMetadata, HeadUpdateMetadata, PoolAnnouncementMetadata,
  QuorumProposalMetadata, QuorumVoteMetadata, WriteProof, CblIndexEntry,
}

-- `static_cast<uint8_t>` of an `int`
abbrev pub to_byte : ℤ → ℕ
to_byte (pos n) = n % 256
to_byte (negsuc n) = 255 - n % 256

module _ (lib : JsonLibrary) where
  open lib use {
    Json, text, boolean, integer, array, object, get_text, get_bool, get_int, get_int64, get_array,
    items,
  }

  -- Every element, converted; none where one fails.
  unfoldable pub read_all {ℓ} : {A : Type ℓ} → (Json → Option A) → List Json → Option (List A)
  read_all read [] = some []
  read_all read (x ∷ xs) = read x >>= λ a. read_all read xs >>= λ rest. some (a ∷ rest)

  -- `std::vector<std::string>` to JSON and back; `get` fails where the value is no array.
  abbrev pub texts : List String → Json
  texts xs = array (map text xs)

  abbrev pub get_texts : Json → Option (List String)
  unfolding read_all
  get_texts j = get_array j >>= read_all get_text

  unfoldable pub message_delivery_to_json : MessageDeliveryMetadata → Json
  unfolding put put_optional
  message_delivery_to_json m =
      let fields = put "ackRequired" (boolean m.ack_required) (
        put "cblBlockId" (text m.cbl_block_id) (
          put "blockIds" (texts m.block_ids) (
            put "priority" (text m.priority) (
              put "recipientIds" (texts m.recipient_ids)
                (put "messageId" (text m.message_id) []))))) in
      object (
        if m.gateway_outbound
        then put "gatewayOutbound" (boolean m.gateway_outbound) fields
        else fields)

  -- `gatewayOutbound` is false where it is missing.
  abbrev pub or_false : Option Bool → Bool
  or_false none = false
  or_false (some b) = b

  unfoldable pub message_delivery_from_json : Json → Option MessageDeliveryMetadata
  unfolding field optional_field read_all
  message_delivery_from_json j = do
    message_id ← field lib get_text "messageId" j
    recipient_ids ← field lib get_texts "recipientIds" j
    priority ← field lib get_text "priority" j
    block_ids ← field lib get_texts "blockIds" j
    cbl_block_id ← field lib get_text "cblBlockId" j
    ack_required ← field lib get_bool "ackRequired" j
    gateway_outbound ← optional_field lib get_bool "gatewayOutbound" j
    some (record {
      message_id = message_id;
      recipient_ids = recipient_ids;
      priority = priority;
      block_ids = block_ids;
      cbl_block_id = cbl_block_id;
      ack_required = ack_required;
      gateway_outbound = or_false gateway_outbound;
    })

  unfoldable pub delivery_ack_to_json : DeliveryAckMetadata → Json
  delivery_ack_to_json m = object (
      ("messageId", text m.message_id)
      ∷ ("recipientId", text m.recipient_id)
      ∷ ("status", text m.status)
      ∷ ("originalSenderNode", text m.original_sender_node)
      ∷ [])

  unfoldable pub delivery_ack_from_json : Json → Option DeliveryAckMetadata
  unfolding field
  delivery_ack_from_json j = do
    message_id ← field lib get_text "messageId" j
    recipient_id ← field lib get_text "recipientId" j
    status ← field lib get_text "status" j
    original_sender_node ← field lib get_text "originalSenderNode" j
    some (record {
      message_id = message_id;
      recipient_id = recipient_id;
      status = status;
      original_sender_node = original_sender_node;
    })

  unfoldable pub head_update_to_json : HeadUpdateMetadata → Json
  head_update_to_json m =
      object (("dbName", text m.db_name) ∷ ("collectionName", text m.collection_name) ∷ [])

  unfoldable pub head_update_from_json : Json → Option HeadUpdateMetadata
  unfolding field
  head_update_from_json j = do
    db_name ← field lib get_text "dbName" j
    collection_name ← field lib get_text "collectionName" j
    some (record { db_name = db_name; collection_name = collection_name })

  unfoldable pub pool_announcement_to_json : PoolAnnouncementMetadata → Json
  unfolding put put_optional
  pool_announcement_to_json m = object (
      put_optional "encryptedMetadata" (Option.map text m.encrypted_metadata) (
        put "encrypted" (boolean m.encrypted)
          (put "totalSize" (integer m.total_size) (put "blockCount" (integer m.block_count) []))))

  unfoldable pub pool_announcement_from_json : Json → Option PoolAnnouncementMetadata
  unfolding field optional_field read_all
  pool_announcement_from_json j = do
    block_count ← field lib get_int64 "blockCount" j
    total_size ← field lib get_int64 "totalSize" j
    encrypted ← field lib get_bool "encrypted" j
    encrypted_metadata ← optional_field lib get_text "encryptedMetadata" j
    some (record {
      block_count = block_count;
      total_size = total_size;
      encrypted = encrypted;
      encrypted_metadata = encrypted_metadata;
    })

  unfoldable pub quorum_proposal_to_json : QuorumProposalMetadata → Json
  unfolding put put_optional
  quorum_proposal_to_json m = object (
      put_optional "attachmentCblId" (Option.map text m.attachment_cbl_id) (
        put "requiredThreshold" (integer m.required_threshold) (
          put "expiresAt" (text m.expires_at) (
            put "proposerMemberId" (text m.proposer_member_id) (
              put "actionPayload" (text m.action_payload) (
                put "actionType" (text m.action_type) (
                  put "description" (text m.description)
                    (put "proposalId" (text m.proposal_id) []))))))))

  unfoldable pub quorum_proposal_from_json : Json → Option QuorumProposalMetadata
  unfolding field optional_field read_all
  quorum_proposal_from_json j = do
    proposal_id ← field lib get_text "proposalId" j
    description ← field lib get_text "description" j
    action_type ← field lib get_text "actionType" j
    action_payload ← field lib get_text "actionPayload" j
    proposer_member_id ← field lib get_text "proposerMemberId" j
    expires_at ← field lib get_text "expiresAt" j
    required_threshold ← field lib get_int "requiredThreshold" j
    attachment_cbl_id ← optional_field lib get_text "attachmentCblId" j
    some (record {
      proposal_id = proposal_id;
      description = description;
      action_type = action_type;
      action_payload = action_payload;
      proposer_member_id = proposer_member_id;
      expires_at = expires_at;
      required_threshold = required_threshold;
      attachment_cbl_id = attachment_cbl_id;
    })

  abbrev pub byte_to_json : ℕ → Json
  byte_to_json b = integer (pos b)

  abbrev pub share_to_json : List ℕ → Json
  share_to_json bytes = array (map byte_to_json bytes)

  abbrev pub get_byte : Json → Option ℕ
  get_byte j = get_int j >>= λ z. some (to_byte z)

  abbrev pub share_from_json : Json → Option (List ℕ)
  unfolding read_all
  share_from_json j = read_all get_byte (items j)

  unfoldable pub quorum_vote_to_json : QuorumVoteMetadata → Json
  unfolding put put_optional
  quorum_vote_to_json m = object (
      put_optional "encryptedShare" (Option.map share_to_json m.encrypted_share) (
        put_optional "comment" (Option.map text m.comment) (
          put "decision" (text m.decision) (
            put "voterMemberId" (text m.voter_member_id)
              (put "proposalId" (text m.proposal_id) [])))))

  unfoldable pub quorum_vote_from_json : Json → Option QuorumVoteMetadata
  unfolding field optional_field read_all
  quorum_vote_from_json j = do
    proposal_id ← field lib get_text "proposalId" j
    voter_member_id ← field lib get_text "voterMemberId" j
    decision ← field lib get_text "decision" j
    comment ← optional_field lib get_text "comment" j
    encrypted_share ← optional_field lib share_from_json "encryptedShare" j
    some (record {
      proposal_id = proposal_id;
      voter_member_id = voter_member_id;
      decision = decision;
      comment = comment;
      encrypted_share = encrypted_share;
    })

  unfoldable pub write_proof_to_json : WriteProof → Json
  write_proof_to_json m = object (
      ("signerPublicKey", text m.signer_public_key)
      ∷ ("signature", text m.signature)
      ∷ ("dbName", text m.db_name)
      ∷ ("collectionName", text m.collection_name)
      ∷ ("blockId", text m.block_id)
      ∷ [])

  unfoldable pub write_proof_from_json : Json → Option WriteProof
  unfolding field
  write_proof_from_json j = do
    signer_public_key ← field lib get_text "signerPublicKey" j
    signature ← field lib get_text "signature" j
    db_name ← field lib get_text "dbName" j
    collection_name ← field lib get_text "collectionName" j
    block_id ← field lib get_text "blockId" j
    some (record {
      signer_public_key = signer_public_key;
      signature = signature;
      db_name = db_name;
      collection_name = collection_name;
      block_id = block_id;
    })

  unfoldable pub cbl_index_entry_to_json : CblIndexEntry → Json
  cbl_index_entry_to_json m = object (
      ("magnetUrl", text m.magnet_url)
      ∷ ("blockId1", text m.block_id1)
      ∷ ("blockId2", text m.block_id2)
      ∷ [])

  unfoldable pub cbl_index_entry_from_json : Json → Option CblIndexEntry
  unfolding field
  cbl_index_entry_from_json j = do
    magnet_url ← field lib get_text "magnetUrl" j
    block_id1 ← field lib get_text "blockId1" j
    block_id2 ← field lib get_text "blockId2" j
    some (record { magnet_url = magnet_url; block_id1 = block_id1; block_id2 = block_id2 })
