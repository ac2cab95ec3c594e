-- ===== src/Gossip/Wire/Tests.antt =====
-- Instances of the theorem on the JSON form of announcements.
use bright_chain_cpp.Prelude.{◌≡◌, true, none, some, [], ◌∷◌, arith}
use bright_chain_cpp.Prelude.Int.{pos, negsuc}
use bright_chain_cpp.Json.Example.{values}
use bright_chain_cpp.Gossip.Announcement.{head_update, BlockAnnouncement}
use bright_chain_cpp.Gossip.Wire.{announcement_to_json, announcement_from_json}
use bright_chain_cpp.Gossip.Wire.RoundTrip.{announcement_from_json-announcement_to_json}

-- An announcement of a head update that carries a pool announcement and a vote with a share as well.
abbrev update : BlockAnnouncement
update = record {
  type = head_update;
  block_id = "b1";
  node_id = "n1";
  timestamp = "2024-01-01T00:00:00Z";
  ttl = pos 3;
  message_delivery = none;
  delivery_ack = none;
  pool_id = some "p1";
  cbl_index_entry = none;
  head_update = some (record { db_name = "db"; collection_name = "users" });
  acl_block_id = none;
  pool_announcement = some (record {
    block_count = pos 7;
    total_size = negsuc 0;
    encrypted = true;
    encrypted_metadata = some "m";
  });
  quorum_proposal = none;
  quorum_vote = some (record {
    proposal_id = "q1";
    voter_member_id = "v1";
    decision = "approve";
    comment = none;
    encrypted_share = some (0 ∷ 255 ∷ []);
  });
  write_proof = none;
}

announcement_from_json-announcement_to_json_example :
    announcement_from_json values (announcement_to_json values update) ≡ some update
announcement_from_json-announcement_to_json_example =
    announcement_from_json-announcement_to_json values update
      (omega arith, (omega arith, omega arith), tt, (omega arith, (omega arith, tt)))
