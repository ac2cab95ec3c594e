-- ===== src/Gossip/Wire/Types.antt =====
-- The names of the types of announcements, of src/gossip/block_announcement.cpp.
use bright_chain_cpp.Prelude.{String, Option, none, some, List, [], ◌∷◌, str_eq, if◌then◌else◌}
use bright_chain_cpp.Gossip.Announcement.{
  AnnouncementType, add, remove, ack, pool_deleted, cbl_index_update, cbl_index_delete, head_update,
  acl_update, pool_announce, pool_remove, quorum_proposal, quorum_vote,
}

abbrev pub type_mappings : List (AnnouncementType × String)
type_mappings =
    (add, "add")
    ∷ (remove, "remove")
    ∷ (ack, "ack")
    ∷ (pool_deleted, "pool_deleted")
    ∷ (cbl_index_update, "cbl_index_update")
    ∷ (cbl_index_delete, "cbl_index_delete")
    ∷ (head_update, "head_update")
    ∷ (acl_update, "acl_update")
    ∷ (pool_announce, "pool_announce")
    ∷ (pool_remove, "pool_remove")
    ∷ (quorum_proposal, "quorum_proposal")
    ∷ (quorum_vote, "quorum_vote")
    ∷ []

-- `announcementTypeToString`: every type has an entry.
unfoldable pub type_to_string : AnnouncementType → String
type_to_string add = "add"
type_to_string remove = "remove"
type_to_string ack = "ack"
type_to_string pool_deleted = "pool_deleted"
type_to_string cbl_index_update = "cbl_index_update"
type_to_string cbl_index_delete = "cbl_index_delete"
type_to_string head_update = "head_update"
type_to_string acl_update = "acl_update"
type_to_string pool_announce = "pool_announce"
type_to_string pool_remove = "pool_remove"
type_to_string quorum_proposal = "quorum_proposal"
type_to_string quorum_vote = "quorum_vote"

abbrev pub find_type : String → List (AnnouncementType × String) → Option AnnouncementType
find_type s [] = none
find_type s ((t, name) ∷ ms) = if str_eq s name then some t else find_type s ms

-- `announcementTypeFromString`
unfoldable pub type_from_string : String → Option AnnouncementType
type_from_string s = find_type s type_mappings
