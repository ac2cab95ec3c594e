-- ===== src/Gossip/Wire/RoundTrip.antt =====
-- Announcements are read back from their JSON form (src/gossip/block_announcement.cpp).
use mathlib.Core.Option
use native.Mathlib.Nat.{mod-eq_of_lt}
use bright_chain_cpp.Prelude.{
  ℕ, ◌<◌, ◌≡◌, refl, ap, String, Bool, Option, none, some, List, [], ◌∷◌, map, arith, sym, subst,
  Bool-cases, inl, inr,
}
use bright_chain_cpp.Prelude.Map.{find, find-put}
use bright_chain_cpp.Prelude.Int.{pos}
use bright_chain_cpp.Json.{JsonLibrary, FitsInt}
use bright_chain_cpp.Json.Fields.{read_present, read_present-map, find-put_optional, or_else-none}
use bright_chain_cpp.Gossip.Announcement.{
  AnnouncementType, add, remove, ack, pool_deleted, cbl_index_update, cbl_index_delete, head_update,
  acl_update, pool_announce, pool_remove, quorum_proposal, quorum_vote, MessageDeliveryMetadata,
  DeliveryAckMetadata, HeadUpdateMetadata, PoolAnnouncementMetadata, QuorumProposalMetadata,
  QuorumVoteMetadata, WriteProof, CblIndexEntry, BlockAnnouncement,
}
use bright_chain_cpp.Gossip.Wire.{
  announcement_to_json, announcement_from_json, get_type, type_to_json,
}
use bright_chain_cpp.Gossip.Wire.Metadata.{
  delivery_ack_to_json, delivery_ack_from_json, head_update_to_json, head_update_from_json,
  write_proof_to_json, write_proof_from_json, cbl_index_entry_to_json, cbl_index_entry_from_json,
  message_delivery_to_json, message_delivery_from_json, pool_announcement_to_json,
  pool_announcement_from_json, quorum_proposal_to_json, quorum_proposal_from_json,
  quorum_vote_to_json, quorum_vote_from_json, read_all, get_byte, byte_to_json, share_to_json,
  share_from_json,
}
use bright_chain_cpp.Gossip.Wire.Types.{type_to_string, type_from_string}

-- What the C++ types hold: integers of their width, and bytes.
abbrev AllBytes : List ℕ → Type 0
AllBytes [] = Unit
AllBytes (b ∷ bs) = (b < 256) × AllBytes bs

abbrev ShareFits : Option (List ℕ) → Type 0
ShareFits none = Unit
ShareFits (some bytes) = AllBytes bytes

abbrev PoolFits : Option PoolAnnouncementMetadata → Type 0
PoolFits none = Unit
PoolFits (some m) = FitsInt 63 m.block_count × FitsInt 63 m.total_size

abbrev ProposalFits : Option QuorumProposalMetadata → Type 0
ProposalFits none = Unit
ProposalFits (some m) = FitsInt 31 m.required_threshold

abbrev VoteFits : Option QuorumVoteMetadata → Type 0
VoteFits none = Unit
VoteFits (some m) = ShareFits m.encrypted_share

abbrev pub IsTyped : BlockAnnouncement → Type 0
IsTyped a =
    FitsInt 31 a.ttl
    × PoolFits a.pool_announcement
    × ProposalFits a.quorum_proposal
    × VoteFits a.quorum_vote

-- The name of each type is read back as that type.
pub type_from_string-type_to_string :
    (t : AnnouncementType) → type_from_string (type_to_string t) ≡ some t
unfolding type_from_string type_to_string
type_from_string-type_to_string add = refl
type_from_string-type_to_string remove = refl
type_from_string-type_to_string ack = refl
type_from_string-type_to_string pool_deleted = refl
type_from_string-type_to_string cbl_index_update = refl
type_from_string-type_to_string cbl_index_delete = refl
type_from_string-type_to_string head_update = refl
type_from_string-type_to_string acl_update = refl
type_from_string-type_to_string pool_announce = refl
type_from_string-type_to_string pool_remove = refl
type_from_string-type_to_string quorum_proposal = refl
type_from_string-type_to_string quorum_vote = refl

ruleset put_laws = (find-put, find-put_optional, or_else-none)

module _ (lib : JsonLibrary) where
  open lib use {
    Json, text, array, at-object, get_text, get_text-text, get_bool-boolean, get_int-integer,
    get_int64-integer, get_array-array, items-array,
  }

  read_all-texts : (xs : List String) → read_all lib get_text (map text xs) ≡ some xs
  unfolding read_all
  read_all-texts [] = refl
  read_all-texts (x ∷ xs) = simp (get_text-text, read_all-texts xs) refl

  read_all-bytes :
      (bs : List ℕ)
      → AllBytes bs
      → read_all lib (get_byte lib) (map (byte_to_json lib) bs) ≡ some bs
  unfolding read_all
  read_all-bytes [] h = refl
  read_all-bytes (b ∷ bs) (h, hs) =
      simp (get_int-integer (pos b) (omega (arith, h)), mod-eq_of_lt h, read_all-bytes bs hs) refl

  optional-text : (o : Option String) → read_present lib get_text (Option.map text o) ≡ some o
  optional-text o = read_present-map lib get_text text o (λ s _. get_text-text s)

  type-read : (t : AnnouncementType) → get_type lib (type_to_json lib t) ≡ some t
  unfolding get_type type_to_json type_from_string type_to_string
  type-read t = rw (get_text-text (type_to_string t)) (type_from_string-type_to_string t)

  delivery_ack-read :
      (m : DeliveryAckMetadata) → delivery_ack_from_json lib (delivery_ack_to_json lib m) ≡ some m
  unfolding delivery_ack_from_json delivery_ack_to_json find
  delivery_ack-read m = simp (at-object, get_text-text) refl

  head_update-read :
      (m : HeadUpdateMetadata) → head_update_from_json lib (head_update_to_json lib m) ≡ some m
  unfolding head_update_from_json head_update_to_json find
  head_update-read m = simp (at-object, get_text-text) refl

  write_proof-read :
      (m : WriteProof) → write_proof_from_json lib (write_proof_to_json lib m) ≡ some m
  unfolding write_proof_from_json write_proof_to_json find
  write_proof-read m = simp (at-object, get_text-text) refl

  cbl_index_entry-read :
      (m : CblIndexEntry) → cbl_index_entry_from_json lib (cbl_index_entry_to_json lib m) ≡ some m
  unfolding cbl_index_entry_from_json cbl_index_entry_to_json find
  cbl_index_entry-read m = simp (at-object, get_text-text) refl

  pool_announcement-read :
      (m : PoolAnnouncementMetadata)
      → PoolFits (some m)
      → pool_announcement_from_json lib (pool_announcement_to_json lib m) ≡ some m
  unfolding pool_announcement_from_json pool_announcement_to_json find
  pool_announcement-read m (count, size) =
      simp
        (
          at-object,
          get_text-text,
          get_bool-boolean,
          put_laws,
          optional-text,
          get_int64-integer m.block_count count,
          get_int64-integer m.total_size size,
        )
        refl

  quorum_proposal-read :
      (m : QuorumProposalMetadata)
      → ProposalFits (some m)
      → quorum_proposal_from_json lib (quorum_proposal_to_json lib m) ≡ some m
  unfolding quorum_proposal_from_json quorum_proposal_to_json find
  quorum_proposal-read m fits =
      simp
        (
          at-object,
          get_text-text,
          get_bool-boolean,
          put_laws,
          optional-text,
          get_int-integer m.required_threshold fits,
        )
        refl

  quorum_vote-read :
      (m : QuorumVoteMetadata)
      → VoteFits (some m)
      → quorum_vote_from_json lib (quorum_vote_to_json lib m) ≡ some m
  unfolding quorum_vote_from_json quorum_vote_to_json find
  quorum_vote-read m fits =
      let share : read_present lib (share_from_json lib)
            (Option.map (share_to_json lib) m.encrypted_share)
          ≡ some m.encrypted_share =
        read_present-map lib (share_from_json lib) (share_to_json lib) m.encrypted_share λ bytes e.
          rw (items-array (map (byte_to_json lib) bytes))
            (read_all-bytes bytes (subst ShareFits e fits)) in
      simp (at-object, get_text-text, get_bool-boolean, put_laws, optional-text, share) refl

  message_delivery-read :
      (m : MessageDeliveryMetadata)
      → message_delivery_from_json lib (message_delivery_to_json lib m) ≡ some m
  unfolding message_delivery_from_json message_delivery_to_json find
  message_delivery-read m =
      let with_flag : Bool → Option MessageDeliveryMetadata =
        λ b. some (record m { gateway_outbound = b }) in
      elim (Bool-cases m.gateway_outbound) [
        | inl set ↦
            simp (at-object, get_text-text, get_bool-boolean, set, get_array-array, read_all-texts)
              (ap with_flag (sym set))
        | inr unset ↦
            simp
              (at-object, get_text-text, get_bool-boolean, unset, get_array-array, read_all-texts)
              (ap with_flag (sym unset))
      ]

  -- Announcements whose integers and bytes are in the range of their C++ types are read back from
  -- their JSON form.
  pub announcement_from_json-announcement_to_json :
      (a : BlockAnnouncement)
      → IsTyped a
      → announcement_from_json lib (announcement_to_json lib a) ≡ some a
  unfolding announcement_from_json announcement_to_json find
  announcement_from_json-announcement_to_json a (ttl, pool, proposal, vote) =
      let message =
        read_present-map lib (message_delivery_from_json lib) (message_delivery_to_json lib)
          a.message_delivery (λ m _. message_delivery-read m) in
      let acked =
        read_present-map lib (delivery_ack_from_json lib) (delivery_ack_to_json lib) a.delivery_ack
          (λ m _. delivery_ack-read m) in
      let entry =
        read_present-map lib (cbl_index_entry_from_json lib) (cbl_index_entry_to_json lib)
          a.cbl_index_entry (λ m _. cbl_index_entry-read m) in
      let head =
        read_present-map lib (head_update_from_json lib) (head_update_to_json lib) a.head_update
          (λ m _. head_update-read m) in
      let announced =
        read_present-map lib (pool_announcement_from_json lib) (pool_announcement_to_json lib)
          a.pool_announcement (λ m e. pool_announcement-read m (subst PoolFits e pool)) in
      let proposed =
        read_present-map lib (quorum_proposal_from_json lib) (quorum_proposal_to_json lib)
          a.quorum_proposal (λ m e. quorum_proposal-read m (subst ProposalFits e proposal)) in
      let voted =
        read_present-map lib (quorum_vote_from_json lib) (quorum_vote_to_json lib) a.quorum_vote
          (λ m e. quorum_vote-read m (subst VoteFits e vote)) in
      let proved =
        read_present-map lib (write_proof_from_json lib) (write_proof_to_json lib) a.write_proof
          (λ m _. write_proof-read m) in
      simp
        (
          at-object,
          get_text-text,
          put_laws,
          optional-text,
          type-read,
          get_int-integer a.ttl ttl,
          message,
          acked,
          entry,
          head,
          announced,
          proposed,
          voted,
          proved,
        )
        refl
