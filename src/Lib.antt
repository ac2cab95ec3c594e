-- ===== src/Lib.antt =====
-- BrightChain in C++: the gossip protocol between the nodes of the network, the document database, and
-- the encrypted polls.
--
-- The gossip protocol (Gossip, for src/gossip and include/brightchain/gossip). A node announces
-- blocks, messages, votes and head updates to a few peers at a time, which pass them on.
--   Gossip/Announcement: the announcements and `BlockAnnouncement::validate` (block_announcement).
--   Gossip/Wire: the JSON form of announcements (block_announcement), with the names of their types in
--     Wire/Types and their parts in Wire/Metadata; Wire/RoundTrip has the theorem.
--   Gossip/Config: `GossipConfig` and its validation (gossip_config).
--   Gossip/Peers: the sessions, the pool cache, the messages sent and the reconnection delay of
--     `PeerManager` (peer_manager); Gossip/Peers/Reconnect has the theorem on the delay.
--   Gossip/Engine, Announce, Hex, Handle, Flush: `GossipEngine` (gossip_engine). Engine has its state,
--     the choice of peers and the sends; Announce the `announce...` calls; Handle `handleAnnouncement`,
--     which calls handlers, writes to the head registry (src/head_registry.cpp) and forwards; Flush
--     `batchFlush`. Gossip/Select, Sending, Handle/* and Flush/Deliveries have the theorems.
--   Gossip/Bloom: `BloomFilter` (bloom_filter); Gossip/Bloom/Members has the theorem.
--   Gossip/Retry: `RetryService` (retry_service), which tracks the delivery of messages; the theorems
--     are in Gossip/Retry/*.
--
-- The document database (Database). A collection keeps each document in a block of its own, named by
-- its hash, and the map from ids to hashes in a metadata block that an entry of the head registry
-- names; a write loads the metadata again under a lock, changes it and sets the head.
--   Database/Query: `QueryEngine` (src/query_engine.cpp), with `compareValues` in Query/Compare.
--   Database/Update: `UpdateEngine` (src/update_engine.cpp). Query/Totality and Update/Frame have their
--     theorems.
--   Database/Store: `Checksum`, `DiskBlockStore`, `HeadRegistry` and `StoreLock` (src/checksum.cpp,
--     src/disk_block_store.cpp, src/head_registry.cpp, src/store_lock.cpp); Store/Hex and
--     Store/Registry are about their texts and files.
--   Database/Collection: `Collection` (src/collection.cpp, src/document.cpp) and its loading and
--     writing of metadata; Collection/Operations inserts and finds, Collection/Changes updates, deletes
--     and keeps indexes. Collection/Inserted, Forgets, Partial and Found have the theorems, over
--     Collection/Meta, Durable and Cached.
--   Database/Handle: `BrightChainDb` (src/brightchain_db.cpp), the collections of one connection.
-- An operation is a function from the state to a state and a result, so that an exception keeps what
-- had been changed before it. Documents that are updated are taken to be objects.
--
-- The polls (Voting, for src/poll.cpp, src/poll_tallier.cpp, src/vote_encoder.cpp and
-- src/voting_method.cpp). An encoder encrypts one number for each choice, a poll collects such
-- ballots, and a tallier decrypts and counts them.
--   Voting/Bytes: the byte form of integers (`intToBytes`, `bytesToInt`).
--   Voting/Method: the voting methods. Voting/Ballot: a ballot and its checks (`validateVote`).
--   Voting/Poll: `Poll`, with its receipts. Voting/Encoder: `VoteEncoder`.
--   Voting/Tally: `tallyAdditive`, `tallyQuadratic`, `tallyConsensus` and `tallyConsentBased`.
--   Voting/Ranked: `tallyRankedChoice`. Voting/TwoRound: `tallyTwoRound` and `tallySTAR`.
--   Voting/Aggregator: the precinct, county, state and national aggregators
--     (src/hierarchical_aggregator.cpp); the last three share their code, and the level is an
--     argument.
--   Voting/Stv: `tallySTV`. Voting/Tallier: `tally`. The theorems are in the modules below each.
--
-- The logs of the polls (Logs). Logs/Audit: `AuditLog` (src/audit_log.cpp), with the theorems on its
-- chain of hashes in Audit/Chain and Audit/Tamper. Logs/Board: `BulletinBoard`
-- (src/bulletin_board.cpp), with the theorems in Board/Merkle and Board/Published. Logs/Events:
-- `EventLogger` (src/event_logger.cpp), with the theorem in Events/Order. Logs has what they share: the
-- signer and the byte helpers.
--
-- State is passed explicitly: an operation takes a record and returns the new one, with the calls of
-- handlers and the messages sent recorded in order. Exceptions and reads out of range are values.
-- Prelude has the numbers, lists, maps and tests that all parts share. Maps are association lists. The
-- votes and receipts of a poll, the children of an aggregator and the tally proofs of a board, which the
-- code goes through in the order of their keys, are kept in that order (Prelude/Text); other maps are in
-- the order of insertion, and the theorems hold whatever that order is.
--
-- Loops. The chunks of a flush take one unit of fuel each, and the length of the batch is enough where
-- the batch size is not zero. The instant runoff and the single transferable vote take one unit
-- for each round, and the number of choices is enough. A filter is matched with one unit for each
-- level of its nesting, and one more is enough. The Merkle root takes one unit for each level of its
-- tree, and the number of entries after the first is enough. The hexadecimal and byte loops are bounded by
-- the length of their texts and by eight bytes.
--
-- Json is the interface of `nlohmann::json`, which is not part of the repository: the operations that
-- the code calls, with the documented laws that it relies on. Json/Example is a library that meets
-- them.
--
-- Arguments of the model: the time, the draws of the shuffles, ECIES encryption and ECDSA
-- verification, the lock and the file of the head registry, whether operations on the files of the
-- database succeed, hashes and fresh ids (`Env`), signing and verifying by a poll's authority
-- (`Authority`), signing, verifying and hashes of the logs (`Signer`), the words of the hash of a Bloom
-- filter and its number of bits, Paillier encryption, addition and decryption, the order in which
-- `std::sort` leaves equal elements, and the value of a shift of an `int` by 32 or more.
--
-- Not modelled: sockets, timers, locks between threads, the text form of JSON, `announcePoolCreation`,
-- the sizes and the JSON metadata of blocks, the cryptographic layers. The settings of the retry
-- service and the sequence of the audit log are natural numbers where the code has `int`, so negative
-- ones and overflow are left out. A file is written whole or not at all; `put` leaves the block where
-- the metadata cannot be written. A text is one of Unicode characters and a number of JSON is
-- finite, so that `dump` neither throws nor loses a value; `size()` of a text is its length in UTF-8.
pub mod Prelude
pub mod Json
pub mod Logs
pub mod Gossip
pub mod Database
pub mod Voting
