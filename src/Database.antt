-- ===== src/Database.antt =====
-- The document database: src/query_engine.cpp, src/update_engine.cpp, src/document.cpp,
-- src/collection.cpp, src/head_registry.cpp and src/disk_block_store.cpp.
pub mod Query
pub mod Update
pub mod Store
pub mod Collection
pub mod Handle
mod Tests
