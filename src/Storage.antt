-- ===== src/Storage.antt =====
-- bin/ledger/storage: the local storage of the ledger.
pub mod Types
pub mod Digest
pub mod BTree
pub mod Journal
pub mod PageDb
pub mod Pieces
pub mod PageStorage
