-- ===== src/CloudSync.antt =====
-- bin/ledger/cloud_sync: the synchronisation of a page with its cloud copy.
pub mod SyncState
pub mod Aggregator
pub mod PageUpload
pub mod PageDownload
pub mod BatchUpload
pub mod PageSync
