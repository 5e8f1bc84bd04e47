-- ===== src/CloudSync/SyncState/Laws.antt =====
-- The order of the states, and the laws of merging them
-- (bin/ledger/cloud_sync/public/sync_state_watcher.cc).
use peridot.Base.{◌≤◌, ◌≡◌, ◌≢◌, true, false, arith}
use peridot.CloudSync.SyncState.{
  DownloadSyncState, download_value, UploadSyncState, upload_value, SyncStateContainer, merge,
  ne_container,
}

pub download_value-injective :
    (a b : DownloadSyncState) → download_value a ≡ download_value b → a ≡ b
download_value-injective a b h = ground arith

pub upload_value-injective : (a b : UploadSyncState) → upload_value a ≡ upload_value b → a ≡ b
upload_value-injective a b h = ground arith

pub ne_container-false : (a b : SyncStateContainer) → ne_container a b ≡ false → a ≡ b
unfolding ne_container
ne_container-false a b h = ground arith

pub ne_container-true : (a b : SyncStateContainer) → ne_container a b ≡ true → a ≢ b
unfolding ne_container
ne_container-true a b h e = ground arith

-- The order in which a container is merged.
pub record Below (a b : SyncStateContainer) : Type 0 where
  pub download : download_value a.download ≤ download_value b.download
  pub upload : upload_value a.upload ≤ upload_value b.upload

-- `Merge` gives the least container above both: it is above each, and below whatever is.
pub merge_least :
    (a b c : SyncStateContainer)
    → Below a (merge a b) × Below b (merge a b) × (Below a c → Below b c → Below (merge a b) c)
unfolding merge
merge_least a b c = (ground arith, ground arith, λ h k. ground arith)

pub Below-trans : {a b c : SyncStateContainer} → Below a b → Below b c → Below a c
Below-trans h k = omega arith

pub Below-refl : (a : SyncStateContainer) → Below a a
Below-refl a = omega arith
