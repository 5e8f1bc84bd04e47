-- ===== src/CloudSync/SyncState.antt =====
-- bin/ledger/cloud_sync/public/sync_state_watcher.{h,cc}: the states of the synchronisation, in the
-- order of the enumerators, and the container that merges them.
pub mod Laws
use peridot.Base.{ℕ, Bool, not, ◌&&◌, ltb, ◌==◌, if◌then◌else◌}

pub data DownloadSyncState : Type 0 where
  download_stopped download_backlog download_temporary_error : DownloadSyncState
  download_setting_remote_watcher download_idle download_in_progress : DownloadSyncState
  download_permanent_error : DownloadSyncState

pub data UploadSyncState : Type 0 where
  upload_stopped upload_setup upload_idle upload_pending : UploadSyncState
  upload_wait_too_many_local_heads upload_wait_remote_download : UploadSyncState
  upload_temporary_error upload_in_progress upload_permanent_error : UploadSyncState

-- The values of the enumerators, by which the code compares states.
abbrev pub download_value : DownloadSyncState → ℕ
download_value download_stopped = 0
download_value download_backlog = 1
download_value download_temporary_error = 2
download_value download_setting_remote_watcher = 3
download_value download_idle = 4
download_value download_in_progress = 5
download_value download_permanent_error = 6

abbrev pub upload_value : UploadSyncState → ℕ
upload_value upload_stopped = 0
upload_value upload_setup = 1
upload_value upload_idle = 2
upload_value upload_pending = 3
upload_value upload_wait_too_many_local_heads = 4
upload_value upload_wait_remote_download = 5
upload_value upload_temporary_error = 6
upload_value upload_in_progress = 7
upload_value upload_permanent_error = 8

abbrev pub eq_download : DownloadSyncState → DownloadSyncState → Bool
eq_download a b = download_value a == download_value b

abbrev pub eq_upload : UploadSyncState → UploadSyncState → Bool
eq_upload a b = upload_value a == upload_value b

pub record SyncStateContainer : Type 0 where
  pub download : DownloadSyncState
  pub upload : UploadSyncState

-- The container's default constructor.
abbrev pub default_state : SyncStateContainer
default_state = record { download = download_idle; upload = upload_idle }

unfoldable pub merge : SyncStateContainer → SyncStateContainer → SyncStateContainer
merge this other = record {
  download =
      if ltb (download_value this.download) (download_value other.download)
      then other.download
      else this.download;
  upload =
      if ltb (upload_value this.upload) (upload_value other.upload)
      then other.upload
      else this.upload;
}

-- `operator!=`.
unfoldable pub ne_container : SyncStateContainer → SyncStateContainer → Bool
ne_container a b = not (eq_download a.download b.download && eq_upload a.upload b.upload)
