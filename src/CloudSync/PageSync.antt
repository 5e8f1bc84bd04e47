-- ===== src/CloudSync/PageSync.antt =====
-- bin/ledger/cloud_sync/impl/page_sync_impl.{h,cc}: the download and the upload of one page, and those
-- who watch them. What it calls is recorded in `events`, the newest first. `StartUpload` tells its
-- states while it runs: they are an argument, `told`, each with whether upload and download are both
-- idle at that moment, which is an argument wherever the code asks it. A failed `FXL_DCHECK` is `none`.
pub mod Watchers
pub mod Examples
use peridot.Base.{
  ℕ, Bool, true, false, not, ◌&&◌, Option, none, some, List, [], ◌∷◌, if◌then◌else◌, dcheck, ◌>>=◌,
}
use peridot.CloudSync.SyncState.{
  DownloadSyncState, download_stopped, download_backlog, download_idle, download_permanent_error,
  eq_download, UploadSyncState, upload_stopped, upload_permanent_error, eq_upload,
  SyncStateContainer,
}

pub data Event : Type 0 where
  download_started upload_started error_told backlog_told idle_told : Event
  ledger_watcher_told page_watcher_told : SyncStateContainer → Event

-- `on_error`, `on_idle` and `on_backlog_downloaded` say whether the callbacks are set, and
-- `ledger_watcher` and `page_watcher` whether the watchers are.
pub record PageSync : Type 0 where
  pub on_idle : Bool
  pub on_error : Bool
  pub on_backlog_downloaded : Bool
  pub ledger_watcher : Bool
  pub page_watcher : Bool
  pub started : Bool
  pub enable_upload : Bool
  pub error_callback_already_called : Bool
  pub download_state : DownloadSyncState
  pub upload_state : UploadSyncState
  pub events : List Event

unfoldable pub create : Bool → Bool → PageSync
create on_error ledger_watcher = record {
  on_idle = false;
  on_error = on_error;
  on_backlog_downloaded = false;
  ledger_watcher = ledger_watcher;
  page_watcher = false;
  started = false;
  enable_upload = false;
  error_callback_already_called = false;
  download_state = download_stopped;
  upload_state = upload_stopped;
  events = [];
}

abbrev add : Event → PageSync → PageSync
add e s = record s { events = e ∷ s.events }

abbrev pub states : PageSync → SyncStateContainer
states s = record { download = s.download_state; upload = s.upload_state }

unfoldable pub handle_error : PageSync → PageSync
handle_error s =
    if s.error_callback_already_called
    then s
    else if s.on_error
    then add error_told (record s { error_callback_already_called = true })
    else s

unfoldable pub check_idle : Bool → PageSync → PageSync
check_idle idle s = if idle && s.on_idle then add idle_told s else s

unfoldable pub notify_state_watcher : Bool → PageSync → PageSync
unfolding check_idle
notify_state_watcher idle s =
    let s1 = if s.ledger_watcher then add (ledger_watcher_told (states s)) s else s in
    let s2 = if s1.page_watcher then add (page_watcher_told (states s1)) s1 else s1 in
    check_idle idle s2

unfoldable pub set_upload_state : UploadSyncState → Bool → PageSync → PageSync
unfolding handle_error notify_state_watcher
set_upload_state next idle s =
    let s1 = if eq_upload next upload_permanent_error then handle_error s else s in
    notify_state_watcher idle (record s1 { upload_state = next })

unfoldable pub tell : List (UploadSyncState × Bool) → PageSync → PageSync
tell [] s = s
tell ((next, idle) ∷ rest) s = tell rest (set_upload_state next idle s)

-- `page_upload_->StartUpload()`.
pub start_page_upload : List (UploadSyncState × Bool) → PageSync → PageSync
start_page_upload told s = tell told (add upload_started s)

-- The first two tests of `SetDownloadState`.
pub leave_state : DownloadSyncState → PageSync → PageSync
unfolding handle_error
leave_state next s =
    let s' = if eq_download next download_permanent_error then handle_error s else s in
    if eq_download s'.download_state download_backlog
      && not (eq_download next download_permanent_error)
      && s'.on_backlog_downloaded
    then add backlog_told s'
    else s'

-- Its third test.
pub upload_when_idle : DownloadSyncState → List (UploadSyncState × Bool) → PageSync → PageSync
upload_when_idle next told s =
    if not (eq_download s.download_state download_idle)
      && eq_download next download_idle
      && s.enable_upload
    then start_page_upload told s
    else s

unfoldable pub set_download_state :
    DownloadSyncState → List (UploadSyncState × Bool) → Bool → PageSync → PageSync
unfolding notify_state_watcher leave_state upload_when_idle
set_download_state next told idle s =
    notify_state_watcher idle
      (record (upload_when_idle next told (leave_state next s)) { download_state = next })

unfoldable pub enable_upload : List (UploadSyncState × Bool) → PageSync → PageSync
unfolding start_page_upload
enable_upload told s =
    let s' = record s { enable_upload = true } in
    if not s'.started
    then s'
    else if eq_upload s'.upload_state upload_stopped
    then start_page_upload told s'
    else s'

pub upload_if_enabled : List (UploadSyncState × Bool) → PageSync → PageSync
unfolding start_page_upload
upload_if_enabled told s = if s.enable_upload then start_page_upload told s else s

-- `StartDownload` tells the state of the backlog.
unfoldable pub start : List (UploadSyncState × Bool) → Bool → PageSync → Option PageSync
unfolding upload_if_enabled
start told idle s = dcheck (not s.started) (
    some (
      upload_if_enabled told (
        set_download_state download_backlog [] idle
          (add download_started (record s { started = true })))))

unfoldable pub set_on_idle : PageSync → Option PageSync
set_on_idle s = dcheck (not s.on_idle) (dcheck (not s.started) (some (record s { on_idle = true })))

unfoldable pub set_on_backlog_downloaded : PageSync → Option PageSync
set_on_backlog_downloaded s =
    dcheck (not s.on_backlog_downloaded)
      (dcheck (not s.started) (some (record s { on_backlog_downloaded = true })))

unfoldable pub set_sync_watcher : Bool → PageSync → PageSync
set_sync_watcher watcher s =
    let s' = record s { page_watcher = watcher } in
    if watcher then add (page_watcher_told (states s')) s' else s'

-- The calls of a page's synchronisation.
pub data Op : Type 0 where
  enables_upload : List (UploadSyncState × Bool) → Op
  starts : List (UploadSyncState × Bool) → Bool → Op
  sets_on_idle sets_on_backlog_downloaded : Op
  sets_watcher : Bool → Op
  download_tells : DownloadSyncState → List (UploadSyncState × Bool) → Bool → Op
  upload_tells : UploadSyncState → Bool → Op

pub step : Op → PageSync → Option PageSync
unfolding enable_upload start set_on_idle set_on_backlog_downloaded set_sync_watcher
    set_download_state set_upload_state
step (enables_upload told) s = some (enable_upload told s)
step (starts told idle) s = start told idle s
step sets_on_idle s = set_on_idle s
step sets_on_backlog_downloaded s = set_on_backlog_downloaded s
step (sets_watcher watcher) s = some (set_sync_watcher watcher s)
step (download_tells next told idle) s = some (set_download_state next told idle s)
step (upload_tells next idle) s = some (set_upload_state next idle s)

pub run : List Op → PageSync → Option PageSync
unfolding step
run [] s = some s
run (op ∷ rest) s = step op s >>= run rest
