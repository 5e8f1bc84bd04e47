-- ===== src/CloudSync/PageSync/Examples.antt =====
-- A run of bin/ledger/cloud_sync/impl/page_sync_impl.cc, and its theorem at that run.
use peridot.Base.{◌≤◌, ◌≡◌, refl, true, false, some, List, [], ◌∷◌, total}
use peridot.CloudSync.SyncState.{
  download_backlog, download_idle, download_permanent_error, upload_setup, upload_idle,
  upload_permanent_error,
}
use peridot.CloudSync.PageSync.{
  download_started, upload_started, error_told, backlog_told, page_watcher_told, PageSync, create,
  states, Op, enables_upload, starts, sets_on_backlog_downloaded, sets_watcher, download_tells,
  upload_tells, run, start, set_download_state, start_page_upload, tell, set_upload_state,
}
use peridot.CloudSync.PageSync.Watchers.{errors, upload_starts, page_told, run-told}

-- The upload starts with the page and again when the download becomes idle; both sides then fail.
abbrev calls : List Op
calls =
    sets_on_backlog_downloaded
    ∷ sets_watcher true
    ∷ enables_upload []
    ∷ starts ((upload_setup, false) ∷ []) false
    ∷ download_tells download_idle ((upload_idle, false) ∷ []) true
    ∷ upload_tells upload_permanent_error true
    ∷ download_tells download_permanent_error [] true
    ∷ []

abbrev ended : PageSync
ended = record {
  on_idle = false;
  on_error = true;
  on_backlog_downloaded = true;
  ledger_watcher = false;
  page_watcher = true;
  started = true;
  enable_upload = true;
  error_callback_already_called = true;
  download_state = download_permanent_error;
  upload_state = upload_permanent_error;
  events =
      page_watcher_told
        (record { download = download_permanent_error; upload = upload_permanent_error })
      ∷ page_watcher_told (record { download = download_idle; upload = upload_permanent_error })
      ∷ error_told
      ∷ page_watcher_told (record { download = download_idle; upload = upload_idle })
      ∷ page_watcher_told (record { download = download_backlog; upload = upload_idle })
      ∷ upload_started
      ∷ backlog_told
      ∷ page_watcher_told (record { download = download_backlog; upload = upload_setup })
      ∷ upload_started
      ∷ page_watcher_told
          (states (record (create true false) { download_state = download_backlog }))
      ∷ download_started
      ∷ page_watcher_told (states (create true false))
      ∷ [];
}

run-told_example :
    (total errors ended.events ≤ 1)
    × (ended.enable_upload ≡ false → total upload_starts ended.events ≡ 0)
    × (ended.page_watcher ≡ true → page_told ended.events ≡ some (states ended))
unfolding run start set_download_state start_page_upload tell set_upload_state create
run-told_example = run-told true false calls ended refl
