-- ===== src/CloudSync/Aggregator/Examples.antt =====
-- A run of bin/ledger/cloud_sync/impl/aggregator.cc, and its theorems at concrete events.
use peridot.Base.{◌≡◌, refl, List, [], ◌∷◌}
use peridot.CloudSync.SyncState.{
  SyncStateContainer, default_state, merge, ne_container, download_backlog, download_in_progress,
  upload_in_progress, upload_pending,
}
use peridot.CloudSync.Aggregator.{
  Event, register, notifies, unregister, create, step, run, new_state_available, merge_all,
}

abbrev busy_download : SyncStateContainer
busy_download = record { download = download_in_progress; upload = upload_pending }

abbrev busy_upload : SyncStateContainer
busy_upload = record { download = download_backlog; upload = upload_in_progress }

abbrev events : List Event
events =
    register
    ∷ register
    ∷ notifies 0 busy_download
    ∷ notifies 1 busy_upload
    ∷ unregister 0
    ∷ notifies 1 busy_upload
    ∷ []

-- The backlog of the second listener does not show, since the container starts from the idle state.
events_told :
    (run create events).notified
    ≡ record default_state { upload = upload_in_progress }
      ∷ record { download = download_in_progress; upload = upload_in_progress }
      ∷ busy_download
      ∷ default_state
      ∷ []
unfolding run create step new_state_available merge_all merge ne_container
events_told = refl
