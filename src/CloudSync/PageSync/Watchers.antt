-- ===== src/CloudSync/PageSync/Watchers.antt =====
-- What those who watch a page (bin/ledger/cloud_sync/impl/page_sync_impl.cc) are told.
use peridot.Base.{
  ℕ, ◌≤◌, ◌≡◌, ◌⊎◌, Bool, true, false, Option, none, some, List, [], ◌∷◌, arith, total, bind-some,
  dcheck-some, subst, not,
}
use peridot.CloudSync.SyncState.{
  download_backlog, DownloadSyncState, UploadSyncState, SyncStateContainer,
}
use peridot.CloudSync.PageSync.{
  Event, download_started, upload_started, error_told, page_watcher_told, PageSync, create, states,
  Op, enables_upload, starts, sets_on_idle, sets_on_backlog_downloaded, sets_watcher,
  download_tells, upload_tells, step, run, set_upload_state, tell, start_page_upload,
  set_download_state, enable_upload, start, set_on_idle, set_on_backlog_downloaded,
  set_sync_watcher, add, leave_state, upload_when_idle, upload_if_enabled, notify_state_watcher,
}

abbrev pub errors : Event → ℕ
errors error_told = 1
errors _ = 0

abbrev pub upload_starts : Event → ℕ
upload_starts upload_started = 1
upload_starts _ = 0

abbrev pub flag : Bool → ℕ
flag true = 1
flag false = 0

-- What the watcher of the page has heard last.
abbrev pub page_told : List Event → Option SyncStateContainer
page_told [] = none
page_told (page_watcher_told c ∷ rest) = some c
page_told (e ∷ rest) = page_told rest

pub record Inv (s : PageSync) : Type 0 where
  pub one_error : total errors s.events ≡ flag s.error_callback_already_called
  pub enabled : (total upload_starts s.events ≡ 0) ⊎ (s.enable_upload ≡ true)
  pub told : (s.page_watcher ≡ false) ⊎ (page_told s.events ≡ some (states s))

Inv-set_upload_state :
    (next : UploadSyncState) (idle : Bool) (s : PageSync)
    → Inv s
    → Inv (set_upload_state next idle s)
unfolding set_upload_state
Inv-set_upload_state next idle s v = ground arith

Inv-tell : (told : List (UploadSyncState × Bool)) (s : PageSync) → Inv s → Inv (tell told s)
unfolding tell
Inv-tell [] s v = v
Inv-tell ((next, idle) ∷ rest) s v =
    Inv-tell rest (set_upload_state next idle s) (Inv-set_upload_state next idle s v)

Inv-start_page_upload :
    (told : List (UploadSyncState × Bool)) (s : PageSync)
    → s.enable_upload ≡ true
    → Inv s
    → Inv (start_page_upload told s)
unfolding start_page_upload
Inv-start_page_upload told s h v = Inv-tell told (add upload_started s) (ground arith)

Inv-leave_state : (next : DownloadSyncState) (s : PageSync) → Inv s → Inv (leave_state next s)
unfolding leave_state
Inv-leave_state next s v = ground arith

Inv-upload_when_idle :
    (next : DownloadSyncState) (told : List (UploadSyncState × Bool)) (s : PageSync)
    → Inv s
    → Inv (upload_when_idle next told s)
unfolding upload_when_idle
Inv-upload_when_idle next told s v = ground (arith, Inv-start_page_upload told s)

Inv-notify :
    (next : DownloadSyncState) (idle : Bool) (s : PageSync)
    → Inv s
    → Inv (notify_state_watcher idle (record s { download_state = next }))
unfolding notify_state_watcher
Inv-notify next idle s v = ground arith

Inv-set_download_state :
    (next : DownloadSyncState) (told : List (UploadSyncState × Bool)) (idle : Bool) (s : PageSync)
    → Inv s
    → Inv (set_download_state next told idle s)
unfolding set_download_state
Inv-set_download_state next told idle s v =
    Inv-notify next idle (upload_when_idle next told (leave_state next s))
      (Inv-upload_when_idle next told (leave_state next s) (Inv-leave_state next s v))

Inv-enable_upload :
    (told : List (UploadSyncState × Bool)) (s : PageSync) → Inv s → Inv (enable_upload told s)
unfolding enable_upload
Inv-enable_upload told s v =
    ground (arith, Inv-start_page_upload told (record s { enable_upload = true }))

Inv-upload_if_enabled :
    (told : List (UploadSyncState × Bool)) (s : PageSync) → Inv s → Inv (upload_if_enabled told s)
unfolding upload_if_enabled
Inv-upload_if_enabled told s v = ground (arith, Inv-start_page_upload told s)

Inv-begun : (s : PageSync) → Inv s → Inv (add download_started (record s { started = true }))
Inv-begun s v = ground arith

Inv-start :
    (told : List (UploadSyncState × Bool)) (idle : Bool) (s t : PageSync)
    → Inv s
    → start told idle s ≡ some t
    → Inv t
unfolding start
Inv-start told idle s t v e =
    let b = add download_started (record s { started = true }) in
    let d = set_download_state download_backlog [] idle b in
    subst Inv (dcheck-some (not s.started) (upload_if_enabled told d) e) (
      Inv-upload_if_enabled told d
        (Inv-set_download_state download_backlog [] idle b (Inv-begun s v)))

Inv-step : (op : Op) (s t : PageSync) → Inv s → step op s ≡ some t → Inv t
unfolding step set_on_idle set_on_backlog_downloaded set_sync_watcher
Inv-step (enables_upload told) s t v e = ground (arith, Inv-enable_upload told s)
Inv-step (starts told idle) s t v e = Inv-start told idle s t v e
Inv-step sets_on_idle s t v e = ground arith
Inv-step sets_on_backlog_downloaded s t v e = ground arith
Inv-step (sets_watcher watcher) s t v e = ground arith
Inv-step (download_tells next told idle) s t v e =
    ground (arith, Inv-set_download_state next told idle s)
Inv-step (upload_tells next idle) s t v e = ground (arith, Inv-set_upload_state next idle s)

pub Inv-run : (ops : List Op) (s t : PageSync) → Inv s → run ops s ≡ some t → Inv t
unfolding run
Inv-run [] s t v e = ground arith
Inv-run (op ∷ rest) s t v e =
    let (u, q, r) = bind-some (step op s) (run rest) e in Inv-run rest u t (Inv-step op s u v q) r

Inv-create : (on_error ledger_watcher : Bool) → Inv (create on_error ledger_watcher)
unfolding create
Inv-create on_error ledger_watcher = ground arith

-- Whatever is called, in any order: the error callback is called at most once, no upload is started
-- unless uploads have been enabled, and a watcher of the page has last been told the present states.
pub run-told :
    (on_error ledger_watcher : Bool) (ops : List Op) (s : PageSync)
    → run ops (create on_error ledger_watcher) ≡ some s
    → (total errors s.events ≤ 1)
      × (s.enable_upload ≡ false → total upload_starts s.events ≡ 0)
      × (s.page_watcher ≡ true → page_told s.events ≡ some (states s))
run-told on_error ledger_watcher ops s e =
    let v = Inv-run ops (create on_error ledger_watcher) s (Inv-create on_error ledger_watcher) e in
    (ground arith, λ h. ground arith, λ h. ground arith)
