-- ===== src/CloudSync/PageDownload.antt =====
-- bin/ledger/cloud_sync/impl/page_download.{h,cc}: when the remote commits of a page are downloaded,
-- and the objects that the storage asks for. A request whose callback has not run is an entry of
-- `pending`, and the callback is the matching clause of `resume`; a batch in flight is one of them.
-- Calls of the delegate, of the backoff and of the storage's object callbacks are recorded, the newest
-- first. A failed `FXL_DCHECK` is `none`. A commit and an object are their identifiers, numbers; a
-- position token is a text, empty where the code passes none.
pub mod Invariant
pub mod Callbacks
pub mod Schedule
pub mod Commits
pub mod Order
pub mod Examples
use Prim.Native.String.{String}
use peridot.Base.{
  ℕ, ◌+◌, ◌-◌, Bool, true, false, not, ◌&&◌, ◌||◌, Option, none, some, List, [], ◌∷◌, ◌++◌, ◌==◌,
  if◌then◌else◌, dcheck, is_empty, ◌>>=◌,
}
use peridot.CloudSync.SyncState.{
  DownloadSyncState, download_stopped, download_backlog, download_temporary_error,
  download_setting_remote_watcher, download_idle, download_in_progress, download_permanent_error,
  eq_download,
}

-- `cloud_provider::Status`.
pub data CloudStatus : Type 0 where
  ok argument_error auth_error internal_error network_error not_found parse_error : CloudStatus
  server_error unknown_error : CloudStatus

unfoldable pub is_permanent_error : CloudStatus → Bool
is_permanent_error ok = false
is_permanent_error auth_error = false
is_permanent_error network_error = false
is_permanent_error _ = true

abbrev pub is_ok : CloudStatus → Bool
is_ok ok = true
is_ok _ = false

-- What `on_done` of a batch does.
pub data OnDone : Type 0 where
  backlog_downloaded acknowledge nothing : OnDone

pub data Pending : Type 0 where
  get_backlog_metadata : Pending
  get_commits : String → Pending
  batch : List ℕ → String → OnDone → Pending
  get_watcher_metadata : Bool → Pending
  set_watcher : String → Pending
  retry_start : Pending
  retry_watcher : Pending
  retry_object : ℕ → Pending
  get_object_name : ℕ → Pending
  get_object_data : ℕ → Pending
  read_data : ℕ → Pending
  decrypt_object : ℕ → Pending

-- A reply. `found` is a storage status that is OK or NOT_FOUND, `success` any other status that is OK,
-- `permanent` is `encryption::IsPermanentError` of a status that is not.
pub record Reply : Type 0 where
  pub found : Bool
  pub success : Bool
  pub permanent : Bool
  pub cloud_status : CloudStatus
  pub commits : List ℕ
  pub token : String

pub data BackoffCall : Type 0 where
  reset get_next : BackoffCall

-- `batch_download` says whether `batch_download_` is set, `watcher_bound` whether `watcher_binding_`
-- is bound, `sync_delegate` whether the storage has this object as its delegate. `object_results` says
-- with which objects the storage's callbacks were called, and whether with success.
pub record PageDownload : Type 0 where
  pub commit_state : DownloadSyncState
  pub current_get_object_calls : ℕ
  pub batch_download : Bool
  pub commits_to_download : List ℕ
  pub position_token : String
  pub watcher_bound : Bool
  pub sync_delegate : Bool
  pub pending : List Pending
  pub states_told : List DownloadSyncState
  pub backoff_calls : List BackoffCall
  pub object_results : List (ℕ × Bool)
  pub acknowledged : ℕ

unfoldable pub create : PageDownload
create = record {
  commit_state = download_stopped;
  current_get_object_calls = 0;
  batch_download = false;
  commits_to_download = [];
  position_token = "";
  watcher_bound = false;
  sync_delegate = false;
  pending = [];
  states_told = [];
  backoff_calls = [];
  object_results = [];
  acknowledged = 0;
}

abbrev pub send : Pending → PageDownload → PageDownload
send p d = record d { pending = p ∷ d.pending }

abbrev reset_backoff : PageDownload → PageDownload
reset_backoff d = record d { backoff_calls = reset ∷ d.backoff_calls }

unfoldable pub get_merged_state : DownloadSyncState → ℕ → DownloadSyncState
get_merged_state commit_state calls =
    if not (eq_download commit_state download_idle)
    then commit_state
    else if calls == 0
    then download_idle
    else download_in_progress

unfoldable pub is_idle : PageDownload → Bool
unfolding get_merged_state
is_idle d = elim (get_merged_state d.commit_state d.current_get_object_calls) [
  | download_stopped ↦ true
  | download_idle ↦ true
  | download_permanent_error ↦ true
  | _ ↦ false
]

unfoldable pub set_commit_state : DownloadSyncState → PageDownload → PageDownload
unfolding get_merged_state
set_commit_state new_state d =
    if eq_download new_state d.commit_state
    then d
    else (let old = get_merged_state d.commit_state d.current_get_object_calls in
        let new = get_merged_state new_state d.current_get_object_calls in
        record d {
          commit_state = new_state;
          states_told = if eq_download old new then d.states_told else new ∷ d.states_told;
        })

unfoldable pub handle_download_commit_error : PageDownload → PageDownload
unfolding set_commit_state
handle_download_commit_error d =
    set_commit_state download_permanent_error
      (record d { watcher_bound = false; sync_delegate = false })

retry_with_backoff : Pending → PageDownload → PageDownload
retry_with_backoff task d = send task (record d { backoff_calls = get_next ∷ d.backoff_calls })

unfoldable pub start_download : PageDownload → PageDownload
unfolding set_commit_state
start_download d =
    send get_backlog_metadata
      (record (set_commit_state download_backlog d) { sync_delegate = true })

set_remote_watcher : Bool → PageDownload → Option PageDownload
unfolding set_commit_state
set_remote_watcher is_retry d =
    dcheck
      (eq_download d.commit_state download_backlog
        || eq_download d.commit_state download_temporary_error)
      (some
        (send (get_watcher_metadata is_retry) (set_commit_state download_setting_remote_watcher d)))

download_batch : List ℕ → String → OnDone → PageDownload → Option PageDownload
download_batch commits token on_done d =
    dcheck (not d.batch_download)
      (some (send (batch commits token on_done) (record d { batch_download = true })))

unfoldable pub on_new_commits : List ℕ → String → PageDownload → Option PageDownload
unfolding set_commit_state download_batch
on_new_commits commits token d =
    if d.batch_download
    then some (record d {
      commits_to_download = d.commits_to_download ++ commits;
      position_token = token;
      acknowledged = d.acknowledged + 1;
    })
    else download_batch commits token acknowledge (set_commit_state download_in_progress d)

unfoldable pub on_error : CloudStatus → PageDownload → Option PageDownload
unfolding set_commit_state retry_with_backoff is_permanent_error handle_download_commit_error
on_error status d =
    dcheck
      (eq_download d.commit_state download_idle || eq_download d.commit_state download_in_progress)
      (if not (is_permanent_error status)
        then some (
            retry_with_backoff retry_watcher
              (set_commit_state download_temporary_error (record d { watcher_bound = false })))
        else some (handle_download_commit_error d))

call_on_done : OnDone → PageDownload → Option PageDownload
unfolding set_remote_watcher
call_on_done backlog_downloaded d = set_remote_watcher false d
call_on_done acknowledge d = some (record d { acknowledged = d.acknowledged + 1 })
call_on_done nothing d = some d

-- What the batch's `on_done` does once it has called the closure that it was given.
batch_finished : PageDownload → Option PageDownload
unfolding set_commit_state download_batch
batch_finished d =
    let d' = record d { batch_download = false } in
    if is_empty d.commits_to_download
    then some (
        if eq_download d.commit_state download_in_progress
        then set_commit_state download_idle d'
        else d')
    else download_batch d.commits_to_download d.position_token nothing
        (record d' { commits_to_download = []; position_token = "" })

unfoldable pub get_object : ℕ → PageDownload → PageDownload
get_object oid d =
    send (get_object_name oid)
      (record d { current_get_object_calls = d.current_get_object_calls + 1 })

end_object : ℕ → Bool → PageDownload → PageDownload
end_object oid success d = record d {
  backoff_calls = reset ∷ d.backoff_calls;
  object_results = (oid, success) ∷ d.object_results;
  current_get_object_calls = d.current_get_object_calls - 1;
}

handle_get_object_error : ℕ → Bool → PageDownload → PageDownload
unfolding retry_with_backoff end_object
handle_get_object_error oid is_permanent d =
    if is_permanent
    then end_object oid false d
    else retry_with_backoff (retry_object oid)
        (record d { current_get_object_calls = d.current_get_object_calls - 1 })

-- The callback of `GetCommits` in `StartDownload`.
commits_received : Reply → PageDownload → Option PageDownload
unfolding set_commit_state retry_with_backoff set_remote_watcher download_batch
commits_received r d =
    if not (is_ok r.cloud_status)
    then some (retry_with_backoff retry_start (set_commit_state download_temporary_error d))
    else if is_empty r.commits
    then set_remote_watcher false (reset_backoff d)
    else download_batch r.commits r.token backlog_downloaded (reset_backoff d)

-- The callback of `GetSyncMetadata` in `SetRemoteWatcher`.
watcher_metadata_known : Bool → String → PageDownload → PageDownload
unfolding set_commit_state handle_download_commit_error
watcher_metadata_known found token d =
    if found
    then set_commit_state download_idle
        (send (set_watcher token) (record d { watcher_bound = true }))
    else handle_download_commit_error d

unless_stopped : (PageDownload → Option PageDownload) → PageDownload → Option PageDownload
unless_stopped task d =
    if eq_download d.commit_state download_permanent_error then some d else task d

pub resume : Pending → Reply → PageDownload → Option PageDownload
unfolding start_download handle_download_commit_error commits_received watcher_metadata_known
    unless_stopped set_remote_watcher call_on_done batch_finished get_object end_object
    handle_get_object_error
resume get_backlog_metadata r d =
    some (if r.found then send (get_commits r.token) d else handle_download_commit_error d)
resume (get_commits token) r d = commits_received r d
resume (batch commits token on_done) r d =
    if r.success
    then call_on_done on_done d >>= batch_finished
    else some (handle_download_commit_error d)
resume (get_watcher_metadata is_retry) r d = some (watcher_metadata_known r.found r.token d)
resume (set_watcher token) r d =
    some (if is_ok r.cloud_status then d else handle_download_commit_error d)
resume retry_start r d = unless_stopped (λ e. some (start_download e)) d
resume retry_watcher r d = unless_stopped (set_remote_watcher true) d
resume (retry_object oid) r d = unless_stopped (λ e. some (get_object oid e)) d
resume (get_object_name oid) r d =
    some (
      if r.success then send (get_object_data oid) d else handle_get_object_error oid r.permanent d)
resume (get_object_data oid) r d = some (
    if is_ok r.cloud_status
    then send (read_data oid) d
    else handle_get_object_error oid (is_permanent_error r.cloud_status) d)
resume (read_data oid) r d =
    some (if r.success then send (decrypt_object oid) d else handle_get_object_error oid true d)
resume (decrypt_object oid) r d =
    some (if r.success then end_object oid true d else handle_get_object_error oid r.permanent d)
