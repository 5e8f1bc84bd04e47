-- ===== src/CloudSync/PageUpload.antt =====
-- bin/ledger/cloud_sync/impl/page_upload.{h,cc}: when the local commits of a page are uploaded. A
-- request whose callback has not run is an entry of `pending`, and the callback is the matching
-- clause of `resume`; a batch in flight is one of them, and ends with a report of the batch upload.
-- `delegate_->IsDownloadIdle()` is an argument wherever the code asks it. Calls of the delegate and of
-- the backoff are recorded, the newest first. A failed `FXL_DCHECK` is `none`. A commit is its
-- identifier, a number.
pub mod Invariant
pub mod Schedule
pub mod Examples
use peridot.Base.{
  ℕ, Bool, true, false, not, ◌&&◌, Option, none, some, List, [], ◌∷◌, ltb, ◌==◌, if◌then◌else◌,
  dcheck, length, is_empty, pick,
}
use peridot.CloudSync.SyncState.{
  UploadSyncState, upload_stopped, upload_setup, upload_idle, upload_pending,
  upload_wait_too_many_local_heads, upload_wait_remote_download, upload_temporary_error,
  upload_in_progress, upload_permanent_error, upload_value, eq_upload,
}
use peridot.CloudSync.BatchUpload.{ErrorType, permanent, temporary, Report, done, error}

pub data Pending : Type 0 where
  get_unsynced_commits : Pending
  get_head_commit_ids : List ℕ → Pending
  batch : List ℕ → Pending
  retry_task : Pending

-- A reply: the status and the commits of the storage, whether the download is idle when the callback
-- runs, and, of a batch, its report.
pub record Reply : Type 0 where
  pub ok : Bool
  pub commits : List ℕ
  pub download_idle : Bool
  pub report : Report

pub data BackoffCall : Type 0 where
  reset get_next : BackoffCall

pub data ChangeSource : Type 0 where
  local cloud : ChangeSource

-- `batch_upload` says whether `batch_upload_` is set, `watching` whether the storage has this object
-- among its commit watchers.
pub record PageUpload : Type 0 where
  pub state : UploadSyncState
  pub commits_to_upload : Bool
  pub batch_upload : Bool
  pub watching : Bool
  pub pending : List Pending
  pub states_told : List UploadSyncState
  pub backoff_calls : List BackoffCall

unfoldable pub create : PageUpload
create = record {
  state = upload_stopped;
  commits_to_upload = false;
  batch_upload = false;
  watching = false;
  pending = [];
  states_told = [];
  backoff_calls = [];
}

abbrev pub send : Pending → PageUpload → PageUpload
send p u = record u { pending = p ∷ u.pending }

unfoldable pub set_state : UploadSyncState → PageUpload → PageUpload
set_state new_state u =
    if eq_upload new_state u.state
    then u
    else record u { state = new_state; states_told = new_state ∷ u.states_told }

handle_error : PageUpload → PageUpload
unfolding set_state
handle_error u = set_state upload_permanent_error (
    if ltb (upload_value upload_setup) (upload_value u.state)
    then record u { watching = false }
    else u)

pub upload_unsynced_commits : PageUpload → PageUpload
unfolding set_state
upload_unsynced_commits u =
    if not u.commits_to_upload
    then set_state upload_idle u
    else if u.batch_upload
    then u
    else send get_unsynced_commits u

unfoldable pub start_upload : PageUpload → PageUpload
unfolding set_state upload_unsynced_commits
start_upload u = upload_unsynced_commits (
    if eq_upload u.state upload_stopped
    then set_state upload_setup (record u { commits_to_upload = true })
    else u)

-- The storage calls this on its watchers only.
unfoldable pub on_new_commits : ChangeSource → Bool → PageUpload → PageUpload
unfolding set_state upload_unsynced_commits
on_new_commits cloud download_idle u = u
on_new_commits local download_idle u =
    let u' = record u { commits_to_upload = true } in
    if not download_idle
    then set_state upload_wait_remote_download u'
    else if eq_upload u'.state upload_temporary_error
    then u'
    else upload_unsynced_commits (set_state upload_pending u')

retry_with_backoff : PageUpload → PageUpload
retry_with_backoff u = send retry_task (record u { backoff_calls = get_next ∷ u.backoff_calls })

handle_unsynced_commits : List ℕ → PageUpload → Option PageUpload
unfolding set_state
handle_unsynced_commits commits u = dcheck (not u.batch_upload) (
    dcheck u.commits_to_upload (
      some
        (send (batch commits) (record (set_state upload_in_progress u) { batch_upload = true }))))

verify_unsynced_commits : List ℕ → PageUpload → PageUpload
unfolding set_state
verify_unsynced_commits commits u =
    if is_empty commits
    then record (set_state upload_idle u) { commits_to_upload = false }
    else send (get_head_commit_ids commits) u

-- The callback of `GetHeadCommitIds`.
heads_known : List ℕ → Reply → PageUpload → Option PageUpload
unfolding set_state handle_error handle_unsynced_commits
heads_known commits r u =
    if not r.ok
    then some (handle_error u)
    else if u.batch_upload
    then some u
    else dcheck (not (is_empty r.commits)) (
        if not r.download_idle
        then some (set_state upload_wait_remote_download u)
        else if ltb 1 (length r.commits)
        then some
            (set_state upload_wait_too_many_local_heads (record u { commits_to_upload = false }))
        else handle_unsynced_commits commits u)

batch_ended : Report → PageUpload → PageUpload
unfolding set_state retry_with_backoff upload_unsynced_commits
batch_ended done u =
    upload_unsynced_commits
      (record u { backoff_calls = reset ∷ u.backoff_calls; batch_upload = false })
batch_ended (error temporary) u =
    retry_with_backoff (record (set_state upload_temporary_error u) { batch_upload = false })
batch_ended (error permanent) u = set_state upload_permanent_error u

pub resume : Pending → Reply → PageUpload → Option PageUpload
unfolding set_state handle_error verify_unsynced_commits heads_known batch_ended
    upload_unsynced_commits
resume get_unsynced_commits r u =
    if not r.ok
    then some (handle_error (set_state upload_permanent_error u))
    else some (
        verify_unsynced_commits r.commits
          (if eq_upload u.state upload_setup then record u { watching = true } else u))
resume (get_head_commit_ids commits) r u = heads_known commits r u
resume (batch commits) r u = some (batch_ended r.report u)
resume retry_task r u =
    some (if eq_upload u.state upload_permanent_error then u else upload_unsynced_commits u)

unfoldable pub is_idle : PageUpload → Bool
is_idle u = elim u.state [
  | upload_stopped ↦ true
  | upload_idle ↦ true
  | upload_wait_too_many_local_heads ↦ true
  | upload_permanent_error ↦ true
  | _ ↦ false
]
