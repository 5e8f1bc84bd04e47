-- ===== src/CloudSync/PageUpload/Invariant.antt =====
-- What holds of bin/ledger/cloud_sync/impl/page_upload.cc between two calls, whatever their order.
use peridot.Base.{
  ℕ, ◌+◌, ◌≤◌, ◌<◌, ◌≡◌, ◌⊎◌, Bool, true, false, ◌||◌, Option, none, some, List, [], ◌∷◌, arith,
  total,
}
use peridot.CloudSync.SyncState.{
  UploadSyncState, upload_stopped, upload_wait_remote_download, upload_temporary_error,
  upload_permanent_error,
}
use peridot.CloudSync.BatchUpload.{permanent, error}
use peridot.CloudSync.PageUpload.{
  PageUpload, Pending, get_unsynced_commits, get_head_commit_ids, batch, retry_task, Reply,
  ChangeSource, local, cloud, create, send, start_upload, on_new_commits, resume,
}

abbrev pub batches : Pending → ℕ
batches (batch commits) = 1
batches _ = 0

abbrev pub one : Pending → ℕ
one p = 1

abbrev pub flag : Bool → ℕ
flag true = 1
flag false = 0

-- A batch that ends with a permanent error.
abbrev pub fails : Pending → Reply → Bool
fails (batch commits) r = elim r.report [ error permanent ↦ true | _ ↦ false ]
fails _ r = false

-- What the delegate was told last; it starts from the stopped state.
abbrev pub last_told : List UploadSyncState → UploadSyncState
last_told [] = upload_stopped
last_told (s ∷ rest) = s

-- `failed` says whether a batch has ended with a permanent error.
pub record Inv (failed : Bool) (u : PageUpload) : Type 0 where
  pub one_batch : total batches u.pending + flag failed ≡ flag u.batch_upload
  pub told : last_told u.states_told ≡ u.state
  pub retrying : (u.state ≡ upload_temporary_error) → (0 < total one u.pending) ⊎ (failed ≡ true)
  pub live :
      (0 < total one u.pending)
      ⊎ (u.commits_to_upload ≡ false)
      ⊎ (failed ≡ true)
      ⊎ (u.state ≡ upload_wait_remote_download)
      ⊎ (u.state ≡ upload_permanent_error)

pub batches-le : (ps : List Pending) → total batches ps ≤ total one ps
batches-le [] = omega arith
batches-le (batch c ∷ ps) = omega (arith, batches-le ps)
batches-le (p ∷ ps) = omega (arith, batches-le ps)

-- A callback that fails no debug check keeps what holds.
abbrev pub Keeps : (PageUpload → Type 0) → Option PageUpload → Type 0
Keeps P none = Unit
Keeps P (some u) = P u

pub Inv-create : Inv false create
unfolding create
Inv-create = ground arith

pub Inv-start_upload : (f : Bool) (u : PageUpload) → Inv f u → Inv f (start_upload u)
unfolding start_upload
Inv-start_upload f u v = ground (arith, batches-le u.pending)

pub Inv-on_new_commits :
    (f : Bool) (source : ChangeSource) (idle : Bool) (u : PageUpload)
    → Inv f u
    → Inv f (on_new_commits source idle u)
unfolding on_new_commits
Inv-on_new_commits f local idle u v = ground (arith, batches-le u.pending)
Inv-on_new_commits f cloud idle u v = v

pub Inv-resume :
    (p : Pending) (r : Reply) (f : Bool) (u : PageUpload)
    → Inv f (send p u)
    → Keeps (Inv (f || fails p r)) (resume p r u)
unfolding resume
Inv-resume get_unsynced_commits r f u v = ground (arith, batches-le u.pending)
Inv-resume (get_head_commit_ids commits) r f u v = ground (arith, batches-le u.pending)
Inv-resume (batch commits) r f u v = ground (arith, batches-le u.pending)
Inv-resume retry_task r f u v = ground (arith, batches-le u.pending)
