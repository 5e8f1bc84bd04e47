-- ===== src/CloudSync/PageDownload/Invariant.antt =====
-- What holds of bin/ledger/cloud_sync/impl/page_download.cc between two calls, whatever their order.
use Prim.Native.String.{String}
use peridot.Base.{
  ℕ, ◌+◌, ◌≤◌, ◌≡◌, ◌⊎◌, Bool, true, false, not, List, [], ◌∷◌, arith, total, Reaches,
}
use peridot.CloudSync.SyncState.{
  download_backlog, download_temporary_error, download_idle, download_in_progress,
  download_permanent_error,
}
use peridot.CloudSync.PageDownload.{
  PageDownload, Pending, get_backlog_metadata, get_commits, batch, get_watcher_metadata,
  set_watcher, retry_start, retry_watcher, get_object_name, get_object_data, read_data,
  decrypt_object, backlog_downloaded, acknowledge, nothing, Reply, CloudStatus, create,
  start_download, on_new_commits, on_error, get_object,
}

abbrev pub flag : Bool → ℕ
flag true = 1
flag false = 0

abbrev pub batches : Pending → ℕ
batches (batch commits token on_done) = 1
batches _ = 0

-- The steps of `GetObject` that are counted as a call.
abbrev pub objects : Pending → ℕ
objects (get_object_name oid) = 1
objects (get_object_data oid) = 1
objects (read_data oid) = 1
objects (decrypt_object oid) = 1
objects _ = 0

-- The steps up to the first watcher.
abbrev pub early : Pending → ℕ
early get_backlog_metadata = 1
early (get_commits token) = 1
early (batch commits token backlog_downloaded) = 1
early retry_start = 1
early _ = 0

abbrev pub retrying_start : Pending → ℕ
retrying_start retry_start = 1
retrying_start _ = 0

-- What can only be in flight once there has been a watcher.
abbrev pub late : Pending → ℕ
late (batch commits token acknowledge) = 1
late (batch commits token nothing) = 1
late (set_watcher token) = 1
late retry_watcher = 1
late (get_watcher_metadata is_retry) = 1
late _ = 0

abbrev pub rewatching : Pending → ℕ
rewatching retry_watcher = 1
rewatching _ = 0

-- The steps of which one leads to a bound watcher.
abbrev pub towards_watcher : Pending → ℕ
towards_watcher get_backlog_metadata = 1
towards_watcher (get_commits token) = 1
towards_watcher (batch commits token backlog_downloaded) = 1
towards_watcher retry_start = 1
towards_watcher retry_watcher = 1
towards_watcher (get_watcher_metadata is_retry) = 1
towards_watcher _ = 0

-- A batch that ends with an error.
abbrev pub fails : Pending → Reply → Bool
fails (batch commits token on_done) r = not r.success
fails _ r = false

-- `failed` says whether a batch has ended with an error.
pub record Inv (failed : Bool) (d : PageDownload) : Type 0 where
  pub calls : d.current_get_object_calls ≡ total objects d.pending
  pub one_batch : total batches d.pending + flag failed ≡ flag d.batch_download
  pub queue : (d.batch_download ≡ true) ⊎ (d.commits_to_download ≡ [])
  pub one_watcher : total towards_watcher d.pending + flag d.watcher_bound ≤ 1
  pub bound :
      (d.watcher_bound ≡ false)
      ⊎ (d.commit_state ≡ download_idle)
      ⊎ (d.commit_state ≡ download_in_progress)
  pub rewatch :
      (total rewatching d.pending ≡ 0)
      ⊎ (d.commit_state ≡ download_temporary_error)
      ⊎ (d.commit_state ≡ download_permanent_error)
  pub start :
      (total early d.pending ≡ 0)
      ⊎ ((total early d.pending ≡ 1)
          × (total late d.pending ≡ 0)
          × (d.commits_to_download ≡ [])
          × (failed ≡ false)
          × (((total retrying_start d.pending ≡ 0) × (d.commit_state ≡ download_backlog))
              ⊎ ((total retrying_start d.pending ≡ 1)
                  × (d.commit_state ≡ download_temporary_error))))

pub batches-le : (ps : List Pending) → total batches ps ≤ total early ps + total late ps
batches-le [] = omega arith
batches-le (batch c t backlog_downloaded ∷ ps) = omega (arith, batches-le ps)
batches-le (batch c t acknowledge ∷ ps) = omega (arith, batches-le ps)
batches-le (batch c t nothing ∷ ps) = omega (arith, batches-le ps)
batches-le (p ∷ ps) = omega (arith, batches-le ps)

pub weights-le :
    (ps : List Pending)
    → (total early ps + total rewatching ps ≤ total towards_watcher ps)
      × (total retrying_start ps ≤ total early ps)
      × (total rewatching ps ≤ total late ps)
      × (total towards_watcher ps ≤ total early ps + total late ps)
weights-le [] = omega arith
weights-le (batch c t backlog_downloaded ∷ ps) = omega (arith, weights-le ps)
weights-le (batch c t acknowledge ∷ ps) = omega (arith, weights-le ps)
weights-le (batch c t nothing ∷ ps) = omega (arith, weights-le ps)
weights-le (p ∷ ps) = omega (arith, weights-le ps)

pub Inv-create : Inv false (start_download create)
unfolding start_download create
Inv-create = ground arith

pub Inv-on_new_commits :
    (f : Bool) (commits : List ℕ) (token : String) (d : PageDownload)
    → d.watcher_bound ≡ true
    → Inv f d
    → Reaches (Inv f) (on_new_commits commits token d)
unfolding on_new_commits
Inv-on_new_commits f commits token d w v = ground (arith, weights-le d.pending)

pub Inv-on_error :
    (f : Bool) (status : CloudStatus) (d : PageDownload)
    → d.watcher_bound ≡ true
    → Inv f d
    → Reaches (Inv f) (on_error status d)
unfolding on_error
Inv-on_error f status d w v = ground (arith, weights-le d.pending)

pub Inv-get_object : (f : Bool) (oid : ℕ) (d : PageDownload) → Inv f d → Inv f (get_object oid d)
unfolding get_object
Inv-get_object f oid d v = ground (arith)
