-- ===== src/CloudSync/PageDownload/Callbacks.antt =====
-- The callbacks of bin/ledger/cloud_sync/impl/page_download.cc keep what holds, and fail no debug check.
use Prim.Native.String.{String}
use peridot.Base.{ℕ, Bool, false, not, ◌||◌, List, arith, Reaches}
use peridot.CloudSync.PageDownload.{
  PageDownload, get_backlog_metadata, get_commits, batch, get_watcher_metadata, set_watcher,
  retry_start, retry_watcher, retry_object, get_object_name, get_object_data, read_data,
  decrypt_object, backlog_downloaded, acknowledge, nothing, Reply, send, resume,
}
use peridot.CloudSync.PageDownload.Invariant.{Inv, weights-le, batches-le}

pub Inv-resume-metadata :
    (r : Reply) (f : Bool) (d : PageDownload)
    → Inv f (send get_backlog_metadata d)
    → Reaches (Inv (f || false)) (resume get_backlog_metadata r d)
unfolding resume
Inv-resume-metadata r f d v = ground (arith, weights-le d.pending, batches-le d.pending)

pub Inv-resume-commits :
    (token : String) (r : Reply) (f : Bool) (d : PageDownload)
    → Inv f (send (get_commits token) d)
    → Reaches (Inv (f || false)) (resume (get_commits token) r d)
unfolding resume
Inv-resume-commits token r f d v = ground (arith, weights-le d.pending, batches-le d.pending)

pub Inv-resume-backlog :
    (commits : List ℕ) (token : String) (r : Reply) (f : Bool) (d : PageDownload)
    → Inv f (send (batch commits token backlog_downloaded) d)
    → Reaches (Inv (f || not r.success)) (resume (batch commits token backlog_downloaded) r d)
unfolding resume
Inv-resume-backlog commits token r f d v =
    ground (arith, weights-le d.pending, batches-le d.pending)

pub Inv-resume-acknowledge :
    (commits : List ℕ) (token : String) (r : Reply) (f : Bool) (d : PageDownload)
    → Inv f (send (batch commits token acknowledge) d)
    → Reaches (Inv (f || not r.success)) (resume (batch commits token acknowledge) r d)
unfolding resume
Inv-resume-acknowledge commits token r f d v =
    ground (arith, weights-le d.pending, batches-le d.pending)

pub Inv-resume-nothing :
    (commits : List ℕ) (token : String) (r : Reply) (f : Bool) (d : PageDownload)
    → Inv f (send (batch commits token nothing) d)
    → Reaches (Inv (f || not r.success)) (resume (batch commits token nothing) r d)
unfolding resume
Inv-resume-nothing commits token r f d v =
    ground (arith, weights-le d.pending, batches-le d.pending)

pub Inv-resume-watcher_metadata :
    (is_retry : Bool) (r : Reply) (f : Bool) (d : PageDownload)
    → Inv f (send (get_watcher_metadata is_retry) d)
    → Reaches (Inv (f || false)) (resume (get_watcher_metadata is_retry) r d)
unfolding resume
Inv-resume-watcher_metadata is_retry r f d v =
    ground (arith, weights-le d.pending, batches-le d.pending)

pub Inv-resume-set_watcher :
    (token : String) (r : Reply) (f : Bool) (d : PageDownload)
    → Inv f (send (set_watcher token) d)
    → Reaches (Inv (f || false)) (resume (set_watcher token) r d)
unfolding resume
Inv-resume-set_watcher token r f d v = ground (arith, weights-le d.pending, batches-le d.pending)

pub Inv-resume-retry_start :
    (r : Reply) (f : Bool) (d : PageDownload)
    → Inv f (send retry_start d)
    → Reaches (Inv (f || false)) (resume retry_start r d)
unfolding resume
Inv-resume-retry_start r f d v = ground (arith, weights-le d.pending, batches-le d.pending)

pub Inv-resume-retry_watcher :
    (r : Reply) (f : Bool) (d : PageDownload)
    → Inv f (send retry_watcher d)
    → Reaches (Inv (f || false)) (resume retry_watcher r d)
unfolding resume
Inv-resume-retry_watcher r f d v = ground (arith, weights-le d.pending, batches-le d.pending)

pub Inv-resume-objects :
    (oid : ℕ) (r : Reply) (f : Bool) (d : PageDownload)
    → (Inv f (send (get_object_name oid) d)
        → Reaches (Inv (f || false)) (resume (get_object_name oid) r d))
      × (Inv f (send (get_object_data oid) d)
          → Reaches (Inv (f || false)) (resume (get_object_data oid) r d))
      × (Inv f (send (read_data oid) d) → Reaches (Inv (f || false)) (resume (read_data oid) r d))
      × (Inv f (send (decrypt_object oid) d)
          → Reaches (Inv (f || false)) (resume (decrypt_object oid) r d))
      × (Inv f (send (retry_object oid) d)
          → Reaches (Inv (f || false)) (resume (retry_object oid) r d))
unfolding resume
Inv-resume-objects oid r f d =
    (λ v. ground arith, λ v. ground arith, λ v. ground arith, λ v. ground arith, λ v. ground arith)
