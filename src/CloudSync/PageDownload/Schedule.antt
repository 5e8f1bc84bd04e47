-- ===== src/CloudSync/PageDownload/Schedule.antt =====
-- Schedules of calls and replies to bin/ledger/cloud_sync/impl/page_download.cc.
use Prim.Native.String.{String}
use peridot.Base.{
  ℕ, ◌≤◌, ◌≡◌, refl, ◌⊎◌, Bool, true, false, ◌||◌, some, List, arith, total, pick, total-pick,
  Reaches, Reaches-eq, Reaches-some,
}
use peridot.CloudSync.SyncState.{download_idle, download_in_progress}
use peridot.CloudSync.PageDownload.{
  PageDownload, Pending, get_backlog_metadata, get_commits, batch, get_watcher_metadata,
  set_watcher, retry_start, retry_watcher, retry_object, get_object_name, get_object_data,
  read_data, decrypt_object, backlog_downloaded, acknowledge, nothing, Reply, CloudStatus, create,
  send, start_download, on_new_commits, on_error, get_object, resume,
}
use peridot.CloudSync.PageDownload.Invariant.{
  Inv, batches, objects, early, late, retrying_start, rewatching, towards_watcher, fails,
  Inv-create, Inv-on_new_commits, Inv-on_error, Inv-get_object,
}
use peridot.CloudSync.PageDownload.Callbacks

-- Every callback keeps what holds and fails no debug check.
pub Inv-resume :
    (p : Pending) (r : Reply) (f : Bool) (d : PageDownload)
    → Inv f (send p d)
    → Reaches (Inv (f || fails p r)) (resume p r d)
Inv-resume get_backlog_metadata r f d v = Callbacks.Inv-resume-metadata r f d v
Inv-resume (get_commits token) r f d v = Callbacks.Inv-resume-commits token r f d v
Inv-resume (batch c t backlog_downloaded) r f d v = Callbacks.Inv-resume-backlog c t r f d v
Inv-resume (batch c t acknowledge) r f d v = Callbacks.Inv-resume-acknowledge c t r f d v
Inv-resume (batch c t nothing) r f d v = Callbacks.Inv-resume-nothing c t r f d v
Inv-resume (get_watcher_metadata is_retry) r f d v =
    Callbacks.Inv-resume-watcher_metadata is_retry r f d v
Inv-resume (set_watcher token) r f d v = Callbacks.Inv-resume-set_watcher token r f d v
Inv-resume retry_start r f d v = Callbacks.Inv-resume-retry_start r f d v
Inv-resume retry_watcher r f d v = Callbacks.Inv-resume-retry_watcher r f d v
Inv-resume (get_object_name oid) r f d v = (Callbacks.Inv-resume-objects oid r f d).0 v
Inv-resume (get_object_data oid) r f d v = (Callbacks.Inv-resume-objects oid r f d).1 v
Inv-resume (read_data oid) r f d v = (Callbacks.Inv-resume-objects oid r f d).2 v
Inv-resume (decrypt_object oid) r f d v = (Callbacks.Inv-resume-objects oid r f d).3 v
Inv-resume (retry_object oid) r f d v = (Callbacks.Inv-resume-objects oid r f d).4 v

-- The states that any order of calls and replies can bring about after `StartDownload`. The cloud
-- calls the watcher only while it is bound. The index says whether a batch has ended with an error.
pub data Reach : Bool → PageDownload → Type 0 where
  started : {d : PageDownload} → d ≡ start_download create → Reach false d
  new_commits :
      {f : Bool} {d e : PageDownload} (commits : List ℕ) (token : String)
      → Reach f d
      → d.watcher_bound ≡ true
      → on_new_commits commits token d ≡ some e
      → Reach f e
  watcher_error :
      {f : Bool} {d e : PageDownload} (status : CloudStatus)
      → Reach f d
      → d.watcher_bound ≡ true
      → on_error status d ≡ some e
      → Reach f e
  object_wanted :
      {f : Bool} {d e : PageDownload} (oid : ℕ) → Reach f d → e ≡ get_object oid d → Reach f e
  reply :
      {f f' : Bool} {d e : PageDownload} (i : ℕ) (r : Reply) (p : Pending) (rest : List Pending)
      → Reach f d
      → pick i d.pending ≡ some (p, rest)
      → f' ≡ (f || fails p r)
      → resume p r (record d { pending = rest }) ≡ some e
      → Reach f' e

pub Inv-pick :
    (i : ℕ) (f : Bool) (d : PageDownload) (p : Pending) (rest : List Pending)
    → pick i d.pending ≡ some (p, rest)
    → Inv f d
    → Inv f (send p (record d { pending = rest }))
Inv-pick i f d p rest e v =
    let a = total-pick batches i d.pending p rest e in
    let b = total-pick objects i d.pending p rest e in
    let c = total-pick early i d.pending p rest e in
    let g = total-pick late i d.pending p rest e in
    let h = total-pick retrying_start i d.pending p rest e in
    let k = total-pick rewatching i d.pending p rest e in
    let l = total-pick towards_watcher i d.pending p rest e in ground arith

pub Reach-Inv : {f : Bool} {d : PageDownload} → Reach f d → Inv f d
Reach-Inv (started e) = rw e Inv-create
Reach-Inv (new_commits {f = f} {d = d} commits token q w e) =
    Reaches-eq (Inv f) (on_new_commits commits token d) e
      (Inv-on_new_commits f commits token d w (Reach-Inv q))
Reach-Inv (watcher_error {f = f} {d = d} status q w e) =
    Reaches-eq (Inv f) (on_error status d) e (Inv-on_error f status d w (Reach-Inv q))
Reach-Inv (object_wanted {f = f} {d = d} oid q e) = rw e (Inv-get_object f oid d (Reach-Inv q))
Reach-Inv (reply {f = f} {d = d} i r p rest q e g h) = rw g (
    Reaches-eq (Inv (f || fails p r)) (resume p r (record d { pending = rest })) h
      (Inv-resume p r f (record d { pending = rest }) (Inv-pick i f d p rest e (Reach-Inv q))))

-- No order of calls and replies fails a debug check: the reply to any request, a notification of new
-- commits and a notification of an error lead to a state that is again of the kind.
pub Reach-next :
    {f : Bool} {d : PageDownload}
    → Reach f d
    → ((i : ℕ) (r : Reply) (p : Pending) (rest : List Pending)
        → pick i d.pending ≡ some (p, rest)
        → (e : PageDownload) × (resume p r (record d { pending = rest }) ≡ some e)
          × Reach (f || fails p r) e)
      × ((commits : List ℕ) (token : String)
          → d.watcher_bound ≡ true
          → (e : PageDownload) × (on_new_commits commits token d ≡ some e) × Reach f e)
      × ((status : CloudStatus)
          → d.watcher_bound ≡ true
          → (e : PageDownload) × (on_error status d ≡ some e) × Reach f e)
Reach-next {f} {d} q = (
  λ i r p rest e.
      (let m = resume p r (record d { pending = rest }) in
        let (t, h, _) = Reaches-some (Inv (f || fails p r)) m (
          Inv-resume p r f (record d { pending = rest }) (Inv-pick i f d p rest e (Reach-Inv q))) in
        (t, h, reply i r p rest q e refl h)),
  λ commits token w.
      (let (t, h, _) =
          Reaches-some (Inv f) (on_new_commits commits token d)
            (Inv-on_new_commits f commits token d w (Reach-Inv q)) in
        (t, h, new_commits commits token q w h)),
  λ status w.
      (let (t, h, _) =
          Reaches-some (Inv f) (on_error status d) (Inv-on_error f status d w (Reach-Inv q)) in
        (t, h, watcher_error status q w h)),
)

-- `current_get_object_calls_` counts the objects on their way, at most one batch is in flight, and a
-- bound watcher goes with an idle or busy state.
pub Reach-counts :
    {f : Bool} {d : PageDownload}
    → Reach f d
    → (d.current_get_object_calls ≡ total objects d.pending)
      × (total batches d.pending ≤ 1)
      × (d.watcher_bound ≡ true
          → (d.commit_state ≡ download_idle) ⊎ (d.commit_state ≡ download_in_progress))
Reach-counts {f} {d} q = let v = Reach-Inv q in (v.calls, ground arith, λ h. ground arith)
