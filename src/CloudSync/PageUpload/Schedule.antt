-- ===== src/CloudSync/PageUpload/Schedule.antt =====
-- Schedules of calls and replies to bin/ledger/cloud_sync/impl/page_upload.cc.
use peridot.Base.{
  if◌then◌else◌, ℕ, ◌≤◌, ◌≡◌, ◌⊎◌, inl, Bool, true, false, ◌||◌, Option, some, List, [], arith,
  total, pick, total-pick, length, subst,
}
use peridot.CloudSync.SyncState.{
  upload_pending, upload_wait_remote_download, upload_permanent_error,
}
use peridot.CloudSync.PageUpload.{
  PageUpload, Pending, get_head_commit_ids, Reply, ChangeSource, local, create, send, start_upload,
  on_new_commits, resume,
}
use peridot.CloudSync.PageUpload.Invariant.{
  Inv, batches, one, fails, last_told, Keeps, Inv-create, Inv-start_upload, Inv-on_new_commits,
  Inv-resume,
}

-- The states that any order of calls and replies can bring about. The storage tells of new commits
-- only what watches it. The index says whether a batch has ended with a permanent error.
pub data Reach : Bool → PageUpload → Type 0 where
  initially : Reach false create
  starts : {f : Bool} {u v : PageUpload} → Reach f u → v ≡ start_upload u → Reach f v
  new_commits :
      {f : Bool} {u v : PageUpload} (source : ChangeSource) (download_idle : Bool)
      → Reach f u
      → u.watching ≡ true
      → v ≡ on_new_commits source download_idle u
      → Reach f v
  reply :
      {f f' : Bool} {u v : PageUpload} (i : ℕ) (r : Reply) (p : Pending) (rest : List Pending)
      → Reach f u
      → pick i u.pending ≡ some (p, rest)
      → f' ≡ (f || fails p r)
      → resume p r (record u { pending = rest }) ≡ some v
      → Reach f' v

pub Inv-pick :
    (i : ℕ) (f : Bool) (u : PageUpload) (p : Pending) (rest : List Pending)
    → pick i u.pending ≡ some (p, rest)
    → Inv f u
    → Inv f (send p (record u { pending = rest }))
Inv-pick i f u p rest e v =
    let b = total-pick batches i u.pending p rest e in
    let o = total-pick one i u.pending p rest e in
    record {
      one_batch = omega (arith, v.one_batch);
      told = v.told;
      retrying = λ _. inl (omega arith);
      live = inl (omega arith);
    }

Inv-after :
    (P : PageUpload → Type 0) (m : Option PageUpload) {t : PageUpload}
    → m ≡ some t
    → Keeps P m
    → P t
Inv-after P m e h = subst (Keeps P) e h

pub Reach-Inv : {f : Bool} {u : PageUpload} → Reach f u → Inv f u
Reach-Inv initially = Inv-create
Reach-Inv (starts {f = f} {u = u} d e) = rw e (Inv-start_upload f u (Reach-Inv d))
Reach-Inv (new_commits {f = f} {u = u} source idle d w e) =
    rw e (Inv-on_new_commits f source idle u (Reach-Inv d))
Reach-Inv (reply {f = f} {u = u} i r p rest d e g h) = rw g (
    Inv-after (Inv (f || fails p r)) (resume p r (record u { pending = rest })) h
      (Inv-resume p r f (record u { pending = rest }) (Inv-pick i f u p rest e (Reach-Inv d))))

-- At most one batch is in flight, `batch_upload_` is set while it is, and none ever starts again once
-- a batch has ended with a permanent error.
pub Reach-one_batch :
    {f : Bool} {u : PageUpload}
    → Reach f u
    → (total batches u.pending ≤ 1)
      × (total batches u.pending ≡ 1 → u.batch_upload ≡ true)
      × (f ≡ true → total batches u.pending ≡ 0)
Reach-one_batch {f} {u} d =
    let v = Reach-Inv d in (ground arith, λ h. ground arith, λ h. ground arith)

-- The delegate has always been told the present state.
pub Reach-told : {f : Bool} {u : PageUpload} → Reach f u → last_told u.states_told ≡ u.state
Reach-told d = (Reach-Inv d).told

-- When a debug check fails: in the callback that counts the heads, with no batch in flight. It is the one
-- on the heads, if the storage returns none, or the one on `commits_to_upload_`, when the download is
-- idle and there is one head, but an earlier callback has reset that flag.
abbrev pub FailsCheck : Pending → Reply → PageUpload → Type 0
FailsCheck (get_head_commit_ids ids) r u =
    (r.ok ≡ true)
    × (u.batch_upload ≡ false)
    × ((r.commits ≡ [])
        ⊎ ((length r.commits ≡ 1) × (u.commits_to_upload ≡ false) × (r.download_idle ≡ true)))
FailsCheck _ r u = ⊥

-- The state of a permanent error is left: local commits that come after a batch has failed for good
-- set the state to pending, or, if the download is not idle, to waiting for it. In both cases nothing is
-- requested and no batch is in flight.
pub on_new_commits_after_failure :
    (u : PageUpload) (download_idle : Bool)
    → Reach true u
    → u.state ≡ upload_permanent_error
    → ((on_new_commits local download_idle u).state
        ≡ (if download_idle then upload_pending else upload_wait_remote_download))
      × ((on_new_commits local download_idle u).pending ≡ u.pending)
      × (total batches u.pending ≡ 0)
unfolding on_new_commits
on_new_commits_after_failure u true d h = let v = Reach-Inv d in ground arith
on_new_commits_after_failure u false d h = let v = Reach-Inv d in ground arith
