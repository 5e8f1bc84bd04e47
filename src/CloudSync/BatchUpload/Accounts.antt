-- ===== src/CloudSync/BatchUpload/Accounts.antt =====
-- What has become of the pieces that the storage listed, over a whole schedule of calls and replies to
-- bin/ledger/cloud_sync/impl/batch_upload.cc.
use peridot.Base.{
  ℕ, ◌+◌, ◌≡◌, refl, false, some, List, [], arith, ◌==◌, if◌then◌else◌, pick, total, total-pick,
  count,
}
use peridot.CloudSync.BatchUpload.{
  BatchUpload, Pending, get_unsynced_pieces, mark_piece_synced, add_commits, Reply, create, start,
}
use peridot.CloudSync.BatchUpload.Invariant.{quiet, uploading-le-handling}
use peridot.CloudSync.BatchUpload.Schedule.{Reach, begin, reply, again, Reach-Inv, Inv-pick}
use peridot.CloudSync.BatchUpload.Objects.{
  carries, held, settled, listed, IsSameObject, reply_conserves_objects, retry_conserves_objects,
}

-- The object that a reply says the storage has marked as synced.
abbrev pub marked : ℕ → Pending → Reply → ℕ
marked x (mark_piece_synced oid) r = if r.ok then (if oid == x then 1 else 0) else 0
marked x _ r = 0

-- The object that a reply says the storage has failed to mark as synced.
abbrev pub dropped : ℕ → Pending → Reply → ℕ
dropped x (mark_piece_synced oid) r = if r.ok then 0 else if oid == x then 1 else 0
dropped x _ r = 0

-- How often an object was listed, marked and failed to be marked, in a whole schedule.
abbrev pub listed_in : ℕ → {lost n : ℕ} {s : BatchUpload} → Reach lost n s → ℕ
listed_in x (begin commits max h w e) = 0
listed_in x (reply i r p rest d e h eq g) = listed_in x d + listed x p r
listed_in x (again d e h) = listed_in x d

abbrev pub marked_in : ℕ → {lost n : ℕ} {s : BatchUpload} → Reach lost n s → ℕ
marked_in x (begin commits max h w e) = 0
marked_in x (reply i r p rest d e h eq g) = marked_in x d + marked x p r
marked_in x (again d e h) = marked_in x d

abbrev pub dropped_in : ℕ → {lost n : ℕ} {s : BatchUpload} → Reach lost n s → ℕ
dropped_in x (begin commits max h w e) = 0
dropped_in x (reply i r p rest d e h eq g) = dropped_in x d + dropped x p r
dropped_in x (again d e h) = dropped_in x d

-- The storage has always returned the object that it was asked for.
abbrev pub AreSameObjects : {lost n : ℕ} {s : BatchUpload} → Reach lost n s → Type 0
AreSameObjects (begin commits max h w e) = Unit
AreSameObjects (reply i r p rest d e h eq g) = AreSameObjects d × IsSameObject p r
AreSameObjects (again d e h) = AreSameObjects d

settled-split : (x : ℕ) (p : Pending) (r : Reply) → marked x p r + dropped x p r ≡ settled x p
settled-split x (mark_piece_synced oid) r = ground arith
settled-split x get_unsynced_pieces r = refl
settled-split x p r = refl

held-start :
    (x : ℕ) (commits : List ℕ) (max : ℕ) (s : BatchUpload)
    → start (create commits max) ≡ some s
    → held x s ≡ 0
unfolding start create
held-start x commits max s e = ground arith

-- Over any schedule with retries, in which the storage returns the objects that it is asked for, each
-- time that an object was listed is accounted for: it waits or is in flight, or `MarkPieceSynced` has
-- succeeded for it, or has failed for it.
pub objects_accounted :
    {lost n : ℕ} {s : BatchUpload} (x : ℕ) (d : Reach lost n s)
    → AreSameObjects d
    → held x s + (marked_in x d + dropped_in x d) ≡ listed_in x d
objects_accounted x (begin commits max {s = s} h w e) same =
    omega (arith, held-start x commits max s e)
objects_accounted x (reply {s = s} {t = t} i r p rest d e h eq g) same = omega (
  arith,
  objects_accounted x d same.0,
  settled-split x p r,
  reply_conserves_objects x i r p rest d e same.1 g,
)
objects_accounted x (again {s = s} {t = t} d e h) same =
    omega (arith, objects_accounted x d same, retry_conserves_objects x s t h)

-- When a batch of commits is being sent to the cloud, no object waits and nothing else is in flight,
-- `errored_` is not set, and for each time that an object was listed `MarkPieceSynced` has answered, be
-- it with success or with a failure. The storage returns the objects that it is asked for.
pub add_commits_last :
    {lost n : ℕ} {s : BatchUpload} (x i : ℕ) (ids : List ℕ) (rest : List Pending)
    (d : Reach lost n s)
    → AreSameObjects d
    → pick i s.pending ≡ some (add_commits ids, rest)
    → (s.remaining ≡ [])
      × (rest ≡ [])
      × (s.errored ≡ false)
      × (s.current_uploads ≡ 0)
      × (marked_in x d + dropped_in x d ≡ listed_in x d)
add_commits_last {lost} {n} {s} x i ids rest d same e =
    let v = Inv-pick i lost n s (add_commits ids) rest e (Reach-Inv d) in
    let none_waits : s.remaining ≡ [] = ground arith in
    let none_else : rest ≡ [] = ground (arith, quiet rest) in
    let u : s.current_uploads ≡ 0 = ground (arith, uploading-le-handling rest) in
    let c : count x s.remaining ≡ 0 = rw none_waits refl in
    let k : total (carries x) rest ≡ 0 = rw none_else refl in
    (
      none_waits,
      none_else,
      ground arith,
      u,
      omega (
        arith,
        objects_accounted x d same,
        total-pick (carries x) i s.pending (add_commits ids) rest e,
      ),
    )
