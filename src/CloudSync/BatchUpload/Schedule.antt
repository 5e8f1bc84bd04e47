-- ===== src/CloudSync/BatchUpload/Schedule.antt =====
-- Schedules of replies to a batch upload (bin/ledger/cloud_sync/impl/batch_upload.cc), with retries.
use peridot.Base.{
  ℕ, suc, ◌+◌, ◌^◌, ◌≤◌, ◌<◌, ◌≡◌, refl, ◌≢◌, ◌⊎◌, true, false, some, List, [], arith, length, pick,
  total, total-pick, Reaches, Reaches-eq, Reaches-some, subst,
}
use peridot.CloudSync.BatchUpload.{
  BatchUpload, Pending, get_unsynced_pieces, get_object_name, get_piece, encrypt_object, add_object,
  mark_piece_synced, get_unsynced_commits, encrypt_commits, add_commits, mark_commits_synced, Reply,
  temporary, send, create, start, retry, resume, step, start_object_upload,
}
use peridot.CloudSync.BatchUpload.Invariant.{
  uploading, handling, alone, Inv, leak, IsReadable, weight_one, le-busy, busy-cases,
}
use peridot.CloudSync.BatchUpload.Callbacks
use peridot.CloudSync.BatchUpload.Attempt

-- Every callback keeps the invariant and fails no debug check.
pub Inv-resume :
    (p : Pending) (r : Reply) (lost n : ℕ) (s : BatchUpload)
    → IsReadable p r
    → Inv lost n (send p s)
    → Reaches (Inv (lost + leak p r) n) (resume p r s)
Inv-resume get_unsynced_pieces r lost n s h v =
    let z : lost ≡ 0 = ground (arith, v.forgetful, v.phase) in
    let e : lost + 0 ≡ 0 = omega arith in
    rw e (
      Attempt.Inv-resume-unsynced_pieces r n s
        (subst (λ l. Inv l n (send get_unsynced_pieces s)) z v))
Inv-resume (get_object_name oid) r lost n s h v = Callbacks.Inv-resume-name oid r lost n s v
Inv-resume (get_piece oid name) r lost n s h v = Callbacks.Inv-resume-piece oid name r lost n s h v
Inv-resume (encrypt_object oid name) r lost n s h v =
    Callbacks.Inv-resume-encrypt oid name r lost n s v
Inv-resume (add_object oid name content) r lost n s h v =
    Callbacks.Inv-resume-add oid name content r lost n s v
Inv-resume (mark_piece_synced oid) r lost n s h v =
    Callbacks.Inv-resume-piece_synced oid r lost n s v
Inv-resume get_unsynced_commits r lost n s h v = Callbacks.Inv-resume-unsynced_commits r lost n s v
Inv-resume (encrypt_commits ids left) r lost n s h v =
    Callbacks.Inv-resume-encrypt_commits ids left r lost n s v
Inv-resume (add_commits ids) r lost n s h v = Callbacks.Inv-resume-add_commits ids r lost n s v
Inv-resume (mark_commits_synced ids left) r lost n s h v =
    Callbacks.Inv-resume-commits_synced ids left r lost n s v

-- The states that a client can bring about which calls `Start` once, and `Retry` only when nothing
-- is in flight; the replies arrive in any order. `lost` and `attempts` count as in `Inv`.
pub data Reach : ℕ → ℕ → BatchUpload → Type 0 where
  begin :
      (commits : List ℕ) (max : ℕ) {s : BatchUpload}
      → 0 < max
      → max < 2 ^ 32
      → start (create commits max) ≡ some s
      → Reach 0 1 s
  reply :
      {lost n lost' : ℕ} {s t : BatchUpload} (i : ℕ) (r : Reply) (p : Pending) (rest : List Pending)
      → Reach lost n s
      → pick i s.pending ≡ some (p, rest)
      → IsReadable p r
      → lost' ≡ lost + leak p r
      → resume p r (record s { pending = rest }) ≡ some t
      → Reach lost' n t
  again :
      {lost n : ℕ} {s t : BatchUpload}
      → Reach lost n s
      → s.pending ≡ []
      → retry s ≡ some t
      → Reach lost (suc n) t

pub Inv-pick :
    (i lost n : ℕ) (s : BatchUpload) (p : Pending) (rest : List Pending)
    → pick i s.pending ≡ some (p, rest)
    → Inv lost n s
    → Inv lost n (send p (record s { pending = rest }))
Inv-pick i lost n s p rest e v =
    let u = total-pick uploading i s.pending p rest e in
    let h = total-pick handling i s.pending p rest e in
    let a = total-pick alone i s.pending p rest e in ground (arith, weight_one p, le-busy s.pending)

Inv-start :
    (commits : List ℕ) (max : ℕ)
    → 0 < max
    → max < 2 ^ 32
    → Reaches (Inv 0 1) (start (create commits max))
unfolding start create
Inv-start commits max h w = ground arith

retry_needs : (s t : BatchUpload) → retry s ≡ some t → (s.errored ≡ true) × (s.current_uploads ≡ 0)
unfolding retry start_object_upload
retry_needs s t e = ground arith

pub Inv-retry :
    (n : ℕ) (s : BatchUpload)
    → s.pending ≡ []
    → s.errored ≡ true
    → Inv 0 n s
    → Reaches (Inv 0 (suc n)) (retry s)
unfolding retry
Inv-retry n s e h v = ground (
  arith,
  Attempt.Inv-start_object_upload (suc n) (record s { errored = false; error_type = temporary }),
)

Inv-again :
    (lost n : ℕ) (s t : BatchUpload)
    → s.pending ≡ []
    → Inv lost n s
    → retry s ≡ some t
    → Inv lost (suc n) t
Inv-again lost n s t e v h =
    let (x, z) = retry_needs s t h in
    let l : lost ≡ 0 = omega (arith, v.uploads) in
    rw l (Reaches-eq (Inv 0 (suc n)) (retry s) h (Inv-retry n s e x (subst (λ k. Inv k n s) l v)))

-- The invariant holds of every state that a client can bring about.
pub Reach-Inv : {lost n : ℕ} {s : BatchUpload} → Reach lost n s → Inv lost n s
Reach-Inv (begin commits max h w e) =
    Reaches-eq (Inv 0 1) (start (create commits max)) e (Inv-start commits max h w)
Reach-Inv {n = n} (reply {lost = l} {s = s} {t = t} i r p rest d e readable eq h) = rw eq (
    Reaches-eq (Inv (l + leak p r) n) (resume p r (record s { pending = rest })) h (
      Inv-resume p r l n (record s { pending = rest }) readable
        (Inv-pick i l n s p rest e (Reach-Inv d))))
Reach-Inv (again {lost = l} {n = n} {s = s} {t = t} d e h) = Inv-again l n s t e (Reach-Inv d) h

-- Whatever has happened, the next reply fails no debug check, as long as the storage can read the
-- pieces that it listed.
pub Reach-resume :
    {lost n : ℕ} {s : BatchUpload} (i : ℕ) (r : Reply) (p : Pending) (rest : List Pending)
    → Reach lost n s
    → pick i s.pending ≡ some (p, rest)
    → IsReadable p r
    → (t : BatchUpload) × (step i r s ≡ some t) × Reach (lost + leak p r) n t
unfolding step
Reach-resume {lost} {n} {s} i r p rest d e readable =
    let v = Inv-pick i lost n s p rest e (Reach-Inv d) in
    let m = resume p r (record s { pending = rest }) in
    let (t, h, _) =
      Reaches-some (Inv (lost + leak p r) n) m
        (Inv-resume p r lost n (record s { pending = rest }) readable v) in
    (t, rw e h, reply i r p rest d e readable refl h)

-- Each call of `Start` or `Retry` is reported once: either all of them have been, and no reply is
-- awaited, or all but the last, and some reply is.
pub Reach-report :
    {lost n : ℕ} {s : BatchUpload}
    → Reach lost n s
    → (length s.reports ≡ n × (s.pending ≡ [])) ⊎ (length s.reports + 1 ≡ n × (s.pending ≢ []))
Reach-report {s = s} d = let v = Reach-Inv d in ground (arith, busy-cases s.pending)

-- `current_objects_handled_` counts the objects that are being named, read, encrypted, uploaded or marked
-- as synced, and there are at most `max_concurrent_uploads_` of them.
pub Reach-bounded :
    {lost n : ℕ} {s : BatchUpload}
    → Reach lost n s
    → (s.current_objects_handled ≡ total handling s.pending)
      × (total handling s.pending ≤ s.max_concurrent_uploads)
Reach-bounded {s = s} d = let v = Reach-Inv d in (v.handled, omega (arith, v.room))
