-- ===== src/CloudSync/BatchUpload/Attempt.antt =====
-- `StartObjectUpload` of bin/ledger/cloud_sync/impl/batch_upload.cc: the start of an attempt, and the
-- loop that fills the free upload slots.
use peridot.Base.{
  ℕ, zero, suc, ◌+◌, ◌^◌, ◌≤◌, ◌<◌, ◌≡◌, refl, ◌≢◌, ◌⊎◌, inl, inr, ◌∙◌, true, false, not, ◌&&◌,
  List, [], ◌∷◌, arith, ltb, length, is_empty, total, Reaches, Reaches-bind, Reaches-mono,
  Bool-cases,
}
use peridot.CloudSync.BatchUpload.{
  BatchUpload, get_unsynced_pieces, Reply, send, resume, upload_next_object, upload_loop,
  start_object_upload,
}
use peridot.CloudSync.BatchUpload.Invariant.{
  uploading, handling, alone, busy, Inv, quiet, busy-le-one,
}

-- Between two rounds of the loop of `StartObjectUpload`: every request in flight is an upload, and
-- there is one or the loop will make one.
record Uploading (s : BatchUpload) : Type 0 where
  begun : s.started ≡ true
  uploads : s.current_uploads ≡ total uploading s.pending
  handled : s.current_objects_handled ≡ total handling s.pending
  all_uploads : total handling s.pending ≡ total uploading s.pending
  room : s.current_uploads ≤ s.max_concurrent_uploads
  word : s.max_concurrent_uploads < 2 ^ 32
  none_alone : total alone s.pending ≡ 0

record AfterRound (s : BatchUpload) (rest : List ℕ) (t : BatchUpload) : Type 0 where
  inside : Uploading t
  rest_left : t.remaining ≡ rest
  under_way : busy t.pending ≡ 1
  same_max : t.max_concurrent_uploads ≡ s.max_concurrent_uploads
  same_reports : t.reports ≡ s.reports

-- Each round takes one object from `remaining`.
Uploading-next :
    (s : BatchUpload) (oid : ℕ) (rest : List ℕ)
    → s.remaining ≡ oid ∷ rest
    → s.current_uploads < s.max_concurrent_uploads
    → Uploading s
    → Reaches (AfterRound s rest) (upload_next_object s)
unfolding upload_next_object
Uploading-next s oid rest e h u = ground arith

-- What the loop leaves: it stops by its test, and some upload is in flight.
record LoopDone (s t : BatchUpload) : Type 0 where
  inside : Uploading t
  stopped : (t.current_uploads ≡ t.max_concurrent_uploads) ⊎ (t.remaining ≡ [])
  same_max : t.max_concurrent_uploads ≡ s.max_concurrent_uploads
  same_reports : t.reports ≡ s.reports
  under_way : busy s.pending ≤ busy t.pending
  begun : s.remaining ≢ [] → s.current_uploads < s.max_concurrent_uploads → busy t.pending ≡ 1

LoopDone-stop :
    (s : BatchUpload)
    → Uploading s
    → (ltb s.current_uploads s.max_concurrent_uploads && not (is_empty s.remaining)) ≡ false
    → LoopDone s s
LoopDone-stop s u h = record {
  inside = u;
  stopped = ground arith;
  same_max = refl;
  same_reports = refl;
  under_way = omega arith;
  begun = λ more room. ground arith;
}

LoopDone-after :
    (s t v : BatchUpload) (rest : List ℕ) → AfterRound s rest t → LoopDone t v → LoopDone s v
LoopDone-after s t v rest n d = record {
  inside = d.inside;
  stopped = d.stopped;
  same_max = d.same_max ∙ n.same_max;
  same_reports = d.same_reports ∙ n.same_reports;
  under_way = omega (arith, busy-le-one s.pending, d.under_way);
  begun = λ more room. omega (arith, busy-le-one v.pending, d.under_way);
}

LoopDone-loop :
    (fuel : ℕ) (rs : List ℕ) (s : BatchUpload)
    → s.remaining ≡ rs
    → Uploading s
    → length rs ≤ fuel
    → Reaches (LoopDone s) (upload_loop fuel s)
unfolding upload_loop
LoopDone-loop zero [] s e u h = LoopDone-stop s u (ground arith)
LoopDone-loop zero (oid ∷ rest) s e u h = absurd (omega arith)
LoopDone-loop (suc f) [] s e u h =
    elim (Bool-cases
      (ltb s.current_uploads s.max_concurrent_uploads && not (is_empty s.remaining))) [
        | inl more ↦ ground arith
        | inr stop ↦ rw (stop, Reaches) (LoopDone-stop s u stop)
      ]
LoopDone-loop (suc f) (oid ∷ rest) s e u h =
    elim (Bool-cases
      (ltb s.current_uploads s.max_concurrent_uploads && not (is_empty s.remaining))) [
        | inl more ↦
            rw (more, Reaches)
              (Reaches-bind (AfterRound s rest) (LoopDone s) (upload_next_object s) (upload_loop f)
                (Uploading-next s oid rest e (ground arith) u)
                λ t n.
                  Reaches-mono (LoopDone t) (LoopDone s) (upload_loop f t)
                    (LoopDone-loop f rest t n.rest_left n.inside (omega arith))
                    λ v d. LoopDone-after s t v rest n d)
        | inr stop ↦ rw (stop, Reaches) (LoopDone-stop s u stop)
      ]

-- A new attempt may begin: nothing is in flight.
pub record Ready (n : ℕ) (s : BatchUpload) : Type 0 where
  pub begun : s.started ≡ true
  pub uploads : s.current_uploads ≡ 0
  pub handled : s.current_objects_handled ≡ 0
  pub quiet : s.pending ≡ []
  pub word : s.max_concurrent_uploads < 2 ^ 32
  pub some_room : 0 < s.max_concurrent_uploads
  pub clean : s.errored ≡ false
  pub reported : length s.reports + 1 ≡ n

Ready-Uploading : (n : ℕ) (s : BatchUpload) → Ready n s → Uploading s
Ready-Uploading n s h = ground arith

LoopDone-Inv : (n : ℕ) (s t : BatchUpload) → s.remaining ≢ [] → Ready n s → LoopDone s t → Inv 0 n t
LoopDone-Inv n s t more h d = let b = d.begun more (ground arith) in ground arith

Inv-upload_loop :
    (n : ℕ) (s : BatchUpload)
    → s.remaining ≢ []
    → Ready n s
    → Reaches (Inv 0 n) (upload_loop (length s.remaining) s)
Inv-upload_loop n s more h =
    Reaches-mono (LoopDone s) (Inv 0 n) (upload_loop (length s.remaining) s)
      (LoopDone-loop (length s.remaining) s.remaining s refl (Ready-Uploading n s h) (omega arith))
      λ t d. LoopDone-Inv n s t more h d

-- An attempt that begins with nothing in flight never fails a debug check.
pub Inv-start_object_upload :
    (n : ℕ) (s : BatchUpload) → Ready n s → Reaches (Inv 0 n) (start_object_upload s)
unfolding start_object_upload
Inv-start_object_upload n s h = ground (arith, Inv-upload_loop n s)

pub Inv-resume-unsynced_pieces :
    (r : Reply) (n : ℕ) (s : BatchUpload)
    → Inv 0 n (send get_unsynced_pieces s)
    → Reaches (Inv 0 n) (resume get_unsynced_pieces r s)
unfolding resume
Inv-resume-unsynced_pieces r n s v =
    ground (arith, quiet s.pending, Inv-start_object_upload n (record s { remaining = r.ids }))

-- An attempt fills the upload slots: afterwards either `max_concurrent_uploads_` uploads are in
-- flight, or no object waits.
pub start_object_upload_saturates :
    (n : ℕ) (s : BatchUpload)
    → Ready n s
    → s.remaining ≢ []
    → Reaches
        (λ t. (t.current_uploads ≡ s.max_concurrent_uploads) ⊎ (t.remaining ≡ []))
        (start_object_upload s)
unfolding start_object_upload
start_object_upload_saturates n s h more = ground (
  arith,
  Reaches-mono (LoopDone s)
      (λ t. (t.current_uploads ≡ s.max_concurrent_uploads) ⊎ (t.remaining ≡ []))
      (upload_loop (length s.remaining) s)
      (LoopDone-loop (length s.remaining) s.remaining s refl (Ready-Uploading n s h) (omega arith))
      (λ t d. ground arith),
)
