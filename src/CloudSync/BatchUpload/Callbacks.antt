-- ===== src/CloudSync/BatchUpload/Callbacks.antt =====
-- The callbacks of bin/ledger/cloud_sync/impl/batch_upload.cc that start no loop, one by one.
use Prim.Native.String.{String}
use peridot.Base.{
  ℕ, ◌+◌, ◌-◌, ◌^◌, ◌≤◌, ◌<◌, ◌≡◌, ◌⊎◌, Bool, true, false, List, arith, length, total, Reaches,
}
use peridot.CloudSync.BatchUpload.{
  BatchUpload, get_object_name, get_piece, encrypt_object, add_object, mark_piece_synced,
  get_unsynced_commits, encrypt_commits, add_commits, mark_commits_synced, Reply, permanent, send,
  resume, piece_synced, after_piece_synced,
}
use peridot.CloudSync.BatchUpload.Invariant.{
  uploading, handling, alone, Inv, leak, IsReadable, uploading-le-handling, busy-le, le-busy,
}

pub Inv-resume-name :
    (oid : ℕ) (r : Reply) (lost n : ℕ) (s : BatchUpload)
    → Inv lost n (send (get_object_name oid) s)
    → Reaches (Inv (lost + leak (get_object_name oid) r) n) (resume (get_object_name oid) r s)
unfolding resume
Inv-resume-name oid r lost n s v = ground arith

pub Inv-resume-piece :
    (oid : ℕ) (name : String) (r : Reply) (lost n : ℕ) (s : BatchUpload)
    → IsReadable (get_piece oid name) r
    → Inv lost n (send (get_piece oid name) s)
    → Reaches (Inv (lost + 0) n) (resume (get_piece oid name) r s)
unfolding resume
Inv-resume-piece oid name r lost n s h v = ground arith

pub Inv-resume-encrypt :
    (oid : ℕ) (name : String) (r : Reply) (lost n : ℕ) (s : BatchUpload)
    → Inv lost n (send (encrypt_object oid name) s)
    → Reaches
        (Inv (lost + leak (encrypt_object oid name) r) n)
        (resume (encrypt_object oid name) r s)
unfolding resume
Inv-resume-encrypt oid name r lost n s v = ground arith

pub Inv-resume-add :
    (oid : ℕ) (name content : String) (r : Reply) (lost n : ℕ) (s : BatchUpload)
    → Inv lost n (send (add_object oid name content) s)
    → Reaches (Inv (lost + 0) n) (resume (add_object oid name content) r s)
unfolding resume
Inv-resume-add oid name content r lost n s v = ground arith

pub Inv-resume-unsynced_commits :
    (r : Reply) (lost n : ℕ) (s : BatchUpload)
    → Inv lost n (send get_unsynced_commits s)
    → Reaches (Inv (lost + 0) n) (resume get_unsynced_commits r s)
unfolding resume
Inv-resume-unsynced_commits r lost n s v = ground arith

pub Inv-resume-encrypt_commits :
    (ids : List ℕ) (left : ℕ) (r : Reply) (lost n : ℕ) (s : BatchUpload)
    → Inv lost n (send (encrypt_commits ids left) s)
    → Reaches (Inv (lost + 0) n) (resume (encrypt_commits ids left) r s)
unfolding resume
Inv-resume-encrypt_commits ids left r lost n s v = ground arith

pub Inv-resume-add_commits :
    (ids : List ℕ) (r : Reply) (lost n : ℕ) (s : BatchUpload)
    → Inv lost n (send (add_commits ids) s)
    → Reaches (Inv (lost + 0) n) (resume (add_commits ids) r s)
unfolding resume
Inv-resume-add_commits ids r lost n s v = ground arith

pub Inv-resume-commits_synced :
    (ids : List ℕ) (left : ℕ) (r : Reply) (lost n : ℕ) (s : BatchUpload)
    → Inv lost n (send (mark_commits_synced ids left) s)
    → Reaches (Inv (lost + 0) n) (resume (mark_commits_synced ids left) r s)
unfolding resume
Inv-resume-commits_synced ids left r lost n s v = ground arith

-- After `current_objects_handled_--` in the callback of `MarkPieceSynced`.
record Marked (lost n : ℕ) (s : BatchUpload) : Type 0 where
  begun : s.started ≡ true
  uploads : s.current_uploads ≡ total uploading s.pending + lost
  handled : s.current_objects_handled ≡ total handling s.pending
  room : total handling s.pending + 1 + lost ≤ s.max_concurrent_uploads
  word : s.max_concurrent_uploads < 2 ^ 32
  none_alone : total alone s.pending ≡ 0
  forgetful : (lost ≡ 0) ⊎ (s.errored ≡ true)
  unreported : length s.reports + 1 ≡ n

Inv-after_piece_synced :
    (lost n : ℕ) (s : BatchUpload)
    → Marked lost n s
    → Reaches (Inv (lost + 0) n) (after_piece_synced s)
unfolding after_piece_synced
Inv-after_piece_synced lost n s m =
    ground (arith, uploading-le-handling s.pending, busy-le s.pending, le-busy s.pending)

Inv-piece_synced :
    (ok : Bool) (oid lost n : ℕ) (s : BatchUpload)
    → Inv lost n (send (mark_piece_synced oid) s)
    → Reaches (Inv (lost + 0) n) (piece_synced ok s)
unfolding piece_synced
Inv-piece_synced true oid lost n s v = ground (
  arith,
  Inv-after_piece_synced lost n
      (record s { current_objects_handled = s.current_objects_handled - 1 }) (ground arith),
)
Inv-piece_synced false oid lost n s v = ground (
  arith,
  Inv-after_piece_synced lost n
      (record s {
        current_objects_handled = s.current_objects_handled - 1;
        errored = true;
        error_type = permanent;
      })
      (ground arith),
)

pub Inv-resume-piece_synced :
    (oid : ℕ) (r : Reply) (lost n : ℕ) (s : BatchUpload)
    → Inv lost n (send (mark_piece_synced oid) s)
    → Reaches (Inv (lost + 0) n) (resume (mark_piece_synced oid) r s)
unfolding resume
Inv-resume-piece_synced oid r lost n s v = Inv-piece_synced r.ok oid lost n s v
