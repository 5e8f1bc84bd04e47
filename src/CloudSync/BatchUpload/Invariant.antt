-- ===== src/CloudSync/BatchUpload/Invariant.antt =====
-- What holds of a batch upload (bin/ledger/cloud_sync/impl/batch_upload.cc) between two replies,
-- whatever the order in which they arrive.
use peridot.Base.{
  ℕ, ◌+◌, ◌^◌, ◌≤◌, ◌<◌, ◌≡◌, refl, ◌≢◌, ◌⊎◌, inl, inr, true, false, ◌&&◌, List, [], ◌∷◌, arith,
  if◌then◌else◌, length, total,
}
use peridot.CloudSync.BatchUpload.{
  BatchUpload, Pending, get_unsynced_pieces, get_object_name, get_piece, encrypt_object, add_object,
  mark_piece_synced, get_unsynced_commits, encrypt_commits, add_commits, mark_commits_synced, Reply,
}

-- An object between `UploadNextObject` and the callback of `AddObject`.
abbrev pub uploading : Pending → ℕ
uploading (get_object_name oid) = 1
uploading (get_piece oid name) = 1
uploading (encrypt_object oid name) = 1
uploading (add_object oid name content) = 1
uploading _ = 0

-- An object being handled at all.
abbrev pub handling : Pending → ℕ
handling (get_object_name oid) = 1
handling (get_piece oid name) = 1
handling (encrypt_object oid name) = 1
handling (add_object oid name content) = 1
handling (mark_piece_synced oid) = 1
handling _ = 0

-- A request of the phases that are not about single objects.
abbrev pub alone : Pending → ℕ
alone get_unsynced_pieces = 1
alone get_unsynced_commits = 1
alone (encrypt_commits ids left) = 1
alone (add_commits ids) = 1
alone (mark_commits_synced ids left) = 1
alone _ = 0

abbrev pub busy : List Pending → ℕ
busy [] = 0
busy (p ∷ rest) = 1

-- `lost` counts the uploads that ended without `current_uploads_` going down, `attempts` the calls
-- of `Start` and `Retry`.
pub record Inv (lost attempts : ℕ) (s : BatchUpload) : Type 0 where
  pub begun : s.started ≡ true
  pub uploads : s.current_uploads ≡ total uploading s.pending + lost
  pub handled : s.current_objects_handled ≡ total handling s.pending
  pub room : total handling s.pending + lost ≤ s.max_concurrent_uploads
  pub word : s.max_concurrent_uploads < 2 ^ 32
  pub some_room : 0 < s.max_concurrent_uploads
  pub forgetful : (lost ≡ 0) ⊎ (s.errored ≡ true)
  pub phase :
      (total alone s.pending ≡ 0)
      ⊎ ((total alone s.pending ≡ 1)
          × (total handling s.pending ≡ 0)
          × (s.remaining ≡ [])
          × (s.errored ≡ false))
  pub reported : length s.reports + busy s.pending ≡ attempts

-- The uploads that a reply makes `current_uploads_` forget.
abbrev pub leak : Pending → Reply → ℕ
leak (get_object_name oid) r = if r.ok then 0 else 1
leak (encrypt_object oid name) r = if r.ok && r.vmo then 0 else 1
leak _ r = 0

-- The code relies on the storage to return the pieces that it listed: the debug checks of
-- `GetObjectContentAndUpload` and `UploadObject`.
abbrev pub IsReadable : Pending → Reply → Type 0
IsReadable (get_piece oid name) r = (r.ok ≡ true) × (r.vmo ≡ true)
IsReadable _ r = Unit

pub uploading-le-handling : (ps : List Pending) → total uploading ps ≤ total handling ps
uploading-le-handling [] = omega arith
uploading-le-handling (get_unsynced_pieces ∷ ps) = omega (arith, uploading-le-handling ps)
uploading-le-handling (p ∷ ps) = omega (arith, uploading-le-handling ps)

-- Every request in flight has a part in one of the two counts.
pub busy-le : (ps : List Pending) → busy ps ≤ total handling ps + total alone ps
busy-le [] = omega arith
busy-le (get_unsynced_pieces ∷ ps) = omega arith
busy-le (p ∷ ps) = omega arith

pub weight_one : (p : Pending) → handling p + alone p ≡ 1
weight_one get_unsynced_pieces = refl
weight_one p = refl

pub le-busy : (ps : List Pending) → total handling ps + total alone ps ≢ 0 → busy ps ≡ 1
le-busy [] h = absurd (h refl)
le-busy (p ∷ ps) h = refl

pub quiet : (ps : List Pending) → total handling ps + total alone ps ≡ 0 → ps ≡ []
quiet [] h = refl
quiet (p ∷ ps) h = absurd (omega (arith, weight_one p))

pub busy-le-one : (ps : List Pending) → busy ps ≤ 1
busy-le-one [] = omega arith
busy-le-one (p ∷ ps) = omega arith

pub length-weights : (ps : List Pending) → length ps ≡ total handling ps + total alone ps
length-weights [] = omega arith
length-weights (p ∷ ps) = omega (arith, length-weights ps, weight_one p)

pub busy-cases : (ps : List Pending) → ((ps ≡ []) × (busy ps ≡ 0)) ⊎ ((ps ≢ []) × (busy ps ≡ 1))
busy-cases [] = inl (refl, refl)
busy-cases (p ∷ ps) = inr (λ e. cc, refl)
