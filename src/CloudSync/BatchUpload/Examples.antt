-- ===== src/CloudSync/BatchUpload/Examples.antt =====
-- Runs of bin/ledger/cloud_sync/impl/batch_upload.cc, and its theorems at concrete schedules.
use peridot.Base.{
  length, ◌≢◌, ◌>>=◌, total, ℕ, ◌+◌, ◌≤◌, ◌<◌, ◌≡◌, refl, ◌⊎◌, true, false, none, some, List, [],
  ◌∷◌, arith, pick,
}
use peridot.CloudSync.BatchUpload.{
  permanent, BatchUpload, Pending, get_unsynced_pieces, get_object_name, get_unsynced_commits,
  encrypt_commits, add_commits, Reply, temporary, done, error, create, start, retry, resume, step,
  run, start_object_upload, upload_loop, piece_synced, after_piece_synced, upload_next_object,
}
use peridot.CloudSync.BatchUpload.Schedule.{
  Reach, begin, reply, Reach-resume, Reach-report, Reach-bounded,
}
use peridot.CloudSync.BatchUpload.Invariant.{handling}
use peridot.CloudSync.BatchUpload.Objects.{held}
use peridot.CloudSync.BatchUpload.Accounts.{
  marked_in, dropped_in, listed_in, objects_accounted, add_commits_last,
}
use peridot.CloudSync.BatchUpload.Errors.{retry_exact}

abbrev good : List ℕ → Reply
good ids = record { ok = true; vmo = true; object = 5; text = "text"; ids = ids }

abbrev bad : Reply
bad = record { ok = false; vmo = true; object = 5; text = ""; ids = [] }

-- One commit, 7, to upload with two slots.
abbrev listing : BatchUpload
listing = record {
  commits = 7 ∷ [];
  max_concurrent_uploads = 2;
  remaining = [];
  current_uploads = 0;
  current_objects_handled = 0;
  started = true;
  errored = false;
  error_type = temporary;
  pending = get_unsynced_pieces ∷ [];
  reports = [];
}

-- One object, 5, on its way.
abbrev naming : BatchUpload
naming = record listing {
  current_uploads = 1;
  current_objects_handled = 1;
  pending = get_object_name 5 ∷ [];
}

-- Its name could not be had.
abbrev unnamed : BatchUpload
unnamed = record naming {
  remaining = 5 ∷ [];
  current_objects_handled = 0;
  errored = true;
  pending = [];
  reports = error temporary ∷ [];
}

abbrev filtering : BatchUpload
filtering = record listing { pending = get_unsynced_commits ∷ [] }

abbrev encrypting : BatchUpload
encrypting = record listing { pending = encrypt_commits (7 ∷ []) 1 ∷ [] }

abbrev sending : BatchUpload
sending = record listing { pending = add_commits (7 ∷ []) ∷ [] }

abbrev refused : BatchUpload
refused = record listing { errored = true; pending = []; reports = error temporary ∷ [] }

abbrev again_filtering : BatchUpload
again_filtering = record refused { errored = false; pending = get_unsynced_commits ∷ [] }

listing_reached : Reach 0 1 listing
unfolding start create
listing_reached = begin (7 ∷ []) 2 (omega arith) (omega arith) refl

naming_reached : Reach 0 1 naming
unfolding resume pick start_object_upload upload_loop upload_next_object
naming_reached = reply 0 (good (5 ∷ [])) get_unsynced_pieces [] listing_reached refl tt refl refl

unnamed_reached : Reach 1 1 unnamed
unfolding resume pick
unnamed_reached = reply 0 bad (get_object_name 5) [] naming_reached refl tt refl refl

filtering_reached : Reach 0 1 filtering
unfolding resume pick start_object_upload
filtering_reached = reply 0 (good []) get_unsynced_pieces [] listing_reached refl tt refl refl

encrypting_reached : Reach 0 1 encrypting
unfolding resume pick
encrypting_reached =
    reply 0 (good (7 ∷ [])) get_unsynced_commits [] filtering_reached refl tt refl refl

sending_reached : Reach 0 1 sending
unfolding resume pick
sending_reached =
    reply 0 (good []) (encrypt_commits (7 ∷ []) 1) [] encrypting_reached refl tt refl refl

refused_reached : Reach 0 1 refused
unfolding resume pick
refused_reached = reply 0 bad (add_commits (7 ∷ [])) [] sending_reached refl tt refl refl

-- The object is uploaded and marked as synced, then the commit.
abbrev whole_run : List (ℕ × Reply)
whole_run =
    (0, good (5 ∷ []))
    ∷ (0, good [])
    ∷ (0, good [])
    ∷ (0, good [])
    ∷ (0, good [])
    ∷ (0, good [])
    ∷ (0, good (7 ∷ []))
    ∷ (0, good [])
    ∷ (0, good [])
    ∷ (0, good [])
    ∷ []

whole_run_ends : run whole_run listing ≡ some (record listing { pending = []; reports = done ∷ [] })
unfolding run step resume pick piece_synced after_piece_synced start_object_upload upload_loop
    upload_next_object
whole_run_ends = refl

Reach-resume_example : (t : BatchUpload) × (step 0 bad naming ≡ some t) × Reach 1 1 t
unfolding pick
Reach-resume_example = Reach-resume 0 bad (get_object_name 5) [] naming_reached refl tt

retry_exact_example :
    ((◌≡◌ {A = ℕ} 1 0) × (t : BatchUpload) × (retry unnamed ≡ some t) × Reach 1 2 t)
    ⊎ ((0 < 1) × (retry unnamed ≡ none))
retry_exact_example = retry_exact unnamed_reached refl refl

-- Two commits: the encryption service answers twice, and the storage marks twice.
two_commits_end :
    run
      ((0, good (7 ∷ 8 ∷ []))
        ∷ (0, good [])
        ∷ (0, good [])
        ∷ (0, good [])
        ∷ (0, good [])
        ∷ (0, good [])
        ∷ [])
      (record filtering { commits = 7 ∷ 8 ∷ [] })
    ≡ some (record listing { commits = 7 ∷ 8 ∷ []; pending = []; reports = done ∷ [] })
unfolding run step resume pick
two_commits_end = refl

-- The object 5 is uploaded, but the storage fails to mark it as synced: the upload is reported to have
-- failed, and the retry goes on to the commits without it.
mark_failed :
    (run
        ((0, good (5 ∷ []))
          ∷ (0, good [])
          ∷ (0, good [])
          ∷ (0, good [])
          ∷ (0, good [])
          ∷ (0, bad)
          ∷ [])
        listing
      >>= retry)
    ≡ some (record listing { pending = get_unsynced_commits ∷ []; reports = error permanent ∷ [] })
unfolding run step resume retry pick piece_synced after_piece_synced start_object_upload upload_loop
    upload_next_object
mark_failed = refl

Reach-report_example :
    ((length unnamed.reports ≡ 1) × (unnamed.pending ≡ []))
    ⊎ ((length unnamed.reports + 1 ≡ 1) × (unnamed.pending ≢ []))
Reach-report_example = Reach-report unnamed_reached

Reach-bounded_example :
    (naming.current_objects_handled ≡ total handling naming.pending)
    × (total handling naming.pending ≤ naming.max_concurrent_uploads)
Reach-bounded_example = Reach-bounded naming_reached

objects_accounted_example :
    held 5 naming + (marked_in 5 naming_reached + dropped_in 5 naming_reached)
    ≡ listed_in 5 naming_reached
unfolding naming_reached listing_reached
objects_accounted_example = objects_accounted 5 naming_reached (tt, tt)

add_commits_last_example :
    (sending.remaining ≡ [])
    × (◌≡◌ {A = List Pending} [] [])
    × (sending.errored ≡ false)
    × (sending.current_uploads ≡ 0)
    × (marked_in 5 sending_reached + dropped_in 5 sending_reached ≡ listed_in 5 sending_reached)
unfolding pick sending_reached encrypting_reached filtering_reached listing_reached
add_commits_last_example =
    add_commits_last 5 0 (7 ∷ []) [] sending_reached (((tt, tt), tt), tt) refl
