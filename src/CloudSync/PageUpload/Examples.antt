-- ===== src/CloudSync/PageUpload/Examples.antt =====
-- A schedule of bin/ledger/cloud_sync/impl/page_upload.cc, and its theorems at that schedule.
use peridot.Base.{none, ◌≤◌, total, ℕ, ◌≡◌, refl, true, false, List, [], ◌∷◌, pick}
use peridot.CloudSync.SyncState.{
  upload_setup, upload_pending, upload_in_progress, upload_temporary_error, upload_permanent_error,
}
use peridot.CloudSync.BatchUpload.{permanent, temporary, Report, done, error}
use peridot.CloudSync.PageUpload.{
  PageUpload, get_unsynced_commits, get_head_commit_ids, batch, retry_task, Reply, get_next, local,
  create, start_upload, on_new_commits, resume,
}
use peridot.CloudSync.PageUpload.Schedule.{
  Reach, initially, starts, reply, Reach-one_batch, on_new_commits_after_failure,
}
use peridot.CloudSync.PageUpload.Invariant.{batches}

abbrev answer : List ℕ → Report → Reply
answer commits report = record {
  ok = true;
  commits = commits;
  download_idle = true;
  report = report;
}

abbrev starting : PageUpload
starting = record {
  state = upload_setup;
  commits_to_upload = true;
  batch_upload = false;
  watching = false;
  pending = get_unsynced_commits ∷ [];
  states_told = upload_setup ∷ [];
  backoff_calls = [];
}

abbrev counting : PageUpload
counting = record starting { watching = true; pending = get_head_commit_ids (7 ∷ []) ∷ [] }

abbrev uploading : PageUpload
uploading = record counting {
  state = upload_in_progress;
  batch_upload = true;
  pending = batch (7 ∷ []) ∷ [];
  states_told = upload_in_progress ∷ upload_setup ∷ [];
}

abbrev failed : PageUpload
failed = record uploading {
  state = upload_permanent_error;
  pending = [];
  states_told = upload_permanent_error ∷ upload_in_progress ∷ upload_setup ∷ [];
}

abbrev retrying : PageUpload
retrying = record uploading {
  state = upload_temporary_error;
  batch_upload = false;
  pending = retry_task ∷ [];
  states_told = upload_temporary_error ∷ upload_in_progress ∷ upload_setup ∷ [];
  backoff_calls = get_next ∷ [];
}

starting_reached : Reach false starting
unfolding start_upload create
starting_reached = starts initially refl

counting_reached : Reach false counting
unfolding resume pick
counting_reached =
    reply 0 (answer (7 ∷ []) done) get_unsynced_commits [] starting_reached refl refl refl

uploading_reached : Reach false uploading
unfolding resume pick
uploading_reached =
    reply 0 (answer (7 ∷ []) done) (get_head_commit_ids (7 ∷ [])) [] counting_reached refl refl refl

failed_reached : Reach true failed
unfolding resume pick
failed_reached =
    reply 0 (answer [] (error permanent)) (batch (7 ∷ [])) [] uploading_reached refl refl refl

retrying_reached : Reach false retrying
unfolding resume pick
retrying_reached =
    reply 0 (answer [] (error temporary)) (batch (7 ∷ [])) [] uploading_reached refl refl refl

Reach-one_batch_example :
    (total batches retrying.pending ≤ 1)
    × (total batches retrying.pending ≡ 1 → retrying.batch_upload ≡ true)
    × (false ≡ true → total batches retrying.pending ≡ 0)
Reach-one_batch_example = Reach-one_batch retrying_reached

-- Two heads were found by an earlier callback; this one finds a single head.
abbrev recounting : PageUpload
recounting = record counting { commits_to_upload = false; pending = [] }

-- The check on `commits_to_upload_` fails.
recounting_fails : resume (get_head_commit_ids (7 ∷ [])) (answer (7 ∷ []) done) recounting ≡ none
unfolding resume
recounting_fails = refl

on_new_commits_after_failure_example :
    ((on_new_commits local true failed).state ≡ upload_pending)
    × ((on_new_commits local true failed).pending ≡ [])
    × (total batches failed.pending ≡ 0)
on_new_commits_after_failure_example = on_new_commits_after_failure failed true failed_reached refl
