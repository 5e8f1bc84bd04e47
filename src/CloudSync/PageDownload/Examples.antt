-- ===== src/CloudSync/PageDownload/Examples.antt =====
-- A schedule of bin/ledger/cloud_sync/impl/page_download.cc, and its theorems at that schedule.
use Prim.Native.String.{String}
use peridot.Base.{total, ◌≤◌, ◌⊎◌, ℕ, ◌≡◌, refl, true, false, ◌||◌, some, List, [], ◌∷◌, ◌++◌, pick}
use peridot.CloudSync.SyncState.{
  download_backlog, download_setting_remote_watcher, download_idle, download_in_progress,
  download_temporary_error,
}
use peridot.CloudSync.PageDownload.{
  PageDownload, Pending, get_backlog_metadata, get_commits, batch, get_watcher_metadata,
  set_watcher, retry_watcher, backlog_downloaded, acknowledge, nothing, Reply, CloudStatus, ok,
  network_error, reset, get_next, create, start_download, on_new_commits, on_error, get_object,
  resume, is_idle,
}
use peridot.CloudSync.PageDownload.Invariant.{fails, batches, objects}
use peridot.CloudSync.PageDownload.Schedule.{
  Reach, started, new_commits, watcher_error, reply, Reach-next, Reach-counts,
}
use peridot.CloudSync.PageDownload.Commits.{ahead}
use peridot.CloudSync.PageDownload.Order.{told_in, downloaded_in, commits_in_order}

abbrev answer : List ℕ → String → Reply
answer commits token = record {
  found = true;
  success = true;
  permanent = false;
  cloud_status = ok;
  commits = commits;
  token = token;
}

abbrev starting : PageDownload
starting = record {
  commit_state = download_backlog;
  current_get_object_calls = 0;
  batch_download = false;
  commits_to_download = [];
  position_token = "";
  watcher_bound = false;
  sync_delegate = true;
  pending = get_backlog_metadata ∷ [];
  states_told = download_backlog ∷ [];
  backoff_calls = [];
  object_results = [];
  acknowledged = 0;
}

abbrev asking : PageDownload
asking = record starting { pending = get_commits "t0" ∷ [] }

abbrev backlog : PageDownload
backlog = record starting {
  batch_download = true;
  pending = batch (1 ∷ 2 ∷ []) "t1" backlog_downloaded ∷ [];
  backoff_calls = reset ∷ [];
}

abbrev setting : PageDownload
setting = record backlog {
  commit_state = download_setting_remote_watcher;
  batch_download = false;
  pending = get_watcher_metadata false ∷ [];
  states_told = download_setting_remote_watcher ∷ download_backlog ∷ [];
}

abbrev watching : PageDownload
watching = record setting {
  commit_state = download_idle;
  watcher_bound = true;
  pending = set_watcher "t1" ∷ [];
  states_told = download_idle ∷ download_setting_remote_watcher ∷ download_backlog ∷ [];
}

abbrev busy : PageDownload
busy = record watching {
  commit_state = download_in_progress;
  batch_download = true;
  pending = batch (3 ∷ []) "t2" acknowledge ∷ set_watcher "t1" ∷ [];
  states_told = download_in_progress ∷ watching.states_told;
}

abbrev queued : PageDownload
queued = record busy { commits_to_download = 4 ∷ []; position_token = "t3"; acknowledged = 1 }

abbrev next_batch : PageDownload
next_batch = record queued {
  commits_to_download = [];
  position_token = "";
  acknowledged = 2;
  pending = batch (4 ∷ []) "t3" nothing ∷ set_watcher "t1" ∷ [];
}

abbrev unwatched : PageDownload
unwatched = record busy {
  commit_state = download_temporary_error;
  watcher_bound = false;
  pending = retry_watcher ∷ busy.pending;
  states_told = download_temporary_error ∷ busy.states_told;
  backoff_calls = get_next ∷ reset ∷ [];
}

abbrev resetting : PageDownload
resetting = record unwatched {
  commit_state = download_setting_remote_watcher;
  pending = get_watcher_metadata true ∷ busy.pending;
  states_told = download_setting_remote_watcher ∷ unwatched.states_told;
}

starting_reached : Reach false starting
unfolding start_download create
starting_reached = started refl

asking_reached : Reach false asking
unfolding resume pick
asking_reached = reply 0 (answer [] "t0") get_backlog_metadata [] starting_reached refl refl refl

backlog_reached : Reach false backlog
unfolding resume pick
backlog_reached =
    reply 0 (answer (1 ∷ 2 ∷ []) "t1") (get_commits "t0") [] asking_reached refl refl refl

setting_reached : Reach false setting
unfolding resume pick
setting_reached =
    reply 0 (answer [] "") (batch (1 ∷ 2 ∷ []) "t1" backlog_downloaded) [] backlog_reached refl refl
      refl

watching_reached : Reach false watching
unfolding resume pick
watching_reached =
    reply 0 (answer [] "t1") (get_watcher_metadata false) [] setting_reached refl refl refl

busy_reached : Reach false busy
unfolding on_new_commits
busy_reached = new_commits (3 ∷ []) "t2" watching_reached refl refl

queued_reached : Reach false queued
unfolding on_new_commits
queued_reached = new_commits (4 ∷ []) "t3" busy_reached refl refl

unwatched_reached : Reach false unwatched
unfolding on_error
unwatched_reached = watcher_error network_error busy_reached refl refl

resetting_reached : Reach false resetting
unfolding resume pick
resetting_reached =
    reply 0 (answer [] "") retry_watcher busy.pending unwatched_reached refl refl refl

Reach-next_example :
    ((i : ℕ) (r : Reply) (p : Pending) (rest : List Pending)
      → pick i queued.pending ≡ some (p, rest)
      → (e : PageDownload) × (resume p r (record queued { pending = rest }) ≡ some e)
        × Reach (false || fails p r) e)
    × ((commits : List ℕ) (token : String)
        → queued.watcher_bound ≡ true
        → (e : PageDownload) × (on_new_commits commits token queued ≡ some e) × Reach false e)
    × ((status : CloudStatus)
        → queued.watcher_bound ≡ true
        → (e : PageDownload) × (on_error status queued ≡ some e) × Reach false e)
Reach-next_example = Reach-next queued_reached

-- The watcher is bound again while the batch of the commit 3 is in flight.
abbrev hidden : PageDownload
hidden = record resetting {
  commit_state = download_idle;
  watcher_bound = true;
  pending = set_watcher "t2" ∷ busy.pending;
  states_told = download_idle ∷ resetting.states_told;
}

hidden_reached : Reach false hidden
unfolding resume pick
hidden_reached =
    reply 0 (answer [] "t2") (get_watcher_metadata true) busy.pending resetting_reached refl refl
      refl

-- It shows that it is idle meanwhile.
hidden_shows_idle : (is_idle hidden ≡ true) × (hidden.batch_download ≡ true)
unfolding is_idle
hidden_shows_idle = (refl, refl)

-- That an object is asked for ends the idle state, of which the delegate is not told.
object_untold :
    (is_idle watching ≡ true)
    × (is_idle (get_object 9 watching) ≡ false)
    × ((get_object 9 watching).states_told ≡ watching.states_told)
unfolding is_idle get_object
object_untold = (refl, refl, refl)

next_batch_reached : Reach false next_batch
unfolding resume pick
next_batch_reached =
    reply 0 (answer [] "") (batch (3 ∷ []) "t2" acknowledge) (set_watcher "t1" ∷ []) queued_reached
      refl refl refl

-- The commits 1 and 2 of the backlog and the commit 3 are downloaded, the commit 4 is in flight.
commits_in_order_example :
    told_in next_batch_reached ≡ downloaded_in next_batch_reached ++ ahead next_batch
commits_in_order_example = commits_in_order next_batch_reached

Reach-counts_example :
    (queued.current_get_object_calls ≡ total objects queued.pending)
    × (total batches queued.pending ≤ 1)
    × (queued.watcher_bound ≡ true
        → (queued.commit_state ≡ download_idle) ⊎ (queued.commit_state ≡ download_in_progress))
Reach-counts_example = Reach-counts queued_reached
