-- ===== src/Storage/Journal/Examples.antt =====
-- Journals of bin/ledger/storage/impl/journal_impl.cc that are filled, committed and rolled back.
use peridot.Base.{
  ℕ, ◌+◌, ◌≤◌, ◌≡◌, refl, ◌⊎◌, ◌↔◌, Bool, true, false, not, none, some, List, [], ◌∷◌, ◌++◌, total,
  contains, ◌==◌, arith,
}
use peridot.Storage.Types.{ok, io_error, is_ok, eager, EntryChange}
use peridot.Storage.Journal.{
  explicit, CommitInfo, parent, created, add_journal_entry, remove_journal, add_commit_from_local,
  Journal, Answers, simple, put, rollback, commit, get_objects_to_sync, Op, puts, commits,
  rolls_back, step, run,
}
use peridot.Storage.Journal.Synced.{value_after, get_objects_to_sync_exact}
use peridot.Storage.Journal.Life.{commits_made, flag, run_one_commit, commit_outcome}

abbrev change : ℕ → ℕ → Bool → EntryChange
change key oid deleted = record {
  entry = record { key = key; object_identifier = oid; priority = eager };
  deleted = deleted;
}

-- The entries of a journal: two keys are written, and a third is written and deleted.
abbrev entries : List EntryChange
entries = change 1 5 false ∷ change 3 7 false ∷ change 2 6 false ∷ change 3 7 true ∷ []

-- The object 6 is tracked already.
abbrev is_untracked : ℕ → Bool
is_untracked oid = not (oid == 6)

abbrev fine : Answers
fine = record {
  change = ok;
  get_commit = λ id. (ok, record { id = id; root_identifier = 100 });
  journal_entries = (ok, entries);
  apply_changes = λ root changes. (ok, 101, 200 ∷ []);
  entries_to_sync = (ok, entries);
  object_is_untracked = λ key oid. (ok, is_untracked oid);
  add_commit = ok;
  removed = ok;
}

abbrev full : Answers
full = record fine { change = io_error }

abbrev committed : Journal
committed = record {
  type = explicit;
  base = 10;
  other = none;
  valid = false;
  failed_operation = false;
  calls =
      remove_journal
      ∷ add_commit_from_local 101 (10 ∷ []) (5 ∷ 200 ∷ [])
      ∷ add_journal_entry 1 5 eager
      ∷ [];
}

abbrev failed : Journal
failed = record {
  type = explicit;
  base = 10;
  other = none;
  valid = true;
  failed_operation = true;
  calls = add_journal_entry 1 5 eager ∷ [];
}

abbrev filled : Journal
filled = record failed { failed_operation = false }

abbrev operations : List (Op × Answers)
operations = (puts 1 5 eager, fine) ∷ (commits, fine) ∷ (commits, fine) ∷ (rolls_back, fine) ∷ []

whole_life_ends : run operations (simple explicit 10) ≡ some committed
unfolding run step put commit simple rollback get_objects_to_sync
whole_life_ends = refl

run_one_commit_example : total commits_made committed.calls + flag committed.valid ≤ 1
unfolding run step put commit simple rollback get_objects_to_sync
run_one_commit_example = run_one_commit operations (simple explicit 10) committed (omega arith) refl

get_objects_to_sync_exact_example :
    (contains (5 ∷ []) 5 ≡ true)
    ↔ ((key : ℕ) × (value_after key entries none ≡ some 5) × (is_untracked 5 ≡ true))
unfolding get_objects_to_sync
get_objects_to_sync_exact_example = get_objects_to_sync_exact fine entries (5 ∷ []) 5 refl refl

commit_outcome_example :
    ((is_ok ok ≡ false) × (some (created 101 (10 ∷ [])) ≡ none) × (committed ≡ filled))
    ⊎ ((p : CommitInfo) × (some (created 101 (10 ∷ [])) ≡ some (parent p))
        × (ok ≡ fine.removed)
        × (committed.calls ≡ remove_journal ∷ filled.calls)
        × (is_ok ok ≡ not committed.valid))
    ⊎ ((root : ℕ) × (parents objects new_nodes : List ℕ) × (get_objects_to_sync fine
          ≡ (ok, objects))
        × (ok ≡ fine.add_commit)
        × (committed.valid ≡ false)
        × (((is_ok ok ≡ true)
              × (some (created 101 (10 ∷ [])) ≡ some (created root parents))
              × (committed.calls
                  ≡ remove_journal
                    ∷ add_commit_from_local root parents (objects ++ new_nodes)
                    ∷ filled.calls))
            ⊎ ((is_ok ok ≡ false)
                × (some (created 101 (10 ∷ [])) ≡ none)
                × (committed.calls
                    ≡ add_commit_from_local root parents (objects ++ new_nodes) ∷ filled.calls))))
unfolding commit get_objects_to_sync
commit_outcome_example = commit_outcome fine filled committed ok (some (created 101 (10 ∷ []))) refl
