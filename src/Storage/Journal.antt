-- ===== src/Storage/Journal.antt =====
-- bin/ledger/storage/impl/journal_impl.cc: a transaction on a page. The serializer runs one operation
-- at a time to its callback, so an operation is a function: it takes the answers of the page storage
-- and of the B-tree, and gives what its callback is called with, and the journal afterwards. The calls
-- that change the storage are recorded, the newest first. A failed `FXL_DCHECK` is `none`. Commits,
-- objects and keys are numbers, in the order of the identifiers and of the keys.
pub mod Synced
pub mod Life
pub mod Examples
use peridot.Base.{
  ℕ, Bool, true, false, not, ◌&&◌, ◌||◌, Option, none, some, List, [], ◌∷◌, ltb, ◌==◌,
  if◌then◌else◌, dcheck, length, is_empty, ◌++◌, ◌>>=◌,
}
use peridot.Storage.Types.{
  Status, ok, io_error, not_found, format_error, illegal_state, internal_io_error, interrupted,
  not_connected_error, no_such_child, object_digest_mismatch, not_implemented, is_ok, KeyPriority,
  eager, lazy, Entry, EntryChange,
}

pub data JournalType : Type 0 where
  implicit explicit : JournalType

pub record CommitInfo : Type 0 where
  pub id : ℕ
  pub root_identifier : ℕ

-- What `Commit` calls back with: the parent, if nothing has changed, or a new commit.
pub data Committed : Type 0 where
  parent : CommitInfo → Committed
  created : ℕ → List ℕ → Committed

-- The calls that change the storage.
pub data Call : Type 0 where
  add_journal_entry : ℕ → ℕ → KeyPriority → Call
  remove_journal_entry : ℕ → Call
  remove_journal : Call
  add_commit_from_local : ℕ → List ℕ → List ℕ → Call

pub record Journal : Type 0 where
  pub type : JournalType
  pub base : ℕ
  pub other : Option ℕ
  pub valid : Bool
  pub failed_operation : Bool
  pub calls : List Call

-- What is answered during one operation; `change` is the answer to a put or a delete.
pub record Answers : Type 0 where
  pub change : Status
  pub get_commit : ℕ → Status × CommitInfo
  pub journal_entries : Status × List EntryChange
  pub apply_changes : ℕ → List EntryChange → Status × ℕ × List ℕ
  pub entries_to_sync : Status × List EntryChange
  pub object_is_untracked : ℕ → ℕ → Status × Bool
  pub add_commit : Status
  pub removed : Status

unfoldable pub simple : JournalType → ℕ → Journal
simple type base = record {
  type = type;
  base = base;
  other = none;
  valid = true;
  failed_operation = false;
  calls = [];
}

unfoldable pub merge : ℕ → ℕ → Journal
unfolding simple
merge base other = record (simple explicit base) { other = some other }

abbrev record_call : Call → Journal → Journal
record_call c j = record j { calls = c ∷ j.calls }

abbrev is_explicit : JournalType → Bool
is_explicit explicit = true
is_explicit implicit = false

-- The test with which `Commit`, `Put` and `Delete` begin.
abbrev pub is_closed : Journal → Bool
is_closed j = not j.valid || (is_explicit j.type && j.failed_operation)

changed : Status → Journal → Status × Journal
changed s j = (s, if is_ok s then j else record j { failed_operation = true })

unfoldable pub put : ℕ → ℕ → KeyPriority → Answers → Journal → Status × Journal
unfolding changed
put key oid priority a j =
    if is_closed j
    then (illegal_state, j)
    else changed a.change (record_call (add_journal_entry key oid priority) j)

unfoldable pub delete : ℕ → Answers → Journal → Status × Journal
unfolding changed
delete key a j =
    if is_closed j
    then (illegal_state, j)
    else changed a.change (record_call (remove_journal_entry key) j)

rollback_internal : Answers → Journal → Status × Journal
rollback_internal a j = if not j.valid then (illegal_state, j) else (
  a.removed,
  (let j' = record_call remove_journal j in
      if is_ok a.removed then record j' { valid = false } else j'),
)

unfoldable pub rollback : Answers → Journal → Status × Journal
unfolding rollback_internal
rollback a j = rollback_internal a j

-- A waiter: the results in the order of the requests, or a status that is not OK. The answers arrive
-- in the order of the requests.
prepend {ℓ} : {A : Type ℓ} → A → Status × List A → Status × List A
prepend x (ok, xs) = (ok, x ∷ xs)
prepend x (s, xs) = (s, [])

wait {ℓ} : {A : Type ℓ} → List (Status × A) → Status × List A
unfolding prepend
wait [] = (ok, [])
wait ((ok, x) ∷ rest) = prepend x (wait rest)
wait ((s, x) ∷ rest) = (s, [])

get_parents : Answers → Journal → Status × List CommitInfo
unfolding wait
get_parents a j = elim j.other [
  | none ↦ wait (a.get_commit j.base ∷ [])
  | some other ↦ wait (a.get_commit j.base ∷ a.get_commit other ∷ [])
]

-- `std::map`: `key_values[key] = value` and `key_values.erase(key)`.
pub set_key : ℕ → ℕ → List (ℕ × ℕ) → List (ℕ × ℕ)
set_key key value [] = (key, value) ∷ []
set_key key value ((k, v) ∷ rest) =
    if key == k
    then (k, value) ∷ rest
    else if ltb key k
    then (key, value) ∷ (k, v) ∷ rest
    else (k, v) ∷ set_key key value rest

pub erase_key : ℕ → List (ℕ × ℕ) → List (ℕ × ℕ)
erase_key key [] = []
erase_key key ((k, v) ∷ rest) = if key == k then rest else (k, v) ∷ erase_key key rest

pub key_values : List EntryChange → List (ℕ × ℕ) → List (ℕ × ℕ)
unfolding set_key erase_key
key_values [] kvs = kvs
key_values (e ∷ rest) kvs = key_values rest (
    if e.deleted
    then erase_key e.entry.key kvs
    else set_key e.entry.key e.entry.object_identifier kvs)

ask_untracked : Answers → List (ℕ × ℕ) → List (Status × Bool)
ask_untracked a [] = []
ask_untracked a ((k, v) ∷ rest) = a.object_is_untracked k v ∷ ask_untracked a rest

-- `std::set::insert`.
pub insert : ℕ → List ℕ → List ℕ
insert x [] = x ∷ []
insert x (y ∷ ys) = if x == y then y ∷ ys else if ltb x y then x ∷ y ∷ ys else y ∷ insert x ys

-- The objects of which `is_untracked[i++]` holds.
pub untracked_objects : List (ℕ × ℕ) → List Bool → List ℕ → List ℕ
unfolding insert
untracked_objects ((k, v) ∷ rest) (b ∷ bs) result =
    untracked_objects rest bs (if b then insert v result else result)
untracked_objects _ _ result = result

objects_of : List (ℕ × ℕ) → Status × List Bool → Status × List ℕ
unfolding untracked_objects
objects_of kvs (ok, bs) = (ok, untracked_objects kvs bs [])
objects_of kvs (s, bs) = (s, [])

objects_of_entries : Status × List EntryChange → Answers → Status × List ℕ
unfolding key_values ask_untracked wait objects_of
objects_of_entries (ok, es) a =
    let kvs = key_values es [] in objects_of kvs (wait (ask_untracked a kvs))
objects_of_entries (s, es) a = (s, [])

pub get_objects_to_sync : Answers → Status × List ℕ
unfolding objects_of_entries
get_objects_to_sync a = objects_of_entries a.entries_to_sync a

abbrev pub Outcome : Type 0
Outcome = Status × Option Committed × Journal

add_commit : ℕ → List ℕ → List ℕ → Answers → Journal → Outcome
add_commit root parents objects a j =
    let j' = record (record_call (add_commit_from_local root parents objects) j) {
      valid = false;
    } in
    if is_ok a.add_commit
    then (ok, some (created root parents), record_call remove_journal j')
    else (a.add_commit, none, j')

abbrev ids : List CommitInfo → List ℕ
ids [] = []
ids (c ∷ cs) = c.id ∷ ids cs

-- `FromContentAndParents` sorts its one or two parents by their identifiers; the order of the numbers
-- stands for that of the identifiers.
abbrev sorted_ids : List CommitInfo → List ℕ
sorted_ids (c ∷ d ∷ []) = if ltb d.id c.id then d.id ∷ c.id ∷ [] else c.id ∷ d.id ∷ []
sorted_ids cs = ids cs

commit_objects : ℕ → List ℕ → List CommitInfo → Status × List ℕ → Answers → Journal → Outcome
unfolding add_commit
commit_objects root new_nodes parents (ok, objects) a j =
    add_commit root (sorted_ids parents) (objects ++ new_nodes) a j
commit_objects root new_nodes parents (s, objects) a j = (s, none, j)

no_change : CommitInfo → Status × Journal → Outcome
no_change p (s, j) = (s, some (parent p), j)

-- The callback of `ApplyChanges`. The commit is a no-op if there is one parent with the same root.
changes_applied : List CommitInfo → Status × ℕ × List ℕ → Answers → Journal → Option Outcome
unfolding commit_objects no_change rollback_internal
changes_applied (p ∷ []) (ok, root, new_nodes) a j =
    if p.root_identifier == root
    then dcheck (is_empty new_nodes) (some (no_change p (rollback_internal a j)))
    else some (commit_objects root new_nodes (p ∷ []) (get_objects_to_sync a) a j)
changes_applied parents (ok, root, new_nodes) a j =
    some (commit_objects root new_nodes parents (get_objects_to_sync a) a j)
changes_applied parents (s, root, new_nodes) a j = some (s, none, j)

create_commit_from_changes :
    List CommitInfo → Status × List EntryChange → Answers → Journal → Option Outcome
unfolding changes_applied
create_commit_from_changes (p ∷ parents) (ok, changes) a j =
    changes_applied (p ∷ parents) (a.apply_changes p.root_identifier changes) a j
create_commit_from_changes [] (ok, changes) a j = none
create_commit_from_changes parents (s, changes) a j = some (s, none, j)

parents_known : Status × List CommitInfo → Answers → Journal → Option Outcome
unfolding create_commit_from_changes
parents_known (ok, parents) a j = create_commit_from_changes parents a.journal_entries a j
parents_known (s, parents) a j = some (s, none, j)

pub commit : Answers → Journal → Option Outcome
unfolding get_parents parents_known
commit a j =
    if is_closed j then some (illegal_state, none, j) else parents_known (get_parents a j) a j

-- An operation on a journal, with what is answered while it runs.
pub data Op : Type 0 where
  puts : ℕ → ℕ → KeyPriority → Op
  deletes : ℕ → Op
  commits rolls_back : Op

pub after_commit : Option Outcome → Option Journal
after_commit none = none
after_commit (some (s, c, j)) = some j

pub step : Op → Answers → Journal → Option Journal
unfolding after_commit
step (puts key oid priority) a j = some (put key oid priority a j).1
step (deletes key) a j = some (delete key a j).1
step rolls_back a j = some (rollback a j).1
step commits a j = after_commit (commit a j)

pub run : List (Op × Answers) → Journal → Option Journal
unfolding step
run [] j = some j
run ((op, a) ∷ rest) j = step op a j >>= run rest
