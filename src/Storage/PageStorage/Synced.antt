-- ===== src/Storage/PageStorage/Synced.antt =====
-- Which commits of a page are still to be uploaded, bin/ledger/storage/impl/page_storage_impl.cc.
use peridot.Base.{
  ℕ, Bool, true, false, List, ◌∷◌, ◌≡◌, ◌≢◌, refl, arith, Option, none, some, if◌then◌else◌, subst,
}
use peridot.Storage.Types.{ok, not_found, is_ok, done}
use peridot.Storage.Pieces.{ObjectReads, ChangeSource, from_local, from_sync}
use peridot.Storage.PageDb.{Db, Row, Write, delete, is_some, found, after, commit_row, unsynced_row}
use peridot.Storage.PageStorage.{
  Commit, Adding, is_first_commit, contains_commit, Outcome, add_commits,
}
use peridot.Storage.PageStorage.Rules.{
  IsKept, AnyCommit, All-AnyCommit, head_puts-keeps, commit_writes,
}
use peridot.Storage.PageStorage.Outcomes.{add_commits-kept}
use peridot.Storage.PageStorage.Stored.{rows_after}

-- A read that fails does not say that the row is not there.
abbrev pub IsHonest : Db → Type 0
IsHonest db = (r : Row) → db.read_status r ≢ not_found

pub contains_commit-not_found :
    (db : Db) (i : ℕ)
    → db.read_status (commit_row i) ≢ not_found
    → contains_commit db i ≡ not_found
    → is_some (db.rows (commit_row i)) ≡ false
unfolding contains_commit
contains_commit-not_found db i h e =
    go (is_first_commit i) (is_ok (db.read_status (commit_row i))) (db.rows (commit_row i)) e
  where
    go :
        (f t : Bool) (v : Option ℕ)
        → (if f then ok else (if t then found v else (db.read_status (commit_row i), 0)).0)
          ≡ not_found
        → is_some v ≡ false
    go true t v q = absurd (ground arith)
    go false t none q = refl
    go false true (some v) q = absurd (ground arith)
    go false false (some v) q = absurd (h q)

module _ (db : Db) (i : ℕ) where
  -- The commit is there and is not waiting for its upload.
  abbrev StaysSynced : Adding → Type 0
  StaysSynced a = after a.batch (unsynced_row i) (db.rows (unsynced_row i)) ≡ none

  unsynced-kept :
      (source : ChangeSource) (c : Commit) (b : List Write)
      → c.id ≢ i
      → after b (unsynced_row i) (db.rows (unsynced_row i)) ≡ none
      → after (commit_writes source c b) (unsynced_row i) (db.rows (unsynced_row i)) ≡ none
  unsynced-kept from_local c b h e = ground (arith, h, e)
  unsynced-kept from_sync c b h e = e

  marked-kept :
      (c : Commit) (b : List Write)
      → after b (unsynced_row i) (db.rows (unsynced_row i)) ≡ none
      → after (delete (unsynced_row c.id) ∷ b) (unsynced_row i) (db.rows (unsynced_row i)) ≡ none
  marked-kept c b e = ground (arith, e)

  pub is_new :
      (c : Commit)
      → IsHonest db
      → is_some (db.rows (commit_row i)) ≡ true
      → contains_commit db c.id ≡ not_found
      → c.id ≢ i
  is_new c h s e q =
      let r : is_some (db.rows (commit_row i)) ≡ false =
        subst (λ z. is_some (db.rows (commit_row z)) ≡ false) q
          (contains_commit-not_found db c.id (h (commit_row c.id)) e) in
      absurd (ground arith)

  StaysSynced-kept :
      (source : ChangeSource)
      → IsHonest db
      → is_some (db.rows (commit_row i)) ≡ true
      → IsKept db source AnyCommit (λ gone a. StaysSynced a) StaysSynced
  StaysSynced-kept source h s = record {
    opened = λ a h. h;
    marked = λ c a e k. marked-kept c a.batch k;
    erased = λ c p gone a g u e k. k;
    removed = λ c p gone a g u e k. k;
    added = λ c gone a g e t y k. unsynced-kept source c a.batch (is_new c h s e) k;
    orphaned = λ gone a h. h;
    closed = λ a. head_puts-keeps StaysSynced a.heads_to_add a (λ i t b h. h);
    piece_put = λ t j a k. k;
    piece_deleted = λ t j a k. k;
  }

-- A commit that is stored and synced does not become unsynced, whatever commits are added, even the same
-- one from the local side, if a read that fails does not say that the row is not there.
pub add_commits-stays_synced :
    (fuel : ℕ) (objects : ObjectReads) (db : Db) (source : ChangeSource) (commits : List Commit)
    (new_objects : List ℕ) (o : Outcome) (i : ℕ)
    → ((r : Row) → db.read_status r ≢ not_found)
    → is_some (db.rows (commit_row i)) ≡ true
    → db.rows (unsynced_row i) ≡ none
    → add_commits fuel objects db commits source new_objects ≡ done o
    → o.status ≡ ok
    → rows_after db o (unsynced_row i) ≡ none
add_commits-stays_synced fuel objects db source commits new_objects o i h s u e k =
    let (a, l, q, n) =
      add_commits-kept fuel objects db source AnyCommit (λ gone a. StaysSynced db i a)
        (StaysSynced db i) (StaysSynced-kept db i source h s) commits new_objects o
        (All-AnyCommit commits) u e k in
    rw q l
