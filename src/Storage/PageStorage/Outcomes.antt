-- ===== src/Storage/PageStorage/Outcomes.antt =====
-- What `SynchronousAddCommits` of bin/ledger/storage/impl/page_storage_impl.cc gives, from what the
-- changes of its batch keep.
use peridot.Base.{All, ℕ, suc, Bool, true, false, List, [], ◌∷◌, ◌≡◌, refl, ap, ◌∙◌, length, arith}
use peridot.Storage.Types.{ok, done, Holds, Holds-bind, Ends-Holds, Holds-done}
use peridot.Storage.Pieces.{ObjectReads, ChangeSource, mark_all_pieces_local}
use peridot.Storage.Pieces.Writes.{on_ok-Holds, mark_all_pieces_local-keeps}
use peridot.Storage.PageDb.{Db, on_ok}
use peridot.Storage.PageStorage.{
  Commit, Adding, set_batch, rounds, complete, nothing_added, execute, Outcome, add_commits,
}
use peridot.Storage.PageStorage.Rules.{IsKept}
use peridot.Storage.PageStorage.Rules.Rounds.{AfterRounds, rounds-keeps}

module _ (fuel : ℕ) (objects : ObjectReads) (db : Db) (source : ChangeSource) (In : Commit → Type 0)
    (I : List ℕ → Adding → Type 0) (E : Adding → Type 0) (kept : IsKept db source In I E) where
  -- An outcome comes from a batch of which this holds.
  abbrev pub ComesFrom : Outcome → Type 0
  ComesFrom o = (a : Adding) × E a × (o ≡ execute db a a.batch)

  complete-ComesFrom :
      (new_objects : List ℕ) (left : List Commit) (f : Bool) (a : Adding)
      → E a
      → Holds ComesFrom (complete fuel objects db new_objects (left, f, a))
  unfolding complete
  complete-ComesFrom new_objects [] f a h =
      Holds-bind (λ b. E (set_batch a b)) ComesFrom
        (mark_all_pieces_local db objects fuel new_objects [] a.batch) _
        (mark_all_pieces_local-keeps db (λ b. E (set_batch a b))
          (λ s i b k. kept.piece_put s i (set_batch a b) k)
          (λ s i b k. kept.piece_deleted s i (set_batch a b) k) objects fuel new_objects [] a.batch
          h)
        (λ b k. (set_batch a b, k, refl))
  complete-ComesFrom new_objects (c ∷ cs) false a h = tt
  complete-ComesFrom new_objects (c ∷ cs) true a h = tt

  add_commits-ComesFrom :
      (commits : List Commit) (new_objects : List ℕ)
      → All In commits
      → E nothing_added
      → Holds ComesFrom (add_commits fuel objects db commits source new_objects)
  unfolding add_commits
  add_commits-ComesFrom commits new_objects x h =
      Holds-bind E ComesFrom (on_ok db.start_status nothing_added) _
        (on_ok-Holds E db.start_status nothing_added h)
        (λ a k.
          Holds-bind (AfterRounds db source In I E kept) ComesFrom
            (rounds db source (suc (length commits)) commits false a) _
            (Ends-Holds (AfterRounds db source In I E kept)
              (rounds db source (suc (length commits)) commits false a)
              (rounds-keeps db source In I E kept (suc (length commits)) commits false a
                (omega arith) x k))
            (λ found l. complete-ComesFrom new_objects found.0 found.1 found.2 l.0))

  -- If the operation is done and its batch was executed, this holds of the batch.
  pub add_commits-kept :
      (commits : List Commit) (new_objects : List ℕ) (o : Outcome)
      → All In commits
      → E nothing_added
      → add_commits fuel objects db commits source new_objects ≡ done o
      → o.status ≡ ok
      → (a : Adding) × E a × (o.executed ≡ a.batch) × (o.notified ≡ a.commits_to_send)
  add_commits-kept commits new_objects o x h e s = go (
      Holds-done ComesFrom (add_commits fuel objects db commits source new_objects) e
        (add_commits-ComesFrom commits new_objects x h))
    where
      go :
          ComesFrom o
          → (a : Adding) × E a × (o.executed ≡ a.batch) × (o.notified ≡ a.commits_to_send)
      go (a, k, q) =
          let r : db.execute_status ≡ ok = ground arith in
          (a, k, ap (λ z. z.executed) q ∙ (rw r refl), ap (λ z. z.notified) q)
