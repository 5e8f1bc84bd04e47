-- ===== src/Storage/PageStorage/Rules/Rounds.antt =====
-- The loops of `SynchronousAddCommits`, bin/ledger/storage/impl/page_storage_impl.cc: what each change of
-- the batch keeps holds after the rounds.
use peridot.Base.{
  All, All-append, length-snoc, ℕ, zero, suc, Bool, true, false, List, [], ◌∷◌, ◌≡◌, refl, sym, ◌≤◌,
  ◌<◌, contains, length, arith, subst, if◌then◌else◌, is_empty, ◌+◌, not, ◌||◌,
}
use peridot.Storage.Types.{
  Status, ok, not_found, io_error, format_error, illegal_state, internal_io_error, interrupted,
  not_connected_error, no_such_child, object_digest_mismatch, not_implemented, done, Ends,
  Ends-bind, Ends-mono,
}
use peridot.Storage.Pieces.{ChangeSource, from_local, from_sync}
use peridot.Storage.PageDb.{
  Db, Write, put, delete, head_row, unsynced_row, write, add_head, mark_commit_id_synced,
}
use peridot.Storage.PageStorage.{
  Commit, Adding, Round, set_batch, contains_commit, mark_synced, finish_commit, try_commit,
  remove_parents, add_new_commit, add_commit, add_each, add_heads, one_round, rounds,
}
use peridot.Storage.PageStorage.Rules.{write-Ends, contains_self, IsThere, head_puts, IsKept}
use peridot.Storage.PageStorage.Rules.Parents.{
  AfterParents, remove_parents-keeps, add_new_commit-keeps,
}

module _ (db : Db) (source : ChangeSource) (In : Commit → Type 0) (I : List ℕ → Adding → Type 0)
    (E : Adding → Type 0) (kept : IsKept db source In I E) where
  -- After a number of commits of a round; a commit that is not left makes what is left shorter.
  abbrev KeepsRound : ℕ → Round → Type 0
  KeepsRound m r =
      I [] r.adding
      × (length r.remaining_commits ≤ m)
      × (r.continue_trying ≡ true → length r.remaining_commits < m)
      × All In r.remaining_commits

  mark_synced-keeps :
      (src : ChangeSource) (c : Commit) (a : Adding)
      → contains_commit db c.id ≡ ok
      → I [] a
      → Ends (λ b. I [] (set_batch a b)) (mark_synced db src c a.batch)
  unfolding mark_commit_id_synced
  mark_synced-keeps from_local c a e h = h
  mark_synced-keeps from_sync c a e h =
      write-Ends db (λ b. I [] (set_batch a b)) (delete (unsynced_row c.id)) a.batch
        (kept.marked c a e h)

  finish_commit-keeps :
      (m : ℕ) (c : Commit) (gone : List ℕ) (r : Round) (found : Bool) (a : Adding)
      → In c
      → contains_commit db c.id ≡ not_found
      → I gone a
      → KeepsRound m r
      → (found ≡ true
          → All (IsThere db a.added_commits) c.parents
            × All (λ p. contains gone p ≡ true) c.parents)
      → Ends (KeepsRound (suc m)) (finish_commit db source c r found a)
  finish_commit-keeps m c gone r true a x e h l k =
      Ends-bind (λ b. I [] b) (KeepsRound (suc m)) (add_new_commit db source c a) _
        (add_new_commit-keeps db source In I E kept c gone a x e (k refl).0 (k refl).1 h)
        (λ b g. (g, omega (arith, l.1), λ t. omega (arith, l.1), l.3))
  finish_commit-keeps m c gone r false a x e h l k = (
    kept.orphaned gone a h,
    omega (arith, l.1, length-snoc c r.remaining_commits),
    λ t. omega (arith, l.2 t, length-snoc c r.remaining_commits),
    All-append In r.remaining_commits (c ∷ []) l.3 (x, tt),
  )

  try_commit-keeps :
      (m : ℕ) (c : Commit) (r : Round) (s : Status)
      → In c
      → contains_commit db c.id ≡ s
      → KeepsRound m r
      → Ends (KeepsRound (suc m)) (try_commit db source c r s)
  try_commit-keeps m c r ok x e h =
      Ends-bind (λ b. I [] (set_batch r.adding b)) (KeepsRound (suc m))
        (mark_synced db source c r.adding.batch) _ (mark_synced-keeps source c r.adding e h.0)
        (λ b k. (k, omega (arith, h.1), λ t. omega (arith, h.1), h.3))
  try_commit-keeps m c r not_found x e h =
      Ends-bind (AfterParents db source In I E kept c.parents [] r.adding) (KeepsRound (suc m))
        (remove_parents db c.parents r.adding) _
        (remove_parents-keeps db source In I E kept c c.parents [] r.adding x
          (contains_self c.parents) h.0)
        (λ found k.
          finish_commit-keeps m c k.0 r found.0 found.1 x e k.1 h
            (λ t. (subst (λ xs. All (IsThere db xs) c.parents) (sym k.2) (k.4 t).0, (k.4 t).1)))
  try_commit-keeps m c r io_error x e h = tt
  try_commit-keeps m c r format_error x e h = tt
  try_commit-keeps m c r illegal_state x e h = tt
  try_commit-keeps m c r internal_io_error x e h = tt
  try_commit-keeps m c r interrupted x e h = tt
  try_commit-keeps m c r not_connected_error x e h = tt
  try_commit-keeps m c r no_such_child x e h = tt
  try_commit-keeps m c r object_digest_mismatch x e h = tt
  try_commit-keeps m c r not_implemented x e h = tt

  add_each-keeps :
      (m : ℕ) (cs : List Commit) (r : Round)
      → All In cs
      → KeepsRound m r
      → Ends (KeepsRound (length cs + m)) (add_each db source cs r)
  unfolding add_each add_commit
  add_each-keeps m [] r x h = (h.0, omega (arith, h.1), λ e. omega (arith, h.2 e), h.3)
  add_each-keeps m (c ∷ cs) r x h =
      Ends-bind (KeepsRound (suc m)) (KeepsRound (suc (length cs) + m)) (add_commit db source c r) _
        (try_commit-keeps m c r (contains_commit db c.id) x.0 refl h)
        (λ t k.
          Ends-mono (KeepsRound (length cs + suc m)) (KeepsRound (suc (length cs) + m))
            (add_each db source cs t) (add_each-keeps (suc m) cs t x.1 k)
            (λ u l. (l.0, omega (arith, l.1), λ e. omega (arith, l.2 e), l.3)))

  add_heads-puts :
      (hs : List (ℕ × ℕ)) (b : List Write)
      → Ends (λ d. d ≡ head_puts hs b) (add_heads db source hs b)
  unfolding add_heads add_head
  add_heads-puts [] b = refl
  add_heads-puts ((i, t) ∷ hs) b =
      Ends-bind (λ d. d ≡ put (head_row i) t ∷ b) (λ d. d ≡ head_puts ((i, t) ∷ hs) b)
        (write db (put (head_row i) t) b) _
        (write-Ends db (λ d. d ≡ put (head_row i) t ∷ b) (put (head_row i) t) b refl)
        (λ d k. rw k (add_heads-puts hs (put (head_row i) t ∷ b)))

  -- After a round.
  abbrev AfterRound : ℕ → Round → Type 0
  AfterRound m r =
      E r.adding
      × (length r.remaining_commits ≤ m)
      × (r.continue_trying ≡ true → length r.remaining_commits < m)
      × All In r.remaining_commits

  one_round-keeps :
      (cs : List Commit) (a : Adding)
      → All In cs
      → E a
      → Ends (AfterRound (length cs)) (one_round db source cs a)
  unfolding one_round
  one_round-keeps cs a x h =
      Ends-bind (KeepsRound (length cs + 0)) (AfterRound (length cs))
        (add_each db source cs
          (record { adding = a; remaining_commits = []; continue_trying = false }))
        _
        (add_each-keeps 0 cs
          (record { adding = a; remaining_commits = []; continue_trying = false }) x
          (kept.opened a h, omega arith, λ e. absurd (ground arith), tt))
        (λ r k.
          Ends-bind (λ d. d ≡ head_puts r.adding.heads_to_add r.adding.batch)
            (AfterRound (length cs)) (add_heads db source r.adding.heads_to_add r.adding.batch) _
            (add_heads-puts r.adding.heads_to_add r.adding.batch)
            (λ d l. (
              rw l (kept.closed r.adding k.0),
              omega (arith, k.1),
              λ e. omega (arith, k.2 e),
              k.3,
            )))

  -- What is left is only left out of order.
  abbrev pub AfterRounds : List Commit × Bool × Adding → Type 0
  AfterRounds (left, out_of_order, a) = E a × (out_of_order ≡ false → is_empty left ≡ true)

  next_round :
      {m : ℕ} (n : ℕ) (t f : Bool) (r : Round)
      → AfterRound m r
      → r.continue_trying ≡ t
      → (r.continue_trying ≡ true
          → Ends AfterRounds (
              rounds db source n r.remaining_commits
                (f || not (is_empty r.remaining_commits))
                r.adding))
      → Ends AfterRounds (
          if t
          then rounds db source n r.remaining_commits
              (f || not (is_empty r.remaining_commits))
              r.adding
          else done (r.remaining_commits, f || not (is_empty r.remaining_commits), r.adding))
  next_round n true f r k e ih = ih e
  next_round n false f r k e ih = (k.0, λ g. ground arith)

  pub rounds-keeps :
      (n : ℕ) (cs : List Commit) (out_of_order : Bool) (a : Adding)
      → length cs < n
      → All In cs
      → E a
      → Ends AfterRounds (rounds db source n cs out_of_order a)
  unfolding rounds
  rounds-keeps zero cs f a l x h = absurd (omega (arith, l))
  rounds-keeps (suc n) [] f a l x h = (h, λ e. refl)
  rounds-keeps (suc n) (c ∷ cs) f a l x h =
      Ends-bind (AfterRound (suc (length cs))) AfterRounds (one_round db source (c ∷ cs) a) _
        (one_round-keeps (c ∷ cs) a x h)
        (λ r k. next_round n r.continue_trying f r k refl (λ e.
          rounds-keeps n r.remaining_commits (f || not (is_empty r.remaining_commits)) r.adding
            (omega (arith, l, k.2 e)) k.3 k.0))
