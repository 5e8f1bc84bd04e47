-- ===== src/Storage/PageStorage/Retries.antt =====
-- The rounds of `SynchronousAddCommits`, bin/ledger/storage/impl/page_storage_impl.cc, to their end: what
-- is left has a parent missing, and everything else is stored.
use peridot.Base.{
  ℕ, zero, suc, Bool, true, false, not, List, [], ◌∷◌, ◌≡◌, refl, ◌⊎◌, inl, inr, ◌||◌, ◌<◌, All,
  All-mono, All-at, contains, arith, if◌then◌else◌, length, is_empty,
}
use peridot.Storage.Types.{
  Status, ok, not_found, io_error, format_error, illegal_state, internal_io_error, interrupted,
  not_connected_error, no_such_child, object_digest_mismatch, not_implemented, is_ok, done, Meets,
  Meets-bind, Meets-mono,
}
use peridot.Storage.Pieces.{ChangeSource, from_local, from_sync}
use peridot.Storage.PageDb.{
  Db, Row, Write, put, delete, head_row, commit_row, unsynced_row, write, add_head,
  add_commit_storage_bytes, mark_commit_id_synced, mark_commit_id_unsynced,
}
use peridot.Storage.PageStorage.{
  Commit, Adding, Round, contains_commit, mark_unsynced, mark_synced, finish_commit, try_commit,
  remove_parents, add_new_commit, add_commit, add_each, add_heads, one_round, rounds,
}
use peridot.Storage.PageStorage.Progress.{
  IsOrphan, IsSettled, Looked, Tried, write-Meets, error, remove_parents-Looked, added_Tried,
  left_Tried, known_Tried, rev_onto, rev_onto-length, rev_onto-All,
}

-- At the end every commit is stored, added or left, and what is left has a parent missing.
abbrev pub Finished :
    Db → (Commit → Type 0) → List ℕ → List Commit → List Commit × Bool × Adding → Type 0
Finished db In before cs (left, out_of_order, a) =
    All (IsSettled db a.added_commits left) cs
    × All (IsOrphan db a.added_commits) left
    × All In left
    × ((i : ℕ) → contains before i ≡ true → contains a.added_commits i ≡ true)

module _ (db : Db) (source : ChangeSource) (F : Type 0)
    (reads : (r : Row) → (is_ok (db.read_status r) ≡ true) ⊎ F)
    (writes : (b : List Write) → (is_ok (db.batch_status b) ≡ true) ⊎ F)
    (In : Commit → Type 0) where
  -- A step on the batch that may only fail if the database does.
  any_write : (w : Write) (b : List Write) → Meets F (λ d. Unit) (write db w b)
  any_write w b = write-Meets db source F reads writes (λ d. Unit) w b tt

  mark_unsynced-any :
      (src : ChangeSource) (c : Commit) (b : List Write)
      → Meets F (λ d. Unit) (mark_unsynced db src c b)
  unfolding mark_commit_id_unsynced
  mark_unsynced-any from_local c b = any_write (put (unsynced_row c.id) c.generation) b
  mark_unsynced-any from_sync c b = tt

  mark_synced-any :
      (src : ChangeSource) (c : Commit) (b : List Write)
      → Meets F (λ d. Unit) (mark_synced db src c b)
  unfolding mark_commit_id_synced
  mark_synced-any from_local c b = tt
  mark_synced-any from_sync c b = any_write (delete (unsynced_row c.id)) b

  add_new_commit-adds :
      (c : Commit) (a : Adding)
      → Meets F (λ b. b.added_commits ≡ c.id ∷ a.added_commits) (add_new_commit db source c a)
  unfolding add_new_commit add_commit_storage_bytes
  add_new_commit-adds c a =
      Meets-bind F (λ b. Unit) (λ b. b.added_commits ≡ c.id ∷ a.added_commits)
        (write db (put (commit_row c.id) c.storage_bytes) a.batch) _
        (any_write (put (commit_row c.id) c.storage_bytes) a.batch)
        (λ b t.
          Meets-bind F (λ d. Unit) (λ d. d.added_commits ≡ c.id ∷ a.added_commits)
            (mark_unsynced db source c b) _ (mark_unsynced-any source c b) (λ d u. refl))

  abbrev TriedSo : List ℕ → List Commit → Round → Type 0
  TriedSo before tried r = Tried db source F reads writes In before tried r

  finish_commit-Tried :
      (before : List ℕ) (tried : List Commit) (c : Commit) (r : Round) (there : Bool) (a : Adding)
      → In c
      → a.added_commits ≡ r.adding.added_commits
      → (there ≡ false → IsOrphan db r.adding.added_commits c)
      → TriedSo before tried r
      → Meets F (TriedSo before (c ∷ tried)) (finish_commit db source c r there a)
  finish_commit-Tried before tried c r true a x e k h =
      Meets-bind F (λ b. b.added_commits ≡ c.id ∷ a.added_commits) (TriedSo before (c ∷ tried))
        (add_new_commit db source c a) _ (add_new_commit-adds c a)
        (λ b g. added_Tried db source F reads writes In before tried c r a b e g h)
  finish_commit-Tried before tried c r false a x e k h =
      left_Tried db source F reads writes In before tried c r a x e (k refl) h

  try_commit-Tried :
      (before : List ℕ) (tried : List Commit) (c : Commit) (r : Round) (s : Status)
      → In c
      → contains_commit db c.id ≡ s
      → TriedSo before tried r
      → Meets F (TriedSo before (c ∷ tried)) (try_commit db source c r s)
  try_commit-Tried before tried c r ok x e h =
      Meets-bind F (λ b. Unit) (TriedSo before (c ∷ tried)) (mark_synced db source c r.adding.batch)
        _ (mark_synced-any source c r.adding.batch)
        (λ b t. known_Tried db source F reads writes In before tried c r b e h)
  try_commit-Tried before tried c r not_found x e h =
      Meets-bind F (Looked db source F reads writes c.parents r.adding) (TriedSo before (c ∷ tried))
        (remove_parents db c.parents r.adding) _
        (remove_parents-Looked db source F reads writes c.parents r.adding)
        (λ found k. finish_commit-Tried before tried c r found.0 found.1 x k.0 k.1 h)
  try_commit-Tried before tried c r io_error x e h =
      error db source F reads writes c.id io_error e (ground arith) (ground arith)
  try_commit-Tried before tried c r format_error x e h =
      error db source F reads writes c.id format_error e (ground arith) (ground arith)
  try_commit-Tried before tried c r illegal_state x e h =
      error db source F reads writes c.id illegal_state e (ground arith) (ground arith)
  try_commit-Tried before tried c r internal_io_error x e h =
      error db source F reads writes c.id internal_io_error e (ground arith) (ground arith)
  try_commit-Tried before tried c r interrupted x e h =
      error db source F reads writes c.id interrupted e (ground arith) (ground arith)
  try_commit-Tried before tried c r not_connected_error x e h =
      error db source F reads writes c.id not_connected_error e (ground arith) (ground arith)
  try_commit-Tried before tried c r no_such_child x e h =
      error db source F reads writes c.id no_such_child e (ground arith) (ground arith)
  try_commit-Tried before tried c r object_digest_mismatch x e h =
      error db source F reads writes c.id object_digest_mismatch e (ground arith) (ground arith)
  try_commit-Tried before tried c r not_implemented x e h =
      error db source F reads writes c.id not_implemented e (ground arith) (ground arith)

  add_each-Tried :
      (before : List ℕ) (cs tried : List Commit) (r : Round)
      → All In cs
      → TriedSo before tried r
      → Meets F (TriedSo before (rev_onto cs tried)) (add_each db source cs r)
  unfolding add_each add_commit
  add_each-Tried before [] tried r x h = h
  add_each-Tried before (c ∷ cs) tried r x h =
      Meets-bind F (TriedSo before (c ∷ tried)) (TriedSo before (rev_onto cs (c ∷ tried)))
        (add_commit db source c r) _
        (try_commit-Tried before tried c r (contains_commit db c.id) x.0 refl h)
        (λ t k. add_each-Tried before cs (c ∷ tried) t x.1 k)

  add_heads-any :
      (hs : List (ℕ × ℕ)) (b : List Write) → Meets F (λ d. Unit) (add_heads db source hs b)
  unfolding add_heads add_head
  add_heads-any [] b = tt
  add_heads-any ((i, t) ∷ hs) b =
      Meets-bind F (λ d. Unit) (λ d. Unit) (write db (put (head_row i) t) b) _
        (any_write (put (head_row i) t) b) (λ d u. add_heads-any hs d)

  one_round-Tried :
      (cs : List Commit) (a : Adding)
      → All In cs
      → Meets F (TriedSo a.added_commits (rev_onto cs [])) (one_round db source cs a)
  unfolding one_round
  one_round-Tried cs a x =
      let start : Round = record { adding = a; remaining_commits = []; continue_trying = false } in
      Meets-bind F (TriedSo a.added_commits (rev_onto cs []))
        (TriedSo a.added_commits (rev_onto cs [])) (add_each db source cs start) _
        (add_each-Tried a.added_commits cs [] start x (record {
          settled = tt;
          orphans = λ t. tt;
          grows = λ i t. t;
          input = tt;
          bound = omega arith;
          shorter = λ t. absurd (ground arith);
        }))
        (λ r h.
          Meets-bind F (λ d. Unit) (TriedSo a.added_commits (rev_onto cs []))
            (add_heads db source r.adding.heads_to_add r.adding.batch) _
            (add_heads-any r.adding.heads_to_add r.adding.batch)
            (λ d u. record {
              settled = h.settled;
              orphans = h.orphans;
              grows = h.grows;
              input = h.input;
              bound = h.bound;
              shorter = h.shorter;
            }))

  next_round :
      (n : ℕ) (t f : Bool) (cs : List Commit) (a : Adding) (r : Round)
      → TriedSo a.added_commits (rev_onto cs []) r
      → r.continue_trying ≡ t
      → (r.continue_trying ≡ true
          → Meets F (Finished db In r.adding.added_commits r.remaining_commits) (
              rounds db source n r.remaining_commits
                (f || not (is_empty r.remaining_commits))
                r.adding))
      → Meets F (Finished db In a.added_commits cs) (
          if t
          then rounds db source n r.remaining_commits
              (f || not (is_empty r.remaining_commits))
              r.adding
          else done (r.remaining_commits, f || not (is_empty r.remaining_commits), r.adding))
  next_round n true f cs a r h e ih =
      Meets-mono F (Finished db In r.adding.added_commits r.remaining_commits)
        (Finished db In a.added_commits cs) _ (ih e)
        (λ found k. (
          All-mono (IsSettled db r.adding.added_commits r.remaining_commits)
              (IsSettled db found.2.added_commits found.0) cs
              (rev_onto-All (IsSettled db r.adding.added_commits r.remaining_commits) cs []
                h.settled).0
              (λ c u. elim u [
                | inl o ↦ inl o
                | inr v ↦ elim v [
                  | inl o ↦ inr (inl (k.3 c.id o))
                  | inr o ↦
                      All-at (IsSettled db found.2.added_commits found.0) r.remaining_commits k.0 o
                ]
              ]),
          k.1,
          k.2,
          λ i t. k.3 i (h.grows i t),
        ))
  next_round n false f cs a r h e ih = (
    (rev_onto-All (IsSettled db r.adding.added_commits r.remaining_commits) cs [] h.settled).0,
    h.orphans e,
    h.input,
    h.grows,
  )

  pub rounds-Finished :
      (n : ℕ) (cs : List Commit) (out_of_order : Bool) (a : Adding)
      → length cs < n
      → All In cs
      → Meets F (Finished db In a.added_commits cs) (rounds db source n cs out_of_order a)
  unfolding rounds
  rounds-Finished zero cs f a l x = absurd (omega (arith, l))
  rounds-Finished (suc n) [] f a l x = (tt, tt, tt, λ i t. t)
  rounds-Finished (suc n) (c ∷ cs) f a l x =
      Meets-bind F (TriedSo a.added_commits (rev_onto (c ∷ cs) []))
        (Finished db In a.added_commits (c ∷ cs)) (one_round db source (c ∷ cs) a) _
        (one_round-Tried (c ∷ cs) a x)
        (λ r h. next_round n r.continue_trying f (c ∷ cs) a r h refl (λ e.
          rounds-Finished n r.remaining_commits (f || not (is_empty r.remaining_commits)) r.adding
            (omega (arith, l, h.shorter e, rev_onto-length (c ∷ cs) [])) h.input))
