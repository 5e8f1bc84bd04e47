-- ===== src/Storage/PageStorage/FromSync/Leaves.antt =====
-- The commits from the cloud whose trees are fetched, bin/ledger/storage/impl/page_storage_impl.cc.
use peridot.Base.{
  ℕ, true, not, List, [], ◌∷◌, ◌≡◌, refl, ◌||◌, ◌&&◌, ◌==◌, All, All-mono, All-append, arith,
  contains,
}
use peridot.Storage.Types.{Result}
use peridot.Storage.PageDb.{Db}
use peridot.Storage.PageStorage.{Commit}
use peridot.Storage.PageStorage.Heads.{is_parent, is_parent-snoc}
use peridot.Storage.PageStorage.FromSync.{
  CommitIdAndBytes, Received, nothing_received, has_leaf, erase_leaf, erase_leaves, set_leaf,
  receive_commit, receive,
}
use peridot.Storage.PageStorage.FromSync.Stored.{receive-keeps}

has_leaf-erase_leaf :
    (i p : ℕ) (cs : List Commit) → has_leaf i (erase_leaf p cs) ≡ (has_leaf i cs && not (p == i))
has_leaf-erase_leaf i p [] = refl
has_leaf-erase_leaf i p (c ∷ cs) = ground (arith, has_leaf-erase_leaf i p cs)

has_leaf-erase_leaves :
    (i : ℕ) (ps : List ℕ) (cs : List Commit)
    → has_leaf i (erase_leaves ps cs) ≡ (has_leaf i cs && not (contains ps i))
has_leaf-erase_leaves i [] cs = ground arith
has_leaf-erase_leaves i (p ∷ ps) cs =
    ground (arith, has_leaf-erase_leaves i ps (erase_leaf p cs), has_leaf-erase_leaf i p cs)

has_leaf-set_leaf :
    (i : ℕ) (c : Commit) (cs : List Commit)
    → has_leaf i (set_leaf c cs) ≡ (c.id == i || has_leaf i cs)
has_leaf-set_leaf i c [] = refl
has_leaf-set_leaf i c (d ∷ ds) = ground (arith, has_leaf-set_leaf i c ds)

abbrev IsLeafOrParent : List Commit → List Commit → Commit → Type 0
IsLeafOrParent leaves commits c = has_leaf c.id leaves || is_parent c.id commits ≡ true

received_leaves :
    (c : Commit) (r : Received)
    → All (IsLeafOrParent r.leaves r.commits) r.commits
    → All
        (IsLeafOrParent (receive_commit c r).leaves (receive_commit c r).commits)
        (receive_commit c r).commits
received_leaves c r h =
    All-append (IsLeafOrParent (receive_commit c r).leaves (receive_commit c r).commits) r.commits
      (c ∷ [])
      (All-mono (IsLeafOrParent r.leaves r.commits)
        (IsLeafOrParent (receive_commit c r).leaves (receive_commit c r).commits) r.commits h
        (λ d k. ground (
          arith,
          k,
          has_leaf-set_leaf d.id c (erase_leaves c.parents r.leaves),
          has_leaf-erase_leaves d.id c.parents r.leaves,
          is_parent-snoc d.id c r.commits,
        )))
      (ground (arith, has_leaf-set_leaf c.id c (erase_leaves c.parents r.leaves)), tt)

-- Of every new commit that came, the tree is fetched, or another of the commits that came is its child.
pub receive-leaves :
    (from_storage_bytes : ℕ → ℕ → Result Commit) (db : Db) (xs : List CommitIdAndBytes)
    (r : Received)
    → r ≡ (receive from_storage_bytes db xs nothing_received).0
    → All (λ c. has_leaf c.id r.leaves || is_parent c.id r.commits ≡ true) r.commits
receive-leaves from_storage_bytes db xs r e = rw e (
    receive-keeps from_storage_bytes db (λ z. All (IsLeafOrParent z.leaves z.commits) z.commits)
      (λ z b h. h) received_leaves xs nothing_received tt)
