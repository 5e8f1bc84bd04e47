-- ===== src/Storage/PageStorage/FromSync/Stored.antt =====
-- What comes from the cloud is stored: bin/ledger/storage/impl/page_storage_impl.cc.
use peridot.Base.{
  ℕ, Bool, List, [], ◌∷◌, ◌++◌, map, ◌≡◌, refl, sym, ◌∙◌, ◌⊎◌, inl, inr, if◌then◌else◌, is_empty,
  All, All-mono, All-at, Any, Any-at, Any-left, Any-right, arith, subst,
}
use peridot.Storage.Types.{
  Status, ok, not_found, io_error, format_error, illegal_state, internal_io_error, interrupted,
  not_connected_error, no_such_child, object_digest_mismatch, not_implemented, Result, done, failed,
  aborted, ◌>>=◌, Holds-done, Holds-bind, Holds-mono, Holds-self,
}
use peridot.Storage.Pieces.{ObjectReads, from_sync}
use peridot.Storage.Pieces.Writes.{on_ok-Holds}
use peridot.Storage.PageDb.{Db, Write, on_ok}
use peridot.Storage.PageStorage.{Commit, contains_commit, Outcome, add_commits}
use peridot.Storage.PageStorage.Stored.{IsStored, rows_after, contains_commit-ok, add_commits-exact}
use peridot.Storage.PageStorage.Complete.{add_commits-all-IsStored}
use peridot.Storage.PageStorage.FromSync.{
  CommitIdAndBytes, Received, nothing_received, receive_commit, mark_commit_synced, after_mark,
  after_parse, nothing_new, receive_status, receive_one, go_on, receive, add_received,
  after_receive, add_commits_from_sync,
}

module _ (from_storage_bytes : ℕ → ℕ → Result Commit) (db : Db) (P : Received → Type 0)
    (marked : (r : Received) (b : List Write) → P r → P (record r { marked = b }))
    (received : (c : Commit) (r : Received) → P r → P (receive_commit c r)) where
  after_mark-keeps : (r : Received) (m : Result (List Write)) → P r → P (after_mark r m).0
  after_mark-keeps r (done b) h = marked r (b ++ r.marked) h
  after_mark-keeps r (failed s) h = h
  after_mark-keeps r aborted h = h

  after_parse-keeps : (r : Received) (m : Result Commit) → P r → P (after_parse r m).0
  after_parse-keeps r (done c) h = received c r h
  after_parse-keeps r (failed s) h = h
  after_parse-keeps r aborted h = h

  receive_status-keeps :
      (x : CommitIdAndBytes) (r : Received) (s : Status)
      → P r
      → P (receive_status from_storage_bytes db x r s).0
  receive_status-keeps x r ok h = after_mark-keeps r (mark_commit_synced db x.id) h
  receive_status-keeps x r not_found h = after_parse-keeps r (from_storage_bytes x.id x.bytes) h
  receive_status-keeps x r io_error h = h
  receive_status-keeps x r format_error h = h
  receive_status-keeps x r illegal_state h = h
  receive_status-keeps x r internal_io_error h = h
  receive_status-keeps x r interrupted h = h
  receive_status-keeps x r not_connected_error h = h
  receive_status-keeps x r no_such_child h = h
  receive_status-keeps x r object_digest_mismatch h = h
  receive_status-keeps x r not_implemented h = h

  go_on-keeps :
      (rest : Received → Received × Result Bool) (m : Received × Result Bool)
      → ((r : Received) → P r → P (rest r).0)
      → P m.0
      → P (go_on from_storage_bytes db rest m).0
  go_on-keeps rest (r, done t) f h = f r h
  go_on-keeps rest (r, failed s) f h = h
  go_on-keeps rest (r, aborted) f h = h

  -- What each received commit keeps holds at the end.
  pub receive-keeps :
      (xs : List CommitIdAndBytes) (r : Received) → P r → P (receive from_storage_bytes db xs r).0
  unfolding receive receive_one
  receive-keeps [] r h = h
  receive-keeps (x ∷ xs) r h =
      go_on-keeps (λ t. receive from_storage_bytes db xs t)
        (receive_status from_storage_bytes db x r (contains_commit db x.id))
        (λ t k. receive-keeps xs t k) (receive_status-keeps x r (contains_commit db x.id) h)

module _ (from_storage_bytes : ℕ → ℕ → Result Commit) (db : Db)
    (Q : CommitIdAndBytes → Received → Type 0)
    (marked : (x : CommitIdAndBytes) (r : Received) (b : List Write)
      → Q x r
      → Q x (record r { marked = b }))
    (received : (x : CommitIdAndBytes) (c : Commit) (r : Received)
      → Q x r
      → Q x (receive_commit c r))
    (known : (x : CommitIdAndBytes) (r : Received) → contains_commit db x.id ≡ ok → Q x r)
    (new : (x : CommitIdAndBytes) (c : Commit) (r : Received)
      → from_storage_bytes x.id x.bytes ≡ done c
      → Q x (receive_commit c r)) where
  after_parse-gets :
      (x : CommitIdAndBytes) (r : Received) (m : Result Commit) (t : Bool)
      → from_storage_bytes x.id x.bytes ≡ m
      → (after_parse r m).1 ≡ done t
      → Q x (after_parse r m).0
  after_parse-gets x r (done c) t e k = new x c r e
  after_parse-gets x r (failed s) t e k = absurd (ground (arith, k))
  after_parse-gets x r aborted t e k = absurd (ground (arith, k))

  receive_status-gets :
      (x : CommitIdAndBytes) (r : Received) (s : Status) (t : Bool)
      → contains_commit db x.id ≡ s
      → (receive_status from_storage_bytes db x r s).1 ≡ done t
      → Q x (receive_status from_storage_bytes db x r s).0
  receive_status-gets x r ok t e k = known x (after_mark r (mark_commit_synced db x.id)).0 e
  receive_status-gets x r not_found t e k =
      after_parse-gets x r (from_storage_bytes x.id x.bytes) t refl k
  receive_status-gets x r io_error t e k = absurd (ground (arith, k))
  receive_status-gets x r format_error t e k = absurd (ground (arith, k))
  receive_status-gets x r illegal_state t e k = absurd (ground (arith, k))
  receive_status-gets x r internal_io_error t e k = absurd (ground (arith, k))
  receive_status-gets x r interrupted t e k = absurd (ground (arith, k))
  receive_status-gets x r not_connected_error t e k = absurd (ground (arith, k))
  receive_status-gets x r no_such_child t e k = absurd (ground (arith, k))
  receive_status-gets x r object_digest_mismatch t e k = absurd (ground (arith, k))
  receive_status-gets x r not_implemented t e k = absurd (ground (arith, k))

  -- If the loop comes to its end, this holds of each of its commits.
  pub receive-all :
      (xs : List CommitIdAndBytes) (r : Received) (t : Bool)
      → (receive from_storage_bytes db xs r).1 ≡ done t
      → All (λ x. Q x (receive from_storage_bytes db xs r).0) xs
  unfolding receive receive_one
  receive-all [] r t e = tt
  receive-all (x ∷ xs) r t e =
      go (receive_status from_storage_bytes db x r (contains_commit db x.id))
        (λ u k. receive_status-gets x r (contains_commit db x.id) u refl k)
        (λ z u k. receive-all xs z u k) e
    where
      go :
          (m : Received × Result Bool)
          → ((u : Bool) → m.1 ≡ done u → Q x m.0)
          → ((z : Received) (u : Bool)
              → (receive from_storage_bytes db xs z).1 ≡ done u
              → All (λ y. Q y (receive from_storage_bytes db xs z).0) xs)
          → (go_on from_storage_bytes db (λ z. receive from_storage_bytes db xs z) m).1 ≡ done t
          → All
              (λ y. Q y (go_on from_storage_bytes db (λ z. receive from_storage_bytes db xs z) m).0)
              (x ∷ xs)
      go (z, done u) h ih k = (
        receive-keeps from_storage_bytes db (Q x) (marked x) (received x) xs z (h u refl),
        ih z t k,
      )
      go (z, failed s) h ih k = absurd (ground (arith, k))
      go (z, aborted) h ih k = absurd (ground (arith, k))

-- A stored commit stays stored.
stays-IsStored :
    (fuel : ℕ) (objects : ObjectReads) (db : Db) (commits : List Commit) (o : Outcome) (i : ℕ)
    → add_commits fuel objects db commits from_sync [] ≡ done o
    → o.status ≡ ok
    → IsStored db.rows i
    → IsStored (rows_after db o) i
stays-IsStored fuel objects db commits o i e s h =
    ground (arith, h, add_commits-exact fuel objects db from_sync commits [] o e s i)

module _ (from_storage_bytes : ℕ → ℕ → Result Commit) (db : Db)
    (get_objects_from_sync : List ℕ → Status) (fuel : ℕ) (objects : ObjectReads) (later : Db) where
  -- Stored before, or received.
  abbrev IsHere : CommitIdAndBytes → Received → Type 0
  IsHere x r = IsStored db.rows x.id ⊎ Any (λ c. c.id ≡ x.id) r.commits

  abbrev StoredAfter : Outcome → CommitIdAndBytes → Type 0
  StoredAfter o x = IsStored (rows_after later o) x.id

  added-StoredAfter :
      (xs : List CommitIdAndBytes) (r : Received) (o : Outcome)
      → ((i : ℕ) → IsStored db.rows i → IsStored later.rows i)
      → All (λ x. IsHere x r) xs
      → add_commits fuel objects later r.commits from_sync [] ≡ done o
      → o.status ≡ ok
      → All (StoredAfter o) xs
  added-StoredAfter xs r o kept h e s =
      All-mono (λ x. IsHere x r) (StoredAfter o) xs h
        (λ x k. elim k [
          | inl old ↦ stays-IsStored fuel objects later r.commits o x.id e s (kept x.id old)
          | inr new ↦
              let (c, q, at) = Any-at (λ c. c.id ≡ x.id) r.commits new in
              subst (λ i. IsStored (rows_after later o) i) q
                (All-at (λ d. IsStored (rows_after later o) d.id) r.commits
                  (add_commits-all-IsStored fuel objects later from_sync r.commits [] o e s) at)
        ])

  old-StoredAfter :
      (x : CommitIdAndBytes) (r : Received) (o : Outcome)
      → ((i : ℕ) → IsStored db.rows i → IsStored later.rows i)
      → r.commits ≡ []
      → o ≡ nothing_new
      → IsHere x r
      → StoredAfter o x
  old-StoredAfter x r o kept e q (inl old) = rw q (kept x.id old)
  old-StoredAfter x r o kept e q (inr new) = absurd (subst (Any (λ c. c.id ≡ x.id)) e new)

  result-StoredAfter :
      (xs : List CommitIdAndBytes) (r : Received) (o : Outcome)
      → ((i : ℕ) → IsStored db.rows i → IsStored later.rows i)
      → All (λ x. IsHere x r) xs
      → add_received from_storage_bytes db get_objects_from_sync fuel objects later r ≡ done o
      → o.status ≡ ok
      → All (StoredAfter o) xs
  result-StoredAfter xs r o kept h e s = go r.commits refl e
    where
      objects_status : Status
      objects_status = get_objects_from_sync (map (λ c. c.root_identifier) r.leaves)

      go :
          (cs : List Commit)
          → r.commits ≡ cs
          → (if is_empty cs
              then done nothing_new
              else on_ok objects_status cs >>= λ commits.
                  add_commits fuel objects later commits from_sync [])
            ≡ done o
          → All (StoredAfter o) xs
      go [] q k =
          All-mono (λ x. IsHere x r) (StoredAfter o) xs h
            (λ x.
              old-StoredAfter x r o kept q
                (Holds-done (λ z. z ≡ nothing_new) (done nothing_new) k refl))
      go (c ∷ cs) q k =
          Holds-done (λ z. z.status ≡ ok → All (StoredAfter z) xs)
            (on_ok objects_status (c ∷ cs) >>= λ commits.
              add_commits fuel objects later commits from_sync [])
            k
            (Holds-bind (λ commits. commits ≡ c ∷ cs) (λ z. z.status ≡ ok → All (StoredAfter z) xs)
              (on_ok objects_status (c ∷ cs)) _
              (on_ok-Holds (λ commits. commits ≡ c ∷ cs) objects_status (c ∷ cs) refl)
              (λ commits u.
                Holds-mono (λ z. add_commits fuel objects later commits from_sync [] ≡ done z)
                  (λ z. z.status ≡ ok → All (StoredAfter z) xs) _
                  (Holds-self (add_commits fuel objects later commits from_sync []))
                  (λ z w v.
                    added-StoredAfter xs r z kept h
                      (subst (λ l. add_commits fuel objects later l from_sync [] ≡ done z)
                        (u ∙ sym q) w)
                      v)))
            s

-- If the operation succeeds, every commit that came from the cloud is stored afterwards, those that were
-- there before included, provided that a commit gets the identifier with which its bytes came, and that
-- what was stored before the objects were fetched is still stored afterwards.
pub add_commits_from_sync-IsStored :
    (from_storage_bytes : ℕ → ℕ → Result Commit) (db : Db) (get_objects_from_sync : List ℕ → Status)
    (fuel : ℕ) (objects : ObjectReads) (later : Db) (xs : List CommitIdAndBytes) (o : Outcome)
    → ((i b : ℕ) (c : Commit) → from_storage_bytes i b ≡ done c → c.id ≡ i)
    → ((i : ℕ) → IsStored db.rows i → IsStored later.rows i)
    → (add_commits_from_sync from_storage_bytes db get_objects_from_sync fuel objects later
        xs).result
      ≡ done o
    → o.status ≡ ok
    → All (λ x. IsStored (rows_after later o) x.id) xs
unfolding add_commits_from_sync
add_commits_from_sync-IsStored from_storage_bytes db get_objects_from_sync fuel objects later xs o
      ids kept e s =
    go (receive from_storage_bytes db xs nothing_received)
      (λ t.
        receive-all from_storage_bytes db
          (λ x r. IsStored db.rows x.id ⊎ Any (λ c. c.id ≡ x.id) r.commits) (λ x r b h. h)
          (λ x c r h. elim h [
            | inl k ↦ inl k
            | inr k ↦ inr (Any-left (λ d. d.id ≡ x.id) r.commits (c ∷ []) k)
          ])
          (λ x r k. inl (contains_commit-ok db x.id k))
          (λ x c r k.
            inr (Any-right (λ d. d.id ≡ x.id) r.commits (c ∷ []) (inl (ids x.id x.bytes c k))))
          xs nothing_received t)
      e
  where
    go :
        (m : Received × Result Bool)
        → ((t : Bool)
            → m.1 ≡ done t
            → All (λ x. IsStored db.rows x.id ⊎ Any (λ c. c.id ≡ x.id) m.0.commits) xs)
        → (after_receive from_storage_bytes db get_objects_from_sync fuel objects later m).result
          ≡ done o
        → All (λ x. IsStored (rows_after later o) x.id) xs
    go (r, done t) h k =
        result-StoredAfter from_storage_bytes db get_objects_from_sync fuel objects later xs r o
          kept (h t refl) k s
    go (r, failed z) h k = absurd (ground (arith, k))
    go (r, aborted) h k = absurd (ground (arith, k))
