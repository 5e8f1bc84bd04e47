-- ===== src/CloudSync/BatchUpload/Objects.antt =====
-- Where the objects of bin/ledger/cloud_sync/impl/batch_upload.cc are: waiting in
-- `remaining_object_identifiers_`, or in flight, until `MarkPieceSynced` has answered, whatever the
-- answer.
use Prim.Native.String.{String}
use peridot.Base.{
  ℕ, zero, suc, ◌+◌, ◌≡◌, refl, true, false, not, ◌&&◌, Option, none, some, List, [], ◌∷◌, arith,
  ltb, ◌==◌, if◌then◌else◌, length, is_empty, total, count, pick, total-pick, Bool-cases, ◌>>=◌,
  inl, inr, sym, ◌-◌, subst,
}
use peridot.CloudSync.BatchUpload.{
  permanent, temporary, BatchUpload, Pending, get_unsynced_pieces, get_object_name, get_piece,
  encrypt_object, add_object, mark_piece_synced, get_unsynced_commits, encrypt_commits, add_commits,
  mark_commits_synced, Reply, send, retry, resume, upload_next_object, upload_loop,
  start_object_upload, piece_synced, after_piece_synced,
}
use peridot.CloudSync.BatchUpload.Invariant.{Inv, quiet}
use peridot.CloudSync.BatchUpload.Schedule.{Reach, Reach-Inv, Inv-pick}

-- How often a request carries an object.
abbrev pub carries : ℕ → Pending → ℕ
carries x (get_object_name oid) = if oid == x then 1 else 0
carries x (get_piece oid name) = if oid == x then 1 else 0
carries x (encrypt_object oid name) = if oid == x then 1 else 0
carries x (add_object oid name content) = if oid == x then 1 else 0
carries x (mark_piece_synced oid) = if oid == x then 1 else 0
carries x _ = 0

-- How often the upload holds an object.
abbrev pub held : ℕ → BatchUpload → ℕ
held x s = count x s.remaining + total (carries x) s.pending

-- What a reply takes away: the object about which `MarkPieceSynced` has answered.
abbrev pub settled : ℕ → Pending → ℕ
settled x (mark_piece_synced oid) = if oid == x then 1 else 0
settled x _ = 0

-- What a reply brings: the unsynced pieces that the storage lists.
abbrev pub listed : ℕ → Pending → Reply → ℕ
listed x get_unsynced_pieces r = if r.ok then count x r.ids else 0
listed x _ r = 0

-- The storage returns the object that it is asked for.
abbrev pub IsSameObject : Pending → Reply → Type 0
IsSameObject (get_piece oid name) r = r.object ≡ oid
IsSameObject _ r = Unit

abbrev Holds : ℕ → ℕ → BatchUpload → Type 0
Holds x n t = held x t ≡ n

-- Where no debug check fails, the balance holds.
abbrev Balances : (BatchUpload → Type 0) → Option BatchUpload → Type 0
Balances P none = Unit
Balances P (some t) = P t

Holds-next :
    (x : ℕ) (s : BatchUpload) (oid : ℕ) (rest : List ℕ)
    → s.remaining ≡ oid ∷ rest
    → Balances (λ t. (held x t ≡ held x s) × (t.remaining ≡ rest)) (upload_next_object s)
unfolding upload_next_object
Holds-next x s oid rest e = ground arith

Holds-resume-name :
    (x oid : ℕ) (r : Reply) (s : BatchUpload)
    → Balances (Holds x (held x (send (get_object_name oid) s))) (resume (get_object_name oid) r s)
unfolding resume
Holds-resume-name x oid r s = ground arith

Holds-resume-piece :
    (x oid : ℕ) (name : String) (r : Reply) (s : BatchUpload)
    → r.object ≡ oid
    → Balances (Holds x (held x (send (get_piece oid name) s))) (resume (get_piece oid name) r s)
unfolding resume
Holds-resume-piece x oid name r s e = ground arith

Holds-resume-encrypt :
    (x oid : ℕ) (name : String) (r : Reply) (s : BatchUpload)
    → Balances
        (Holds x (held x (send (encrypt_object oid name) s)))
        (resume (encrypt_object oid name) r s)
unfolding resume
Holds-resume-encrypt x oid name r s = ground arith

Holds-resume-add :
    (x oid : ℕ) (name content : String) (r : Reply) (s : BatchUpload)
    → Balances
        (Holds x (held x (send (add_object oid name content) s)))
        (resume (add_object oid name content) r s)
unfolding resume
Holds-resume-add x oid name content r s = ground arith

Holds-after_piece_synced :
    (x : ℕ) (s : BatchUpload) → Balances (Holds x (held x s)) (after_piece_synced s)
unfolding after_piece_synced
Holds-after_piece_synced x s = ground arith

Holds-resume-piece_synced :
    (x oid : ℕ) (r : Reply) (s : BatchUpload)
    → Balances (Holds x (held x s)) (resume (mark_piece_synced oid) r s)
unfolding resume piece_synced
Holds-resume-piece_synced x oid r s = ground (
  arith,
  Holds-after_piece_synced x (record s { current_objects_handled = s.current_objects_handled - 1 }),
  Holds-after_piece_synced x (record s {
    current_objects_handled = s.current_objects_handled - 1;
    errored = true;
    error_type = permanent;
  }),
)

Balances-bind :
    (P Q : BatchUpload → Type 0) (m : Option BatchUpload) (f : BatchUpload → Option BatchUpload)
    → Balances P m
    → ((t : BatchUpload) → P t → Balances Q (f t))
    → Balances Q (m >>= f)
Balances-bind P Q none f h k = tt
Balances-bind P Q (some t) f h k = k t h

Holds-loop :
    (x fuel : ℕ) (rs : List ℕ) (s : BatchUpload)
    → s.remaining ≡ rs
    → Balances (Holds x (held x s)) (upload_loop fuel s)
unfolding upload_loop
Holds-loop x zero rs s e = refl
Holds-loop x (suc f) rs s e =
    elim (Bool-cases
      (ltb s.current_uploads s.max_concurrent_uploads && not (is_empty s.remaining))) [
        | inl more ↦
            rw (more, Balances) (go rs e (ground arith) (λ t. Holds-loop x f t.remaining t refl))
        | inr stop ↦ rw (stop, Balances) refl
      ]
  where
    go :
        (ls : List ℕ)
        → s.remaining ≡ ls
        → is_empty ls ≡ false
        → ((t : BatchUpload) → Balances (Holds x (held x t)) (upload_loop f t))
        → Balances (Holds x (held x s)) (upload_next_object s >>= upload_loop f)
    go [] e' h k = ground arith
    go (oid ∷ rest) e' h k =
        Balances-bind (λ t. (held x t ≡ held x s) × (t.remaining ≡ rest)) (Holds x (held x s))
          (upload_next_object s) (upload_loop f) (Holds-next x s oid rest e')
          λ t h. rw (sym h.0) (k t)

Holds-start_object_upload :
    (x : ℕ) (s : BatchUpload) → Balances (Holds x (held x s)) (start_object_upload s)
unfolding start_object_upload
Holds-start_object_upload x s = ground (arith, Holds-loop x (length s.remaining) s.remaining s)

Holds-resume-pieces :
    (x : ℕ) (r : Reply) (s : BatchUpload)
    → s.remaining ≡ []
    → s.pending ≡ []
    → Balances (Holds x (listed x get_unsynced_pieces r)) (resume get_unsynced_pieces r s)
unfolding resume
Holds-resume-pieces x r s e q =
    ground (arith, Holds-start_object_upload x (record s { remaining = r.ids }))

Balances-mono :
    (P Q : BatchUpload → Type 0) (m : Option BatchUpload)
    → Balances P m
    → ((t : BatchUpload) → P t → Q t)
    → Balances Q m
Balances-mono P Q none h k = tt
Balances-mono P Q (some t) h k = k t h

abbrev Account : ℕ → Pending → Reply → BatchUpload → BatchUpload → Type 0
Account x p r s t = held x t + settled x p ≡ held x (send p s) + listed x p r

-- A callback that neither lists nor settles keeps what is held.
Account-kept :
    (x : ℕ) (p : Pending) (r : Reply) (s : BatchUpload)
    → settled x p ≡ 0
    → listed x p r ≡ 0
    → Balances (Holds x (held x (send p s))) (resume p r s)
    → Balances (Account x p r s) (resume p r s)
Account-kept x p r s a b h =
    Balances-mono (Holds x (held x (send p s))) (Account x p r s) (resume p r s) h
      λ t e. omega arith

Holds-resume-commits :
    (x left : ℕ) (ids : List ℕ) (r : Reply) (s : BatchUpload)
    → Balances (Holds x (held x (send get_unsynced_commits s))) (resume get_unsynced_commits r s)
      × Balances
          (Holds x (held x (send (encrypt_commits ids left) s)))
          (resume (encrypt_commits ids left) r s)
      × Balances (Holds x (held x (send (add_commits ids) s))) (resume (add_commits ids) r s)
      × Balances
          (Holds x (held x (send (mark_commits_synced ids left) s)))
          (resume (mark_commits_synced ids left) r s)
unfolding resume
Holds-resume-commits x left ids r s = (ground arith, ground arith, ground arith, ground arith)

Account-resume :
    (x : ℕ) (p : Pending) (r : Reply) (lost n : ℕ) (s : BatchUpload)
    → IsSameObject p r
    → Inv lost n (send p s)
    → Balances (Account x p r s) (resume p r s)
Account-resume x get_unsynced_pieces r lost n s h v =
    let e : s.remaining ≡ [] = ground arith in
    let q : s.pending ≡ [] = ground (arith, quiet s.pending) in
    Balances-mono (Holds x (listed x get_unsynced_pieces r)) (Account x get_unsynced_pieces r s)
      (resume get_unsynced_pieces r s) (Holds-resume-pieces x r s e q) λ t k. ground (arith)
Account-resume x (get_object_name oid) r lost n s h v =
    Account-kept x (get_object_name oid) r s refl refl (Holds-resume-name x oid r s)
Account-resume x (get_piece oid name) r lost n s h v =
    Account-kept x (get_piece oid name) r s refl refl (Holds-resume-piece x oid name r s h)
Account-resume x (encrypt_object oid name) r lost n s h v =
    Account-kept x (encrypt_object oid name) r s refl refl (Holds-resume-encrypt x oid name r s)
Account-resume x (add_object oid name content) r lost n s h v =
    Account-kept x (add_object oid name content) r s refl refl
      (Holds-resume-add x oid name content r s)
Account-resume x (mark_piece_synced oid) r lost n s h v =
    Balances-mono (Holds x (held x s)) (Account x (mark_piece_synced oid) r s)
      (resume (mark_piece_synced oid) r s) (Holds-resume-piece_synced x oid r s) λ t e. omega arith
Account-resume x get_unsynced_commits r lost n s h v =
    Account-kept x get_unsynced_commits r s refl refl (Holds-resume-commits x 0 [] r s).0
Account-resume x (encrypt_commits ids left) r lost n s h v =
    Account-kept x (encrypt_commits ids left) r s refl refl (Holds-resume-commits x left ids r s).1
Account-resume x (add_commits ids) r lost n s h v =
    Account-kept x (add_commits ids) r s refl refl (Holds-resume-commits x 0 ids r s).2
Account-resume x (mark_commits_synced ids left) r lost n s h v =
    Account-kept x (mark_commits_synced ids left) r s refl refl
      (Holds-resume-commits x left ids r s).3

Balances-eq :
    (P : BatchUpload → Type 0) (m : Option BatchUpload) {t : BatchUpload}
    → m ≡ some t
    → Balances P m
    → P t
Balances-eq P m e h = subst (Balances P) e h

-- What is held after a reply, with the object about which `MarkPieceSynced` has answered, is what was
-- held before, with the pieces that the storage has listed.
pub reply_conserves_objects :
    {lost n : ℕ} {s t : BatchUpload} (x i : ℕ) (r : Reply) (p : Pending) (rest : List Pending)
    → Reach lost n s
    → pick i s.pending ≡ some (p, rest)
    → IsSameObject p r
    → resume p r (record s { pending = rest }) ≡ some t
    → held x t + settled x p ≡ held x s + listed x p r
reply_conserves_objects {lost} {n} {s} {t} x i r p rest d e same h =
    let v = Inv-pick i lost n s p rest e (Reach-Inv d) in
    let b = Account-resume x p r lost n (record s { pending = rest }) same v in
    let a : Account x p r (record s { pending = rest }) t =
      Balances-eq (Account x p r (record s { pending = rest }))
        (resume p r (record s { pending = rest })) h b in
    omega (arith, total-pick (carries x) i s.pending p rest e)

-- A retry puts back in flight what it takes from the objects that wait.
pub retry_conserves_objects : (x : ℕ) (s t : BatchUpload) → retry s ≡ some t → held x t ≡ held x s
unfolding retry
retry_conserves_objects x s t e = Balances-eq (Holds x (held x s)) (retry s) e (
    ground
      (arith, Holds-start_object_upload x (record s { errored = false; error_type = temporary })))
