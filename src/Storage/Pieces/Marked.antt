-- ===== src/Storage/Pieces/Marked.antt =====
-- `MarkAllPiecesLocal` of bin/ledger/storage/impl/page_storage_impl.cc marks what can be reached.
use peridot.Base.{
  ℕ, zero, suc, Bool, true, false, List, [], ◌∷◌, if◌then◌else◌, leb, not, ◌≡◌, ◌||◌, ◌==◌, ==_iff,
  inl, inr, refl, sym, subst, ◌∙◌, contains, arith, Bool-cases,
}
use peridot.Storage.Types.{
  done_injective, done, Holds, Holds-bind, Holds-check, Holds-self, Holds-mono, Holds-done, ◌>>=◌,
}
use peridot.Storage.PageDb.{
  Db, Row, Write, put, delete, after, is_some, ObjectStatus, unknown, transient, local, synced,
  rank, status_row, has_key, first_status, get_object_status, change_object_status,
  set_object_status, d_check_has_object, write,
}
use peridot.Storage.Pieces.{ObjectReads, is_inline, children, push_children, mark_all_pieces_local}
use peridot.Storage.Pieces.Writes.{on_ok-Holds, d_check_has_object-keeps}

-- The piece is local or synced after a batch.
abbrev pub is_marked : Db → List Write → ℕ → Bool
is_marked db b i =
    is_some (after b (status_row local i) (db.rows (status_row local i)))
    || is_some (after b (status_row synced i) (db.rows (status_row synced i)))

module _ (db : Db) where
  write-Holds :
      (P : List Write → Type 0) (w : Write) (b : List Write) → P (w ∷ b) → Holds P (write db w b)
  unfolding write
  write-Holds P w b h = on_ok-Holds P (db.batch_status (w ∷ b)) (w ∷ b) h

  abbrev MarksMore : ℕ → List Write → List Write → Type 0
  MarksMore i b d =
      (is_marked db d i ≡ true) × ((j : ℕ) → is_marked db b j ≡ true → is_marked db d j ≡ true)

  marks_written :
      (i : ℕ) (previous : ObjectStatus) (b : List Write)
      → leb (rank local) (rank previous) ≡ false
      → MarksMore i b (put (status_row local i) 0 ∷ delete (status_row previous i) ∷ b)
  marks_written i unknown b h = (ground arith, λ j t. ground (arith, t))
  marks_written i transient b h = (ground arith, λ j t. ground (arith, t))
  marks_written i local b h = absurd (ground arith)
  marks_written i synced b h = absurd (ground arith)

  two_writes :
      (i : ℕ) (previous : ObjectStatus) (b : List Write)
      → leb (rank local) (rank previous) ≡ false
      → Holds (MarksMore i b) (
          write db (delete (status_row previous i)) b >>= λ d.
          write db (put (status_row local i) 0) d)
  two_writes i previous b h =
      Holds-bind (λ d. d ≡ delete (status_row previous i) ∷ b) (MarksMore i b)
        (write db (delete (status_row previous i)) b) _
        (write-Holds (λ d. d ≡ delete (status_row previous i) ∷ b) (delete (status_row previous i))
          b refl)
        (λ d e. write-Holds (MarksMore i b) (put (status_row local i) 0) d (
          subst (λ z. MarksMore i b (put (status_row local i) 0 ∷ z)) (sym e)
            (marks_written i previous b h)))

  change-marks :
      (i : ℕ) (previous : ObjectStatus) (b : List Write)
      → (leb (rank local) (rank previous) ≡ true → is_marked db b i ≡ true)
      → Holds (MarksMore i b) (change_object_status db i local previous b)
  unfolding change_object_status
  change-marks i unknown b h = tt
  change-marks i transient b h = two_writes i transient b refl
  change-marks i local b h = (h refl, λ j t. t)
  change-marks i synced b h = (h refl, λ j t. t)

  has_key-is_some : (r : Row) → Holds (λ t. t ≡ is_some (db.rows r)) (has_key db r)
  has_key-is_some r =
      on_ok-Holds (λ t. t ≡ is_some (db.rows r)) (db.read_status r) (is_some (db.rows r)) refl

  -- A status that is not less than LOCAL is in the rows.
  abbrev FromRows : ℕ → ObjectStatus → Type 0
  FromRows i s = leb (rank local) (rank s) ≡ true → is_marked db [] i ≡ true

  get_object_status-FromRows : (i : ℕ) → Holds (FromRows i) (get_object_status db i)
  unfolding get_object_status
  get_object_status-FromRows i =
      try (synced) (transient ∷ local ∷ []) (λ t. ground (arith, t))
        (try transient (local ∷ []) (λ t q. absurd (ground arith))
          (try local [] (λ t. ground (arith, t)) (λ q. absurd (ground arith))))
    where
      try :
          (s : ObjectStatus) (ss : List ObjectStatus)
          → (is_some (db.rows (status_row s i)) ≡ true → FromRows i s)
          → Holds (FromRows i) (first_status db i ss)
          → Holds (FromRows i) (first_status db i (s ∷ ss))
      try s ss h k =
          Holds-bind (λ t. t ≡ is_some (db.rows (status_row s i))) (FromRows i)
            (has_key db (status_row s i)) _ (has_key-is_some (status_row s i))
            (λ t e.
              elim t
                  as (λ t.
                    t ≡ is_some (db.rows (status_row s i))
                    → Holds (FromRows i) (if t then done s else first_status db i ss)) [
                      | true ↦ λ q. h (sym q)
                      | false ↦ λ q. k
                    ]
                e)

  -- What is marked in the rows is marked after the batch.
  abbrev pub KeepsRows : List Write → Type 0
  KeepsRows b = (j : ℕ) → is_marked db [] j ≡ true → is_marked db b j ≡ true

  set_object_status-marks :
      (i : ℕ) (b : List Write)
      → KeepsRows b
      → Holds (MarksMore i b) (set_object_status db i local b)
  unfolding set_object_status
  set_object_status-marks i b h =
      Holds-bind (λ d. d ≡ b) (MarksMore i b) (d_check_has_object db i b) _
        (d_check_has_object-keeps db (λ d. d ≡ b) i b refl)
        (λ d e.
          Holds-bind (FromRows i) (MarksMore i b) (get_object_status db i) _
            (get_object_status-FromRows i)
            (λ p k.
              subst (λ z. Holds (MarksMore i b) (change_object_status db i local p z)) (sym e)
                (change-marks i p b (λ t. h i (k t)))))

module _ (db : Db) (objects : ObjectReads) where
  -- A piece that is reached from others: one of them, or a child, which is not inline, of a reached index.
  pub data IsPiece (starts : List ℕ) : ℕ → Type 0 where
    start : {i : ℕ} → contains starts i ≡ true → IsPiece starts i
    child :
        {i j : ℕ} (cs : List ℕ)
        → IsPiece starts i
        → children db objects i ≡ done cs
        → contains cs j ≡ true
        → is_inline (objects.digest_type j) ≡ false
        → IsPiece starts j

  pushed-stack :
      (seen cs stack : List ℕ) (j : ℕ)
      → contains stack j ≡ true
      → contains (push_children db objects seen cs stack) j ≡ true
  unfolding push_children
  pushed-stack seen [] stack j h = h
  pushed-stack seen (c ∷ cs) stack j h =
      pushed-stack seen cs
        (if is_inline (objects.digest_type c)
          then stack
          else if contains seen c
          then stack
          else c ∷ stack)
        j (ground (arith, h))

  -- A child is pushed unless it is inline or was seen.
  pushed-child :
      (seen cs stack : List ℕ) (j : ℕ)
      → contains cs j ≡ true
      → is_inline (objects.digest_type j) ≡ false
      → contains seen j || contains (push_children db objects seen cs stack) j ≡ true
  unfolding push_children
  pushed-child seen [] stack j h k = absurd (ground arith)
  pushed-child seen (c ∷ cs) stack j h k = elim (Bool-cases (c == j)) [
    | inr e ↦
        pushed-child seen cs
          (if is_inline (objects.digest_type c)
            then stack
            else if contains seen c
            then stack
            else c ∷ stack)
          j (ground (arith, e, h)) k
    | inl e ↦
        let q : c ≡ j = (==_iff c j).0 e in
        elim (Bool-cases (contains seen j)) [
          | inl t ↦ rw t refl
          | inr t ↦ rw t (
              pushed-stack seen cs
                (if is_inline (objects.digest_type c)
                  then stack
                  else if contains seen c
                  then stack
                  else c ∷ stack)
                j (rw q (rw (k, t) (ground arith))))
        ]
  ]

  -- What was seen is marked, and its children were seen or wait.
  abbrev IsMarking : List ℕ → List ℕ → List Write → Type 0
  IsMarking stack seen b =
      (i : ℕ)
      → contains seen i ≡ true
      → (is_marked db b i ≡ true)
        × ((cs : List ℕ) (j : ℕ)
            → children db objects i ≡ done cs
            → contains cs j ≡ true
            → is_inline (objects.digest_type j) ≡ false
            → contains seen j || contains stack j ≡ true)

  -- All of a set is marked, and it is closed under children.
  abbrev Marking : List ℕ → List ℕ → List Write → Type 0
  Marking stack seen b =
      (all : List ℕ) × ((i : ℕ)
        → contains seen i || contains stack i ≡ true
        → contains all i ≡ true)
      × IsMarking [] all b

  mark_one :
      (i : ℕ) (stack seen cs : List ℕ) (b d : List Write)
      → IsMarking (i ∷ stack) seen b
      → MarksMore db i b d
      → children db objects i ≡ done cs
      → IsMarking (push_children db objects (i ∷ seen) cs stack) (i ∷ seen) d
  mark_one i stack seen cs b d h m e j t = elim (Bool-cases (i == j)) [
    | inl q ↦
        let r : i ≡ j = (==_iff i j).0 q in
        (
          subst (λ z. is_marked db d z ≡ true) r m.0,
          λ ds k f u v.
              let same : ds ≡ cs =
                done_injective (sym (subst (λ z. children db objects z ≡ done ds) (sym r) f) ∙ e) in
              pushed-child (i ∷ seen) cs stack k (subst (λ z. contains z k ≡ true) same u) v,
        )
    | inr q ↦
        let old = h j (ground (arith, q, t)) in
        (
          m.1 j old.0,
          λ ds k f u v. ground (arith, old.1 ds k f u v, pushed-stack (i ∷ seen) cs stack k),
        )
  ]

  mark_all_pieces_local-Marking :
      (n : ℕ) (stack seen : List ℕ) (b : List Write)
      → KeepsRows db b
      → IsMarking stack seen b
      → Holds (Marking stack seen) (mark_all_pieces_local db objects n stack seen b)
  unfolding mark_all_pieces_local
  mark_all_pieces_local-Marking zero stack seen b k h = tt
  mark_all_pieces_local-Marking (suc n) [] seen b k h = (seen, λ i t. ground (arith, t), h)
  mark_all_pieces_local-Marking (suc n) (i ∷ stack) seen b k h =
      Holds-check (Marking (i ∷ stack) seen) (not (is_inline (objects.digest_type i))) _ (
        Holds-bind (MarksMore db i b) (Marking (i ∷ stack) seen) (set_object_status db i local b) _
          (set_object_status-marks db i b k)
          (λ d m.
            Holds-bind (λ cs. children db objects i ≡ done cs) (Marking (i ∷ stack) seen)
              (children db objects i) _ (Holds-self (children db objects i))
              (λ cs e.
                Holds-mono (Marking (push_children db objects (i ∷ seen) cs stack) (i ∷ seen))
                  (Marking (i ∷ stack) seen) _
                  (mark_all_pieces_local-Marking n (push_children db objects (i ∷ seen) cs stack)
                    (i ∷ seen) d (λ j t. m.1 j (k j t)) (mark_one i stack seen cs b d h m e))
                  (λ x l. (
                    l.0,
                    λ j t. l.1 j (ground (arith, t, pushed-stack (i ∷ seen) cs stack j)),
                    l.2,
                  )))))

  reached :
      (starts all : List ℕ) (b : List Write) (i : ℕ)
      → ((j : ℕ) → contains starts j ≡ true → contains all j ≡ true)
      → IsMarking [] all b
      → IsPiece starts i
      → contains all i ≡ true
  reached starts all b i h m (start t) = h i t
  reached starts all b j h m (child {i} cs p e t u) =
      ground (arith, (m i (reached starts all b i h m p)).1 cs j e t u)

-- If the call succeeds, every piece that is reached from the given objects is local or synced after the
-- batch, provided that the batch so far takes no piece's status away.
pub mark_all_pieces_local-marks :
    (fuel : ℕ) (db : Db) (objects : ObjectReads) (new_objects : List ℕ) (batch marked : List Write)
    (i : ℕ)
    → ((j : ℕ) → is_marked db [] j ≡ true → is_marked db batch j ≡ true)
    → mark_all_pieces_local db objects fuel new_objects [] batch ≡ done marked
    → IsPiece db objects new_objects i
    → is_marked db marked i ≡ true
mark_all_pieces_local-marks fuel db objects new_objects batch marked i k e p =
    let (all, h, m) =
      Holds-done (Marking db objects new_objects [])
        (mark_all_pieces_local db objects fuel new_objects [] batch) e
        (mark_all_pieces_local-Marking db objects fuel new_objects [] batch k
          (λ j t. absurd (ground arith))) in
    (m i (reached db objects new_objects all marked i h m p)).0
