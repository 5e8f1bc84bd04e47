-- ===== src/Storage/Pieces/Examples.antt =====
-- An index with two pieces that become local, bin/ledger/storage/impl/page_storage_impl.cc.
use peridot.Base.{
  ℕ, true, false, List, [], ◌∷◌, ◌≡◌, refl, inl, inr, Option, none, some, if◌then◌else◌, ◌==◌,
  contains, arith, ◌≤◌, Bool-cases, ==_iff, subst,
}
use peridot.Storage.Types.{ok, done, Ends}
use peridot.Storage.PageDb.{
  Db, Row, Write, put, delete, transient, local, synced, head_row, commit_row, unsynced_row,
  object_row, twice_prefixed_row, status_row, write, d_check_has_object, get_object_status,
  change_object_status, set_object_status, write_object, in_batch,
}
use peridot.Storage.Pieces.{
  ObjectReads, ObjectDigestType, inline, value_hash, index_hash, from_sync, is_inline, children,
  push_children, mark_all_pieces_local, add_piece,
}
use peridot.Storage.Pieces.Marked.{is_marked, start, child, mark_all_pieces_local-marks}
use peridot.Storage.Pieces.Terminates.{mark_all_pieces_local-terminates}

-- 0 is inline, 8 is an index.
abbrev type_of : ℕ → ObjectDigestType
type_of i = if i == 0 then inline else if i == 8 then index_hash else value_hash

abbrev objects : ObjectReads
objects = record {
  digest_type = type_of;
  get_data = λ i. done i;
  parse_file_index = λ i. done (5 ∷ 0 ∷ 6 ∷ []);
  compute_object_digest = λ t i. i;
}

-- The piece 6 is synced, the others are new.
abbrev rows : Row → Option ℕ
rows (commit_row i) = none
rows (head_row i) = none
rows (unsynced_row i) = none
rows (object_row i) = if contains (5 ∷ 6 ∷ 8 ∷ []) i then some i else none
rows (twice_prefixed_row i) = none
rows (status_row transient i) = if contains (5 ∷ 8 ∷ []) i then some 0 else none
rows (status_row synced i) = if i == 6 then some 0 else none
rows (status_row _ i) = none

abbrev page : Db
page = record {
  rows = rows;
  read_status = λ r. ok;
  batch_status = λ b. ok;
  start_status = ok;
  execute_status = ok;
}

abbrev marked : List Write
marked =
    put (status_row local 5) 0
    ∷ delete (status_row transient 5)
    ∷ put (status_row local 8) 0
    ∷ delete (status_row transient 8)
    ∷ []

marked-done : mark_all_pieces_local page objects 9 (8 ∷ []) [] [] ≡ done marked
unfolding mark_all_pieces_local children push_children set_object_status d_check_has_object
    get_object_status change_object_status write
marked-done = refl

children_8 : children page objects 8 ≡ done (5 ∷ 0 ∷ 6 ∷ [])
unfolding children
children_8 = refl

mark_all_pieces_local-marks_example : is_marked page marked 6 ≡ true
mark_all_pieces_local-marks_example =
    mark_all_pieces_local-marks 9 page objects (8 ∷ []) [] marked 6 (λ j t. t) marked-done
      (child (5 ∷ 0 ∷ 6 ∷ []) (start refl) children_8 refl refl)

-- A piece that comes from the cloud is synced at once.
piece_added :
    add_piece page objects 7 7 from_sync
    ≡ done (put (status_row synced 7) 0 ∷ put (object_row 7) 7 ∷ [])
unfolding add_piece in_batch write_object write
piece_added = refl

-- The piece 5 is there, and is written again: its row of a transient piece stays.
piece_rewritten :
    in_batch page (write_object page 5 50 synced)
    ≡ done (put (status_row synced 5) 0 ∷ put (object_row 5) 50 ∷ [])
unfolding in_batch write_object write
piece_rewritten = refl

piece_known : add_piece page objects 5 5 from_sync ≡ done []
unfolding add_piece
piece_known = refl

abbrev pieces : List ℕ
pieces = 8 ∷ 5 ∷ 6 ∷ []

-- What holds of the pieces holds of each of them.
each : (P : ℕ → Type 0) → P 8 → P 5 → P 6 → (i : ℕ) → contains pieces i ≡ true → P i
each P a b c i h = elim (Bool-cases (8 == i)) [
  | inl e ↦ subst P ((==_iff 8 i).0 e) a
  | inr e ↦ elim (Bool-cases (5 == i)) [
    | inl f ↦ subst P ((==_iff 5 i).0 f) b
    | inr f ↦ subst P ((==_iff 6 i).0 (ground (arith, e, f, h))) c
  ]
]

abbrev IsMarkable : ℕ → Type 0
IsMarkable i = (b : List Write) → Ends (λ d. Unit) (set_object_status page i local b)

pieces-IsMarkable : (i : ℕ) → contains pieces i ≡ true → IsMarkable i
unfolding set_object_status d_check_has_object get_object_status change_object_status write
pieces-IsMarkable = each IsMarkable (λ b. tt) (λ b. tt) (λ b. tt)

abbrev ReadsPieces : ℕ → Type 0
ReadsPieces i =
    Ends
      (λ cs.
        (j : ℕ) → contains cs j ≡ true → is_inline (type_of j) ≡ false → contains pieces j ≡ true)
      (children page objects i)

pieces-ReadsPieces : (i : ℕ) → contains pieces i ≡ true → ReadsPieces i
unfolding children
pieces-ReadsPieces =
    each ReadsPieces (λ j h k. ground (arith, h, k)) (λ j h k. absurd (ground (arith, h)))
      (λ j h k. absurd (ground (arith, h)))

mark_all_pieces_local-terminates_example :
    (n : ℕ) × ((m : ℕ) (b : List Write)
      → n ≤ m
      → Ends (λ d. Unit) (mark_all_pieces_local page objects m (8 ∷ []) [] b))
mark_all_pieces_local-terminates_example =
    mark_all_pieces_local-terminates page objects pieces (8 ∷ []) (λ i b h. pieces-IsMarkable i h b)
      pieces-ReadsPieces (each (λ i. is_inline (type_of i) ≡ false) refl refl refl)
      (λ i h. ground (arith, h))
