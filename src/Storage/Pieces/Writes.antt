-- ===== src/Storage/Pieces/Writes.antt =====
-- What the pieces of bin/ledger/storage/impl/page_storage_impl.cc and page_db_batch_impl.cc write into a
-- batch: only the rows of statuses.
use peridot.Base.{ltb, ℕ, zero, suc, Bool, true, false, List, [], ◌∷◌, if◌then◌else◌, leb, not}
use peridot.Storage.Types.{
  Status, is_ok, io_error, not_found, format_error, illegal_state, internal_io_error,
  not_connected_error, no_such_child, object_digest_mismatch, not_implemented, done, failed, check,
  Holds, Holds-bind, Holds-check, Holds-any, ok, interrupted, ◌>>=◌,
}
use peridot.Storage.PageDb.{
  Db, Write, unknown, put, delete, ObjectStatus, local, rank, status_row, object_row, is_some,
  checked, on_ok, write, d_check_has_object, get_object_status, change_object_status,
  set_object_status,
}
use peridot.Storage.Pieces.{ObjectReads, is_inline, children, push_children, mark_all_pieces_local}

pub on_ok-Holds {ℓ} : {A : Type ℓ} (P : A → Type 0) (s : Status) (a : A) → P a → Holds P (on_ok s a)
on_ok-Holds P s a h = go (is_ok s)
  where
    go : (b : Bool) → Holds P (if b then done a else failed s)
    go true = h
    go false = tt

checked-keeps :
    (db : Db) (J : List Write → Type 0) (s : Status) (t : Bool) (b : List Write)
    → J b
    → Holds J (checked db s t b)
checked-keeps db J interrupted t b h = tt
checked-keeps db J ok true b h = h
checked-keeps db J ok false b h = tt
checked-keeps db J io_error t b h = tt
checked-keeps db J not_found t b h = tt
checked-keeps db J format_error t b h = tt
checked-keeps db J illegal_state t b h = tt
checked-keeps db J internal_io_error t b h = tt
checked-keeps db J not_connected_error t b h = tt
checked-keeps db J no_such_child t b h = tt
checked-keeps db J object_digest_mismatch t b h = tt
checked-keeps db J not_implemented t b h = tt

pub d_check_has_object-keeps :
    (db : Db) (J : List Write → Type 0) (i : ℕ) (b : List Write)
    → J b
    → Holds J (d_check_has_object db i b)
unfolding d_check_has_object
d_check_has_object-keeps db J i b h =
    checked-keeps db J (db.read_status (object_row i)) (is_some (db.rows (object_row i))) b h

module _ (db : Db) (J : List Write → Type 0)
    (h_put : (s : ObjectStatus) (i : ℕ) (b : List Write) → J b → J (put (status_row s i) 0 ∷ b))
    (h_delete : (s : ObjectStatus) (i : ℕ) (b : List Write)
      → J b
      → J (delete (status_row s i) ∷ b)) where
  write-keeps : (w : Write) (b : List Write) → J (w ∷ b) → Holds J (write db w b)
  unfolding write
  write-keeps w b h = on_ok-Holds J (db.batch_status (w ∷ b)) (w ∷ b) h

  change_object_status-keeps :
      (i : ℕ) (s previous : ObjectStatus) (b : List Write)
      → J b
      → Holds J (change_object_status db i s previous b)
  unfolding change_object_status
  change_object_status-keeps i s previous b h = go (leb (rank s) (rank previous))
    where
      go :
          (t : Bool)
          → Holds J (
              if t
              then done b
              else check (ltb (rank unknown) (rank previous)) (
                  write db (delete (status_row previous i)) b >>= λ d.
                  write db (put (status_row s i) 0) d))
      go true = h
      go false = Holds-check J (ltb (rank unknown) (rank previous)) _ (
          Holds-bind J J (write db (delete (status_row previous i)) b) _
            (write-keeps (delete (status_row previous i)) b (h_delete previous i b h))
            (λ d k. write-keeps (put (status_row s i) 0) d (h_put s i d k)))

  pub set_object_status-keeps :
      (i : ℕ) (s : ObjectStatus) (b : List Write) → J b → Holds J (set_object_status db i s b)
  unfolding set_object_status
  set_object_status-keeps i s b h = Holds-check J (leb (rank local) (rank s)) _ (
      Holds-bind J J (d_check_has_object db i b) _ (d_check_has_object-keeps db J i b h) (λ d k.
        Holds-bind (λ p. Unit) J (get_object_status db i) _ (Holds-any (get_object_status db i))
          (λ p t. change_object_status-keeps i s p d k)))

  pub mark_all_pieces_local-keeps :
      (objects : ObjectReads) (n : ℕ) (stack seen : List ℕ) (b : List Write)
      → J b
      → Holds J (mark_all_pieces_local db objects n stack seen b)
  unfolding mark_all_pieces_local
  mark_all_pieces_local-keeps objects zero stack seen b h = tt
  mark_all_pieces_local-keeps objects (suc n) [] seen b h = h
  mark_all_pieces_local-keeps objects (suc n) (i ∷ stack) seen b h =
      Holds-check J (not (is_inline (objects.digest_type i))) _ (
        Holds-bind J J (set_object_status db i local b) _ (set_object_status-keeps i local b h)
          (λ d k.
            Holds-bind (λ cs. Unit) J (children db objects i) _ (Holds-any (children db objects i))
              (λ cs t.
                mark_all_pieces_local-keeps objects n (push_children db objects (i ∷ seen) cs stack)
                  (i ∷ seen) d k)))
