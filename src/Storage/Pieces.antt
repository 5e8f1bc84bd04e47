-- ===== src/Storage/Pieces.antt =====
-- bin/ledger/storage/impl/page_storage_impl.cc: the pieces of objects, `MarkAllPiecesLocal` and
-- `SynchronousAddPiece`. Identifiers of objects and the contents are numbers. What `ParseFileIndex`
-- reads from the content of an index and the type that is part of an identifier are parameters, since
-- they are flatbuffers and bytes. A stack is a list with its back first.
pub mod Writes
pub mod Marked
pub mod Terminates
pub mod Examples
use peridot.Base.{
  ℕ, zero, suc, Bool, true, false, not, List, [], ◌∷◌, if◌then◌else◌, contains, ◌==◌,
}
use peridot.Storage.Types.{
  Status, ok, not_found, io_error, format_error, illegal_state, internal_io_error, interrupted,
  not_connected_error, no_such_child, object_digest_mismatch, not_implemented, is_ok, Result, done,
  failed, aborted, check, ◌>>=◌,
}
use peridot.Storage.PageDb.{
  Db, Write, ObjectStatus, transient, local, synced, on_ok, read_object, set_object_status,
  write_object, in_batch,
}

pub data ObjectDigestType : Type 0 where
  inline value_hash index_hash : ObjectDigestType

pub data ChangeSource : Type 0 where
  from_local from_sync : ChangeSource

-- What the code asks of an identifier, and the children that it reads in the content of an index.
pub record ObjectReads : Type 0 where
  pub digest_type : ℕ → ObjectDigestType
  pub get_data : ℕ → Result ℕ
  pub parse_file_index : ℕ → Result (List ℕ)
  pub compute_object_digest : ObjectDigestType → ℕ → ℕ

abbrev pub is_inline : ObjectDigestType → Bool
is_inline inline = true
is_inline _ = false

module _ (db : Db) (objects : ObjectReads) where
  -- The children that are pushed, each in front of those before it.
  unfoldable pub push_children : List ℕ → List ℕ → List ℕ → List ℕ
  push_children seen [] stack = stack
  push_children seen (c ∷ cs) stack = push_children seen cs (
      if is_inline (objects.digest_type c)
      then stack
      else if contains seen c
      then stack
      else c ∷ stack)

  abbrev pub read_index : Status × ℕ → Result (List ℕ)
  read_index (s, content) =
      on_ok s content >>= λ object. objects.get_data object >>= λ d. objects.parse_file_index d

  -- The children of an object, none if it is not an index.
  abbrev pub children_of_type : ObjectDigestType → ℕ → Result (List ℕ)
  children_of_type index_hash id = read_index (read_object db id)
  children_of_type _ id = done []

  unfoldable pub children : ℕ → Result (List ℕ)
  children id = children_of_type (objects.digest_type id) id

  -- `seen` are the identifiers that have been taken from the stack.
  unfoldable pub mark_all_pieces_local : ℕ → List ℕ → List ℕ → List Write → Result (List Write)
  mark_all_pieces_local zero stack seen batch = aborted
  mark_all_pieces_local (suc n) [] seen batch = done batch
  mark_all_pieces_local (suc n) (id ∷ stack) seen batch =
      check (not (is_inline (objects.digest_type id))) (
        set_object_status db id local batch >>= λ b. children id >>= λ cs.
        mark_all_pieces_local n (push_children (id ∷ seen) cs stack) (id ∷ seen) b)

  abbrev piece_status : ChangeSource → ObjectStatus
  piece_status from_local = transient
  piece_status from_sync = synced

  abbrev read_piece : Status → ℕ → ℕ → ChangeSource → Result (List Write)
  read_piece not_found id content source =
      in_batch db (write_object db id content (piece_status source))
  read_piece ok id content source = done []
  read_piece s id content source = failed s

  abbrev digest_is : ℕ → ℕ → Bool
  digest_is id content = id == objects.compute_object_digest (objects.digest_type id) content

  -- The batch that is executed; it is empty if the object is there.
  unfoldable pub add_piece : ℕ → ℕ → ChangeSource → Result (List Write)
  add_piece id content source =
      check (not (is_inline (objects.digest_type id)))
        (check (digest_is id content) (read_piece (read_object db id).0 id content source))
