-- ===== src/Storage/Digest.antt =====
-- bin/ledger/storage/impl/object_digest.cc: the digests by which objects are named. A digest is its
-- bytes. `SHA256WithLengthHash` is a parameter. A failed `FXL_DCHECK` is `none`.
pub mod Laws
pub mod Examples
use peridot.Base.{
  ℕ, suc, Bool, true, false, ◌||◌, Option, none, some, List, [], ◌∷◌, leb, ◌==◌, if◌then◌else◌,
  dcheck, length, ◌>>=◌,
}

pub data ObjectDigestType : Type 0 where
  inline value_hash index_hash : ObjectDigestType

pub data ObjectType : Type 0 where
  value index : ObjectType

abbrev pub storage_hash_size : ℕ
storage_hash_size = 32

abbrev value_hash_prefix : ℕ
value_hash_prefix = 1

abbrev index_hash_prefix : ℕ
index_hash_prefix = 2

unfoldable pub add_prefix : ℕ → List ℕ → List ℕ
add_prefix c content = c ∷ content

abbrev pub is_inline : List ℕ → Bool
is_inline digest = leb (length digest) storage_hash_size

-- The type of a hash is that of its first byte.
pub prefix_type : List ℕ → Option ObjectDigestType
prefix_type [] = none
prefix_type (c ∷ rest) =
    if c == value_hash_prefix
    then some value_hash
    else if c == index_hash_prefix
    then some index_hash
    else none

is_some : Option ObjectDigestType → Bool
is_some none = false
is_some (some t) = true

unfoldable pub is_digest_valid : List ℕ → Bool
unfolding prefix_type is_some
is_digest_valid digest =
    if is_inline digest
    then true
    else if length digest == suc storage_hash_size
    then is_some (prefix_type digest)
    else false

unfoldable pub get_object_digest_type : List ℕ → Option ObjectDigestType
unfolding is_digest_valid prefix_type
get_object_digest_type digest =
    dcheck (is_digest_valid digest) (if is_inline digest then some inline else prefix_type digest)

unfoldable pub get_object_type : ObjectDigestType → ObjectType
get_object_type inline = value
get_object_type value_hash = value
get_object_type index_hash = index

tail : List ℕ → List ℕ
tail [] = []
tail (c ∷ rest) = rest

unfoldable pub extract_object_digest_data : List ℕ → Option (List ℕ)
unfolding is_digest_valid prefix_type is_some tail
extract_object_digest_data digest = dcheck (is_digest_valid digest) (
    if is_inline digest
    then some digest
    else dcheck (is_some (prefix_type digest)) (some (tail digest)))

module _ (sha256_with_length_hash : List ℕ → List ℕ) where
  unfoldable pub compute_object_digest : ObjectType → List ℕ → List ℕ
  unfolding add_prefix
  compute_object_digest value content =
      if is_inline content
      then content
      else add_prefix value_hash_prefix (sha256_with_length_hash content)
  compute_object_digest index content =
      add_prefix index_hash_prefix (sha256_with_length_hash content)
