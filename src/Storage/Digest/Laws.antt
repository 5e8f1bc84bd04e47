-- ===== src/Storage/Digest/Laws.antt =====
-- What a digest of bin/ledger/storage/impl/object_digest.cc says of its object.
use peridot.Base.{ℕ, ◌≤◌, ◌≡◌, ◌⊎◌, true, some, List, ◌>>=◌, arith, length}
use peridot.Storage.Digest.{
  ObjectType, value, index, is_digest_valid, get_object_digest_type, get_object_type,
  extract_object_digest_data, compute_object_digest,
}

module _ (sha : List ℕ → List ℕ) (sized : (content : List ℕ) → length (sha content) ≡ 32) where
  -- A digest that is computed with a hash of 32 bytes is valid, tells the type of its object, and has
  -- as its data the content of a value of at most 32 bytes, and otherwise the hash of the content.
  pub compute_object_digest-type :
      (type : ObjectType) (content : List ℕ)
      → (is_digest_valid (compute_object_digest sha type content) ≡ true)
        × ((get_object_digest_type (compute_object_digest sha type content) >>= λ t.
              some (get_object_type t))
            ≡ some type)
        × (((extract_object_digest_data (compute_object_digest sha type content) ≡ some content)
              × (type ≡ value)
              × (length content ≤ 32))
            ⊎ (extract_object_digest_data (compute_object_digest sha type content)
                ≡ some (sha content)))
  unfolding is_digest_valid get_object_digest_type get_object_type extract_object_digest_data
      compute_object_digest
  compute_object_digest-type value content = ground (arith, sized content)
  compute_object_digest-type index content = ground (arith, sized content)

  -- Two objects with the same digest have the same type, and the same content unless the hash of both
  -- contents is the same.
  pub compute_object_digest-injective :
      (type other : ObjectType) (content bytes : List ℕ)
      → compute_object_digest sha type content ≡ compute_object_digest sha other bytes
      → (type ≡ other) × ((content ≡ bytes) ⊎ (sha content ≡ sha bytes))
  unfolding compute_object_digest
  compute_object_digest-injective value value content bytes e =
      ground (arith, sized content, sized bytes)
  compute_object_digest-injective value index content bytes e =
      ground (arith, sized content, sized bytes)
  compute_object_digest-injective index value content bytes e =
      ground (arith, sized content, sized bytes)
  compute_object_digest-injective index index content bytes e =
      ground (arith, sized content, sized bytes)
