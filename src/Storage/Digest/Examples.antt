-- ===== src/Storage/Digest/Examples.antt =====
-- Digests of bin/ledger/storage/impl/object_digest.cc, with a hash that repeats the length.
use peridot.Base.{ℕ, zero, suc, ◌≡◌, refl, ◌⊎◌, List, [], ◌∷◌, length}
use peridot.Storage.Digest.{ObjectType, value, compute_object_digest}
use peridot.Storage.Digest.Laws.{compute_object_digest-injective}

abbrev copies : ℕ → ℕ → List ℕ
copies zero x = []
copies (suc n) x = x ∷ copies n x

abbrev length_hash : List ℕ → List ℕ
length_hash content = copies 32 (length content)

abbrev text : List ℕ
text = copies 40 7

text_digest : compute_object_digest length_hash value text ≡ 1 ∷ copies 32 40
unfolding compute_object_digest
text_digest = refl

compute_object_digest-injective_example :
    (◌≡◌ {A = ObjectType} value value)
    × ((text ≡ copies 40 8) ⊎ (length_hash text ≡ length_hash (copies 40 8)))
unfolding compute_object_digest
compute_object_digest-injective_example =
    compute_object_digest-injective length_hash (λ content. refl) value value text (copies 40 8)
      refl
