-- ===== src/Storage/BTree/Level.antt =====
-- `GetNodeLevel` of bin/ledger/storage/impl/btree/builder.cc. The bytes of the hash of a key
-- (`murmurhash`, in `FastHash`) are a parameter.
use peridot.Base.{
  ℕ, zero, suc, ◌+◌, ◌≤◌, ◌<◌, ◌≡◌, ◌≢◌, ◌↔◌, true, List, [], ◌∷◌, arith, ◌==◌, if◌then◌else◌,
  Bool-cases, inl, inr,
}

-- The loop on the slices from an index.
pub level_from : ℕ → List ℕ → ℕ
level_from index [] = 255
level_from index (slice ∷ slices) = if slice == 0 then level_from (index + 1) slices else index

pub get_node_level : (ℕ → List ℕ) → ℕ → ℕ
unfolding level_from
get_node_level slices key = level_from 0 (slices key)

abbrev pub count : List ℕ → ℕ
count [] = 0
count (s ∷ slices) = suc (count slices)

-- There are so many zeros in front, and then a slice that is not zero.
abbrev pub HasZeros : ℕ → List ℕ → Type 0
HasZeros level [] = ⊥
HasZeros zero (slice ∷ slices) = slice ≢ 0
HasZeros (suc level) (slice ∷ slices) = (slice ≡ 0) × HasZeros level slices

level_from-bounds :
    (index : ℕ) (slices : List ℕ)
    → index + count slices ≤ 255
    → (index ≤ level_from index slices) × (level_from index slices ≤ 255)
unfolding level_from
level_from-bounds index [] h = (omega arith, omega arith)
level_from-bounds index (slice ∷ slices) h =
    let rest = level_from-bounds (index + 1) slices (omega arith) in ground arith

level_from-HasZeros :
    (index level : ℕ) (slices : List ℕ)
    → index + count slices ≤ 255
    → index + level < 255
    → level_from index slices ≡ index + level
    → HasZeros level slices
unfolding level_from
level_from-HasZeros index level [] h b q = absurd (omega arith)
level_from-HasZeros index zero (slice ∷ slices) h b q = λ z.
    (let (low, high) = level_from-bounds (index + 1) slices (omega arith) in
      let e : (slice == 0) ≡ true = ground arith in ground arith)
level_from-HasZeros index (suc level) (slice ∷ slices) h b q = elim (Bool-cases (slice == 0)) [
  | inl z ↦ (
    ground arith,
    level_from-HasZeros (index + 1) level slices (omega arith) (omega arith) (ground arith),
  )
  | inr n ↦ absurd (ground arith)
]

HasZeros-level_from :
    (index level : ℕ) (slices : List ℕ)
    → HasZeros level slices
    → level_from index slices ≡ index + level
unfolding level_from
HasZeros-level_from index level [] z = absurd z
HasZeros-level_from index zero (slice ∷ slices) z = ground arith
HasZeros-level_from index (suc level) (slice ∷ slices) (e, z) =
    let rest = HasZeros-level_from (index + 1) level slices z in ground arith

-- The level of a key is a byte, and, below the greatest one, it is the number of the zeros at the
-- start of the hash of the key. The hash has at most 255 slices.
pub get_node_level-HasZeros :
    (slices : ℕ → List ℕ) (key level : ℕ)
    → count (slices key) ≤ 255
    → level < 255
    → (get_node_level slices key < 256)
      × ((get_node_level slices key ≡ level) ↔ HasZeros level (slices key))
unfolding get_node_level
get_node_level-HasZeros slices key level h b =
    let bounds = level_from-bounds 0 (slices key) (omega arith) in
    (
      omega (arith, bounds.1),
      (
        λ q.
            level_from-HasZeros 0 level (slices key) (omega arith) (omega arith) (omega (arith, q)),
        λ z. omega (arith, HasZeros-level_from 0 level (slices key) z),
      ),
    )
