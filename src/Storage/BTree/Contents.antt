-- ===== src/Storage/BTree/Contents.antt =====
-- The sorted entries that a tree of bin/ledger/storage/impl/btree/builder.cc stands for, and what a
-- change does to them.
use mathlib.Core.List.{append_assoc, append-nil}
use peridot.Base.{
  ℕ, ◌≤◌, ◌<◌, ◌≡◌, ◌≢◌, refl, ap, ◌∙◌, List, [], ◌∷◌, ◌++◌, ltb, if◌then◌else◌, arith, ◌⊎◌, inl,
  inr, Bool-cases,
}
use peridot.Storage.Types.{Entry, EntryChange}

abbrev pub All : (Entry → Type 0) → List Entry → Type 0
All P [] = Unit
All P (e ∷ es) = P e × All P es

abbrev pub AllBelow : ℕ → List Entry → Type 0
AllBelow key = All (λ e. e.key < key)

abbrev pub AllAbove : ℕ → List Entry → Type 0
AllAbove key = All (λ e. key < e.key)

-- Every key is below the next.
abbrev pub IsSorted : List Entry → Type 0
IsSorted [] = Unit
IsSorted (e ∷ es) = AllAbove e.key es × IsSorted es

-- The entries whose keys are below a key, and those whose keys are above it.
abbrev pub below : ℕ → List Entry → List Entry
below key [] = []
below key (e ∷ es) = if ltb e.key key then e ∷ below key es else below key es

abbrev pub above : ℕ → List Entry → List Entry
above key [] = []
above key (e ∷ es) = if ltb key e.key then e ∷ above key es else above key es

-- What there is at a key is replaced by `mid`.
unfoldable pub edit : ℕ → List Entry → List Entry → List Entry
edit key mid es = below key es ++ (mid ++ above key es)

abbrev pub inserted : EntryChange → List Entry
inserted change = if change.deleted then [] else change.entry ∷ []

-- A change on sorted entries.
unfoldable pub effect : EntryChange → List Entry → List Entry
unfolding edit
effect change es = edit change.entry.key (inserted change) es

pub All-mono :
    (P Q : Entry → Type 0) (es : List Entry) → All P es → ((e : Entry) → P e → Q e) → All Q es
All-mono P Q [] h k = tt
All-mono P Q (e ∷ es) h k = (k e h.0, All-mono P Q es h.1 k)

pub All-append : (P : Entry → Type 0) (xs ys : List Entry) → All P xs → All P ys → All P (xs ++ ys)
All-append P [] ys h k = k
All-append P (x ∷ xs) ys h k = (h.0, All-append P xs ys h.1 k)

pub All-parts : (P : Entry → Type 0) (xs ys : List Entry) → All P (xs ++ ys) → All P xs × All P ys
All-parts P [] ys h = (tt, h)
All-parts P (x ∷ xs) ys h = let (a, b) = All-parts P xs ys h.1 in ((h.0, a), b)

pub below-append : (k : ℕ) (xs ys : List Entry) → below k (xs ++ ys) ≡ below k xs ++ below k ys
below-append k [] ys = refl
below-append k (x ∷ xs) ys = ground (arith, below-append k xs ys)

pub above-append : (k : ℕ) (xs ys : List Entry) → above k (xs ++ ys) ≡ above k xs ++ above k ys
above-append k [] ys = refl
above-append k (x ∷ xs) ys = ground (arith, above-append k xs ys)

pub below_all : (k : ℕ) (xs : List Entry) → AllBelow k xs → (below k xs ≡ xs) × (above k xs ≡ [])
below_all k [] h = (refl, refl)
below_all k (x ∷ xs) h = ground (arith, below_all k xs h.1, h.0)

pub above_all : (k : ℕ) (xs : List Entry) → AllAbove k xs → (below k xs ≡ []) × (above k xs ≡ xs)
above_all k [] h = (refl, refl)
above_all k (x ∷ xs) h = ground (arith, above_all k xs h.1, h.0)

pub IsSorted-parts :
    (xs : List Entry) (e : Entry) (ys : List Entry)
    → IsSorted (xs ++ e ∷ ys)
    → IsSorted xs × AllBelow e.key xs × AllAbove e.key ys × IsSorted ys
IsSorted-parts [] e ys h = (tt, tt, h.0, h.1)
IsSorted-parts (x ∷ xs) e ys h =
    let (a, b, c, d) = IsSorted-parts xs e ys h.1 in
    let (p, q) = All-parts (λ z. x.key < z.key) xs (e ∷ ys) h.0 in ((p, a), (q.0, b), c, d)

pub IsSorted-append :
    (k : ℕ) (xs ys : List Entry)
    → IsSorted xs
    → AllBelow k xs
    → IsSorted ys
    → All (λ e. k ≤ e.key) ys
    → IsSorted (xs ++ ys)
IsSorted-append k [] ys a b c d = c
IsSorted-append k (x ∷ xs) ys a b c d = (
  All-append (λ z. x.key < z.key) xs ys a.0 (All-mono _ _ ys d (λ e h. let u = b.0 in omega arith)),
  IsSorted-append k xs ys a.1 b.1 c d,
)

AllAbove-below : (m k : ℕ) (es : List Entry) → AllAbove m es → AllAbove m (below k es)
AllAbove-below m k [] h = tt
AllAbove-below m k (e ∷ es) h = ground (arith, h.0, AllAbove-below m k es h.1)

AllAbove-above : (m k : ℕ) (es : List Entry) → AllAbove m es → AllAbove m (above k es)
AllAbove-above m k [] h = tt
AllAbove-above m k (e ∷ es) h = ground (arith, h.0, AllAbove-above m k es h.1)

below_lem :
    (k : ℕ) (es : List Entry) → IsSorted es → IsSorted (below k es) × AllBelow k (below k es)
below_lem k [] h = (tt, tt)
below_lem k (e ∷ es) h = ground (arith, h.0, below_lem k es h.1, AllAbove-below e.key k es h.0)

above_lem :
    (k : ℕ) (es : List Entry) → IsSorted es → IsSorted (above k es) × AllAbove k (above k es)
above_lem k [] h = (tt, tt)
above_lem k (e ∷ es) h = ground (arith, h.0, above_lem k es h.1, AllAbove-above e.key k es h.0)

-- What stands at a key, or nothing.
abbrev pub AtKey : ℕ → List Entry → Type 0
AtKey k mid = (mid ≡ []) ⊎ ((e : Entry) × (mid ≡ e ∷ []) × (e.key ≡ k))

pub inserted-AtKey : (change : EntryChange) → AtKey change.entry.key (inserted change)
inserted-AtKey change = elim (Bool-cases change.deleted) [
  | inl d ↦ inl (ground arith)
  | inr n ↦ inr (change.entry, ground arith, refl)
]

IsSorted-mid :
    (k : ℕ) (mid ys : List Entry)
    → AtKey k mid
    → IsSorted ys
    → AllAbove k ys
    → IsSorted (mid ++ ys) × All (λ e. k ≤ e.key) (mid ++ ys)
IsSorted-mid k mid ys (inl e) h q =
    rw e (h, All-mono (λ z. k < z.key) (λ z. k ≤ z.key) ys q (λ z w. omega arith))
IsSorted-mid k mid ys (inr (e, m, p)) h q = rw m (
  (All-mono (λ z. k < z.key) (λ z. e.key < z.key) ys q (λ z w. omega arith), h),
  (omega arith, All-mono (λ z. k < z.key) (λ z. k ≤ z.key) ys q (λ z w. omega arith)),
)

-- A change keeps the entries sorted.
pub effect-IsSorted :
    (change : EntryChange) (es : List Entry) → IsSorted es → IsSorted (effect change es)
unfolding effect
effect-IsSorted change es h =
    let k = change.entry.key in
    let (a, b) = below_lem k es h in
    let (c, d) = above_lem k es h in
    let (p, q) = IsSorted-mid k (inserted change) (above k es) (inserted-AtKey change) c d in
    IsSorted-append k (below k es) (inserted change ++ above k es) a b p q

-- How a key splits entries that have a greater entry, or a smaller one, or one with the key itself.
pub split_left :
    (k : ℕ) (xs : List Entry) (e : Entry) (ys : List Entry)
    → k < e.key
    → IsSorted (xs ++ e ∷ ys)
    → (below k (xs ++ e ∷ ys) ≡ below k xs) × (above k (xs ++ e ∷ ys) ≡ above k xs ++ e ∷ ys)
split_left k xs e ys h s =
    let (_, _, c, _) = IsSorted-parts xs e ys s in
    let (p, q) =
      above_all k (e ∷ ys)
        (h, All-mono (λ z. e.key < z.key) (λ z. k < z.key) ys c (λ z w. omega arith)) in
    (
      below-append k xs (e ∷ ys) ∙ ap (λ z. below k xs ++ z) p ∙ append-nil (below k xs),
      above-append k xs (e ∷ ys) ∙ ap (λ z. above k xs ++ z) q,
    )

pub split_right :
    (k : ℕ) (xs : List Entry) (e : Entry) (ys : List Entry)
    → e.key < k
    → IsSorted (xs ++ e ∷ ys)
    → (below k (xs ++ e ∷ ys) ≡ xs ++ e ∷ below k ys) × (above k (xs ++ e ∷ ys) ≡ above k ys)
split_right k xs e ys h s =
    let (_, b, _, _) = IsSorted-parts xs e ys s in
    let (p, q) =
      below_all k xs (All-mono (λ z. z.key < e.key) (λ z. z.key < k) xs b (λ z w. omega arith)) in
    (below-append k xs (e ∷ ys) ∙ ground (arith, p), above-append k xs (e ∷ ys) ∙ ground (arith, q))

pub edit_hit :
    (k : ℕ) (mid xs : List Entry) (e : Entry) (ys : List Entry)
    → e.key ≡ k
    → IsSorted (xs ++ e ∷ ys)
    → edit k mid (xs ++ e ∷ ys) ≡ xs ++ (mid ++ ys)
unfolding edit
edit_hit k mid xs e ys h s =
    let (_, b, c, _) = IsSorted-parts xs e ys s in
    let (p, q) =
      below_all k xs (All-mono (λ z. z.key < e.key) (λ z. z.key < k) xs b (λ z w. omega arith)) in
    let (r, t) =
      above_all k ys (All-mono (λ z. e.key < z.key) (λ z. k < z.key) ys c (λ z w. omega arith)) in
    rw (below-append k xs (e ∷ ys), above-append k xs (e ∷ ys))
      (ground (arith, p, q, r, t, append-nil xs))

pub edit_left :
    (k : ℕ) (mid xs : List Entry) (e : Entry) (ys : List Entry)
    → k < e.key
    → IsSorted (xs ++ e ∷ ys)
    → edit k mid (xs ++ e ∷ ys) ≡ edit k mid xs ++ e ∷ ys
unfolding edit
edit_left k mid xs e ys h s =
    let (p, q) = split_left k xs e ys h s in rw (p, q) (simp (append_assoc))

pub edit_right :
    (k : ℕ) (mid xs : List Entry) (e : Entry) (ys : List Entry)
    → e.key < k
    → IsSorted (xs ++ e ∷ ys)
    → edit k mid (xs ++ e ∷ ys) ≡ xs ++ e ∷ edit k mid ys
unfolding edit
edit_right k mid xs e ys h s =
    let (p, q) = split_right k xs e ys h s in rw (p, q) (simp (append_assoc))

-- Without an entry at a key there is nothing to remove.
pub edit_absent :
    (k : ℕ) (es : List Entry) → IsSorted es → All (λ e. e.key ≢ k) es → edit k [] es ≡ es
unfolding edit
edit_absent k [] s h = refl
edit_absent k (e ∷ es) s h = elim (Bool-cases (ltb e.key k)) [
  | inl l ↦ ground (arith, edit_absent k es s.1 h.1)
  | inr n ↦ ground (
    arith,
    h.0,
    above_all k es
        (All-mono (λ z. e.key < z.key) (λ z. k < z.key) es s.0 (λ z w. ground (arith, h.0))),
  )
]
