-- ===== src/Base/Lists.antt =====
-- Lists measured by native numbers: length, membership tests, additive weights, and removal of one
-- entry by position.
use Prim.Native.Nat.{ℕ, zero, suc, ◌+◌}
use mathlib.Core.Path.{◌≡◌, refl, ap, subst}
use mathlib.Core.Bool.{Bool, true, false, ◌||◌}
use mathlib.Core.List.{List, [], ◌∷◌}
use mathlib.Core.List.{◌++◌}
use mathlib.Core.Logic.{◌⊎◌, inl, inr}
use mathlib.Core.Option.{Option, none, some}
use native.Mathlib.Omega.{arith}
use peridot.Base.Tests.{if◌then◌else◌, ◌==◌}

-- `commit_ids.count(id) != 0`, on identifiers that are only compared for equality.
abbrev pub contains : List ℕ → ℕ → Bool
contains [] a = false
contains (x ∷ xs) a = x == a || contains xs a

module _ {ℓ} {A : Type ℓ} where
  abbrev pub length : List A → ℕ
  length [] = 0
  length (x ∷ xs) = suc (length xs)

  abbrev pub is_empty : List A → Bool
  is_empty [] = true
  is_empty (x ∷ xs) = false

  -- The entries that pass a test, in order.
  abbrev pub keep : (A → Bool) → List A → List A
  keep test [] = []
  keep test (x ∷ xs) = if test x then x ∷ keep test xs else keep test xs

  -- The sum of the entries' weights.
  abbrev pub total : (A → ℕ) → List A → ℕ
  total w [] = 0
  total w (x ∷ xs) = w x + total w xs

  abbrev pub put_back : A → Option (A × List A) → Option (A × List A)
  put_back x none = none
  put_back x (some (a, rest)) = some (a, x ∷ rest)

  -- The entry at a position, and the list without it.
  unfoldable pub pick : ℕ → List A → Option (A × List A)
  pick i [] = none
  pick zero (x ∷ xs) = some (x, xs)
  pick (suc i) (x ∷ xs) = put_back x (pick i xs)

  pub put_back-eq-some :
      (x : A) (o : Option (A × List A)) {a : A} {rest : List A}
      → put_back x o ≡ some (a, rest)
      → (r : List A) × (o ≡ some (a, r)) × (rest ≡ x ∷ r)
  put_back-eq-some x none h = ground arith
  put_back-eq-some x (some (b, r)) h = (r, ground arith, ground arith)

  -- Taking one entry out takes its weight out, whatever is weighed.
  pub total-pick :
      (w : A → ℕ) (i : ℕ) (xs : List A) (a : A) (rest : List A)
      → pick i xs ≡ some (a, rest)
      → total w xs ≡ w a + total w rest
  unfolding pick
  total-pick w i [] a rest h = ground arith
  total-pick w zero (x ∷ xs) a rest h = ground arith
  total-pick w (suc i) (x ∷ xs) a rest h =
      let (r, e, k) = put_back-eq-some x (pick i xs) h in ground (arith, total-pick w i xs a r e)

-- How often a number occurs.
abbrev pub count : ℕ → List ℕ → ℕ
count a = total (λ x. if x == a then 1 else 0)

abbrev pub All {ℓ} : {A : Type ℓ} → (A → Type 0) → List A → Type 0
All P [] = Unit
All P (c ∷ cs) = P c × All P cs

abbrev pub Any {ℓ} : {A : Type ℓ} → (A → Type 0) → List A → Type 0
Any P [] = ⊥
Any P (c ∷ cs) = P c ⊎ Any P cs

pub All-mono {ℓ} :
    {A : Type ℓ} (P Q : A → Type 0) (cs : List A) → All P cs → ((c : A) → P c → Q c) → All Q cs
All-mono P Q [] h g = tt
All-mono P Q (c ∷ cs) h g = (g c h.0, All-mono P Q cs h.1 g)

pub All-append {ℓ} :
    {A : Type ℓ} (P : A → Type 0) (xs ys : List A) → All P xs → All P ys → All P (xs ++ ys)
All-append P [] ys h k = k
All-append P (x ∷ xs) ys h k = (h.0, All-append P xs ys h.1 k)

pub Any-left {ℓ} : {A : Type ℓ} (P : A → Type 0) (xs ys : List A) → Any P xs → Any P (xs ++ ys)
Any-left P [] ys h = absurd h
Any-left P (x ∷ xs) ys (inl h) = inl h
Any-left P (x ∷ xs) ys (inr h) = inr (Any-left P xs ys h)

pub Any-right {ℓ} : {A : Type ℓ} (P : A → Type 0) (xs ys : List A) → Any P ys → Any P (xs ++ ys)
Any-right P [] ys h = h
Any-right P (x ∷ xs) ys h = inr (Any-right P xs ys h)

pub length-snoc {ℓ} : {A : Type ℓ} (c : A) (cs : List A) → length (cs ++ (c ∷ [])) ≡ suc (length cs)
length-snoc c [] = refl
length-snoc c (d ∷ ds) = ap suc (length-snoc c ds)

pub All-at :
    {A : Type 0} (P : A → Type 0) (xs : List A) {a : A} → All P xs → Any (λ x. x ≡ a) xs → P a
All-at P [] h k = absurd k
All-at P (x ∷ xs) h (inl e) = subst P e h.0
All-at P (x ∷ xs) h (inr k) = All-at P xs h.1 k

-- Each entry of a list is in it.
pub All-self : {A : Type 0} (xs : List A) → All (λ a. Any (λ x. x ≡ a) xs) xs
All-self [] = tt
All-self (x ∷ xs) = (
  inl refl,
  All-mono (λ a. Any (λ y. y ≡ a) xs) (λ a. Any (λ y. y ≡ a) (x ∷ xs)) xs (All-self xs)
      (λ a k. inr k),
)

pub Any-at :
    {A : Type 0} (P : A → Type 0) (xs : List A) → Any P xs → (a : A) × P a × Any (λ x. x ≡ a) xs
Any-at P [] h = absurd h
Any-at P (x ∷ xs) (inl h) = (x, h, inl refl)
Any-at P (x ∷ xs) (inr h) = let (a, k, m) = Any-at P xs h in (a, k, inr m)
