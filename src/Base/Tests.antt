-- ===== src/Base/Tests.antt =====
-- Boolean tests on the native numbers, the conditional, and case rules that keep the equation.
use Prim.Native.Nat.{ℕ, ◌+◌, ◌%◌, ◌^◌, compare, Ordering}
use mathlib.Core.Path.{◌≡◌, refl, subst}
use mathlib.Core.Logic.{◌↔◌, ◌⊎◌, inl, inr}
use mathlib.Core.Bool.{Bool, true, false}
use mathlib.Core.Option.{Option, none, some}
use native.Mathlib.Omega.{arith}

abbrev pub ltb : ℕ → ℕ → Bool
ltb a b = elim (compare a b) [ Ordering.lt ↦ true | _ ↦ false ]

abbrev pub leb : ℕ → ℕ → Bool
leb a b = elim (compare a b) [ Ordering.gt ↦ false | _ ↦ true ]

infix 50 ◌==◌
abbrev pub ◌==◌ : ℕ → ℕ → Bool
a == b = elim (compare a b) [ Ordering.eq ↦ true | _ ↦ false ]

infix 1 if◌then◌else◌
abbrev pub if◌then◌else◌ {ℓ} : {A : Type ℓ} → Bool → A → A → A
if true then x else y = x
if false then x else y = y

pub ==_iff : (a b : ℕ) → ((a == b) ≡ true) ↔ (a ≡ b)
==_iff a b = ground arith

-- To split on a computed value and keep the equation.
pub Bool-cases : (b : Bool) → (b ≡ true) ⊎ (b ≡ false)
Bool-cases true = inl refl
Bool-cases false = inr refl

pub Option-cases {ℓ} : {A : Type ℓ} (o : Option A) → (o ≡ none) ⊎ ((a : A) × (o ≡ some a))
Option-cases none = inl refl
Option-cases (some a) = inr (a, refl)

-- `++` on an `unsigned int`.
abbrev pub inc32 : ℕ → ℕ
inc32 n = (n + 1) % 2 ^ 32

-- A chain of steps that may fail.
infixl 5 ◌>>=◌
abbrev pub ◌>>=◌ {ℓ κ} : {A : Type ℓ} {B : Type κ} → Option A → (A → Option B) → Option B
none >>= f = none
some a >>= f = f a

pub bind-some {ℓ κ} :
    {A : Type ℓ} {B : Type κ} (m : Option A) (f : A → Option B) {t : B}
    → m >>= f ≡ some t
    → (s : A) × (m ≡ some s) × (f s ≡ some t)
bind-some none f e = absurd (ground arith)
bind-some (some s) f e = (s, refl, e)

-- `FXL_DCHECK(condition)`: a debug build stops the process where it fails.
abbrev pub dcheck {ℓ} : {A : Type ℓ} → Bool → Option A → Option A
dcheck true rest = rest
dcheck false rest = none

pub dcheck-some {ℓ} : {A : Type ℓ} (b : Bool) (x : A) {t : A} → dcheck b (some x) ≡ some t → x ≡ t
dcheck-some true x e = ground arith
dcheck-some false x e = absurd (ground arith)

-- No debug check has failed, and the state that was reached has a property.
abbrev pub Reaches {ℓ} : {A : Type ℓ} → (A → Type 0) → Option A → Type 0
Reaches P none = ⊥
Reaches P (some t) = P t

module _ {ℓ} {A : Type ℓ} (P : A → Type 0) where
  pub Reaches-mono :
      (Q : A → Type 0) (m : Option A) → Reaches P m → ((t : A) → P t → Q t) → Reaches Q m
  Reaches-mono Q none h k = absurd h
  Reaches-mono Q (some t) h k = k t h

  pub Reaches-bind {κ} :
      {B : Type κ} (Q : B → Type 0) (m : Option A) (f : A → Option B)
      → Reaches P m
      → ((t : A) → P t → Reaches Q (f t))
      → Reaches Q (m >>= f)
  Reaches-bind Q none f h k = absurd h
  Reaches-bind Q (some t) f h k = k t h

  pub Reaches-eq : (m : Option A) {t : A} → m ≡ some t → Reaches P m → P t
  Reaches-eq m e h = subst (Reaches P) e h

  -- A step that fails no check reaches some state.
  pub Reaches-some : (m : Option A) → Reaches P m → (t : A) × (m ≡ some t) × P t
  Reaches-some none h = absurd h
  Reaches-some (some t) h = (t, refl, h)
