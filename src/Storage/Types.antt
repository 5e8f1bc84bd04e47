-- ===== src/Storage/Types.antt =====
-- bin/ledger/storage/public/types.h: the types that the parts of the storage share. Keys and object
-- identifiers are numbers, in the order of the source's. `Result` is what a call gives that returns a
-- status: a value where it is OK, else the status; `aborted` is a failed `FXL_DCHECK`.
use peridot.Base.{ℕ, Bool, true, false, ◌≡◌, refl, subst}

pub data Status : Type 0 where
  ok io_error not_found format_error illegal_state internal_io_error interrupted : Status
  not_connected_error no_such_child object_digest_mismatch not_implemented : Status

abbrev pub is_ok : Status → Bool
is_ok ok = true
is_ok _ = false

pub data KeyPriority : Type 0 where
  eager lazy : KeyPriority

pub record Entry : Type 0 where
  pub key : ℕ
  pub object_identifier : ℕ
  pub priority : KeyPriority

pub record EntryChange : Type 0 where
  pub entry : Entry
  pub deleted : Bool

-- An entry and the identifier of the node in which it stands.
pub record EntryAndNodeIdentifier : Type 0 where
  pub entry : Entry
  pub node_identifier : ℕ

pub data Result {ℓ} (A : Type ℓ) : Type ℓ where
  done : A → Result A
  failed : Status → Result A
  aborted : Result A

infixl 5 ◌>>=◌
abbrev pub ◌>>=◌ {ℓ κ} : {A : Type ℓ} {B : Type κ} → Result A → (A → Result B) → Result B
done a >>= f = f a
failed s >>= f = failed s
aborted >>= f = aborted

abbrev pub check {ℓ} : {A : Type ℓ} → Bool → Result A → Result A
check true rest = rest
check false rest = aborted

-- The call succeeds, with a value that has a property.
abbrev pub Gives {ℓ} : {A : Type ℓ} → (A → Type 0) → Result A → Type 0
Gives P (done a) = P a
Gives P (failed s) = ⊥
Gives P aborted = ⊥

module _ {ℓ} {A : Type ℓ} (P : A → Type 0) where
  pub Gives-bind {κ} :
      {B : Type κ} (Q : B → Type 0) (m : Result A) (f : A → Result B)
      → Gives P m
      → ((a : A) → P a → Gives Q (f a))
      → Gives Q (m >>= f)
  Gives-bind Q (done a) f h k = k a h
  Gives-bind Q (failed s) f h k = absurd h
  Gives-bind Q aborted f h k = absurd h

  -- A call of which this holds has a value.
  pub Gives-done : (m : Result A) → Gives P m → (a : A) × (m ≡ done a) × P a
  Gives-done (done a) h = (a, refl, h)
  Gives-done (failed s) h = absurd h
  Gives-done aborted h = absurd h

  pub Gives-mono : (Q : A → Type 0) (m : Result A) → Gives P m → ((a : A) → P a → Q a) → Gives Q m
  Gives-mono Q (done a) h k = k a h
  Gives-mono Q (failed s) h k = absurd h
  Gives-mono Q aborted h k = absurd h

-- The call fails no check, and if it succeeds its value has a property.
abbrev pub Ends {ℓ} : {A : Type ℓ} → (A → Type 0) → Result A → Type 0
Ends P (done a) = P a
Ends P (failed s) = Unit
Ends P aborted = ⊥

module _ {ℓ} {A : Type ℓ} (P : A → Type 0) where
  pub Ends-bind {κ} :
      {B : Type κ} (Q : B → Type 0) (m : Result A) (f : A → Result B)
      → Ends P m
      → ((a : A) → P a → Ends Q (f a))
      → Ends Q (m >>= f)
  Ends-bind Q (done a) f h k = k a h
  Ends-bind Q (failed s) f h k = tt
  Ends-bind Q aborted f h k = absurd h

  pub Ends-eq : (m : Result A) {a : A} → m ≡ done a → Ends P m → P a
  Ends-eq m e h = subst (Ends P) e h

  pub Ends-mono : (Q : A → Type 0) (m : Result A) → Ends P m → ((a : A) → P a → Q a) → Ends Q m
  Ends-mono Q (done a) h k = k a h
  Ends-mono Q (failed s) h k = tt
  Ends-mono Q aborted h k = absurd h

-- If the call succeeds, its value has a property.
abbrev pub Holds {ℓ} : {A : Type ℓ} → (A → Type 0) → Result A → Type 0
Holds P (done a) = P a
Holds P (failed s) = Unit
Holds P aborted = Unit

module _ {ℓ} {A : Type ℓ} (P : A → Type 0) where
  pub Holds-bind {κ} :
      {B : Type κ} (Q : B → Type 0) (m : Result A) (f : A → Result B)
      → Holds P m
      → ((a : A) → P a → Holds Q (f a))
      → Holds Q (m >>= f)
  Holds-bind Q (done a) f h k = k a h
  Holds-bind Q (failed s) f h k = tt
  Holds-bind Q aborted f h k = tt

  pub Holds-mono : (Q : A → Type 0) (m : Result A) → Holds P m → ((a : A) → P a → Q a) → Holds Q m
  Holds-mono Q (done a) h k = k a h
  Holds-mono Q (failed s) h k = tt
  Holds-mono Q aborted h k = tt

  pub Ends-Holds : (m : Result A) → Ends P m → Holds P m
  Ends-Holds (done a) h = h
  Ends-Holds (failed s) h = tt
  Ends-Holds aborted h = tt

  pub Holds-done : (m : Result A) {a : A} → m ≡ done a → Holds P m → P a
  Holds-done m e h = subst (Holds P) e h

  pub Holds-check : (b : Bool) (m : Result A) → Holds P m → Holds P (check b m)
  Holds-check true m h = h
  Holds-check false m h = tt

-- A call of which nothing is known.
pub Holds-any {ℓ} : {A : Type ℓ} (m : Result A) → Holds (λ a. Unit) m
Holds-any (done a) = tt
Holds-any (failed s) = tt
Holds-any aborted = tt

-- The call fails no check, it fails otherwise only if `F`, and if it succeeds its value has a property.
abbrev pub Meets {ℓ} : {A : Type ℓ} → Type 0 → (A → Type 0) → Result A → Type 0
Meets F P (done a) = P a
Meets F P (failed s) = F
Meets F P aborted = ⊥

module _ {ℓ} {A : Type ℓ} (F : Type 0) (P : A → Type 0) where
  pub Meets-bind {κ} :
      {B : Type κ} (Q : B → Type 0) (m : Result A) (f : A → Result B)
      → Meets F P m
      → ((a : A) → P a → Meets F Q (f a))
      → Meets F Q (m >>= f)
  Meets-bind Q (done a) f h k = k a h
  Meets-bind Q (failed s) f h k = h
  Meets-bind Q aborted f h k = absurd h

  pub Meets-mono :
      (Q : A → Type 0) (m : Result A) → Meets F P m → ((a : A) → P a → Q a) → Meets F Q m
  Meets-mono Q (done a) h k = k a h
  Meets-mono Q (failed s) h k = h
  Meets-mono Q aborted h k = absurd h

pub Meets-done {ℓ} :
    {A : Type ℓ} (P Q : A → Type 0) (m : Result A)
    → Meets ⊥ P m
    → Ends Q m
    → (a : A) × (m ≡ done a) × P a × Q a
Meets-done P Q (done a) h k = (a, refl, h, k)
Meets-done P Q (failed s) h k = absurd h
Meets-done P Q aborted h k = absurd h

-- The value that a call gives, as an equation.
pub Holds-self : {A : Type 0} (m : Result A) → Holds (λ a. m ≡ done a) m
Holds-self (done a) = refl
Holds-self (failed s) = tt
Holds-self aborted = tt

pub Ends-self : {A : Type 0} (P : A → Type 0) (m : Result A) → Ends P m → Ends (λ a. m ≡ done a) m
Ends-self P (done a) h = refl
Ends-self P (failed s) h = tt
Ends-self P aborted h = absurd h

pub Holds-both {ℓ} :
    {A : Type ℓ} (P Q : A → Type 0) (m : Result A)
    → Meets Unit P m
    → Ends Q m
    → Holds (λ a. P a × Q a) m
Holds-both P Q (done a) h k = (h, k)
Holds-both P Q (failed s) h k = tt
Holds-both P Q aborted h k = tt

pub done_injective : {A : Type 0} {a b : A} → done a ≡ done b → a ≡ b
done_injective {a = a} {b = b} e = Holds-done (λ z. a ≡ z) (done a) e refl
