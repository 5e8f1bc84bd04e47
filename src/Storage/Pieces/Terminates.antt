-- ===== src/Storage/Pieces/Terminates.antt =====
-- The loop of `MarkAllPiecesLocal`, bin/ledger/storage/impl/page_storage_impl.cc, ends: an object is pushed
-- only while it has not been seen, and what is pushed last is popped first.
use peridot.Base.{
  ℕ, zero, suc, Bool, true, false, List, [], ◌∷◌, if◌then◌else◌, ◌≡◌, ◌==◌, ==_iff, ◌⊎◌, inl, inr,
  refl, sym, subst, ◌∙◌, contains, arith, Bool-cases, total, ◌<◌, ◌≤◌,
}
use peridot.Storage.Types.{
  done_injective, Result, done, failed, aborted, Ends, Ends-bind, Ends-self, Ends-eq,
}
use peridot.Storage.PageDb.{Db, Write, local, set_object_status}
use peridot.Storage.Pieces.{ObjectReads, is_inline, children, push_children, mark_all_pieces_local}

-- How many entries of a list have not been seen.
abbrev unseen : List ℕ → List ℕ → ℕ
unseen seen = total (λ i. if contains seen i then 0 else 1)

unseen-less : (i : ℕ) (seen us : List ℕ) → unseen (i ∷ seen) us ≤ unseen seen us
unseen-less i seen [] = omega arith
unseen-less i seen (u ∷ us) = ground (arith, unseen-less i seen us)

unseen-seen :
    (i : ℕ) (seen us : List ℕ)
    → contains us i ≡ true
    → contains seen i ≡ false
    → unseen (i ∷ seen) us < unseen seen us
unseen-seen i seen [] h k = absurd (ground arith)
unseen-seen i seen (u ∷ us) h k = elim (Bool-cases (u == i)) [
  | inl e ↦ let q : u ≡ i = (==_iff u i).0 e in rw q (rw k (ground (arith, unseen-less i seen us)))
  | inr e ↦ ground (arith, unseen-less i seen us, unseen-seen i seen us (ground (arith, e, h)) k)
]

module _ (db : Db) (objects : ObjectReads) (us : List ℕ)
    (marks : (i : ℕ) (b : List Write)
      → contains us i ≡ true
      → Ends (λ d. Unit) (set_object_status db i local b))
    (reads : (i : ℕ)
      → contains us i ≡ true
      → Ends
          (λ cs.
            (j : ℕ)
            → contains cs j ≡ true
            → is_inline (objects.digest_type j) ≡ false
            → contains us j ≡ true)
          (children db objects i))
    (pieces : (i : ℕ) → contains us i ≡ true → is_inline (objects.digest_type i) ≡ false) where
  abbrev Within : List ℕ → Type 0
  Within stack = (j : ℕ) → contains stack j ≡ true → contains us j ≡ true

  -- Fuel that is enough.
  abbrev Enough : ℕ → List ℕ → List ℕ → Type 0
  Enough n stack seen =
      (m : ℕ) (b : List Write)
      → n ≤ m
      → Ends (λ d. Unit) (mark_all_pieces_local db objects m stack seen b)

  abbrev Terminates : List ℕ → List ℕ → Type 0
  Terminates stack seen = (n : ℕ) × Enough n stack seen

  -- Nothing is pushed, or what is pushed last has not been seen.
  abbrev PushedUnseen : List ℕ → List ℕ → List ℕ → Type 0
  PushedUnseen seen stack pushed =
      (pushed ≡ stack)
      ⊎ ((c : ℕ) × (rest : List ℕ) × (pushed ≡ c ∷ rest) × (contains seen c ≡ false))

  push-PushedUnseen :
      (seen cs stack pushed : List ℕ)
      → PushedUnseen seen stack pushed
      → PushedUnseen seen stack (push_children db objects seen cs pushed)
  unfolding push_children
  push-PushedUnseen seen [] stack pushed h = h
  push-PushedUnseen seen (c ∷ cs) stack pushed h =
      push-PushedUnseen seen cs stack
        (if is_inline (objects.digest_type c)
          then pushed
          else if contains seen c
          then pushed
          else c ∷ pushed)
        (go (is_inline (objects.digest_type c)) (contains seen c) refl)
    where
      go :
          (t u : Bool)
          → contains seen c ≡ u
          → PushedUnseen seen stack (if t then pushed else if u then pushed else c ∷ pushed)
      go true u e = h
      go false true e = h
      go false false e = inr (c, pushed, refl, e)

  push-Within :
      (seen cs stack : List ℕ)
      → Within stack
      → ((j : ℕ)
          → contains cs j ≡ true
          → is_inline (objects.digest_type j) ≡ false
          → contains us j ≡ true)
      → Within (push_children db objects seen cs stack)
  unfolding push_children
  push-Within seen [] stack h k = h
  push-Within seen (c ∷ cs) stack h k =
      push-Within seen cs
        (if is_inline (objects.digest_type c)
          then stack
          else if contains seen c
          then stack
          else c ∷ stack)
        (go (is_inline (objects.digest_type c)) (contains seen c) refl)
        (λ j t. k j (ground (arith, t)))
    where
      go :
          (t u : Bool)
          → is_inline (objects.digest_type c) ≡ t
          → Within (if t then stack else if u then stack else c ∷ stack)
      go true u e = h
      go false true e = h
      go false false e = λ j t. elim (Bool-cases (c == j)) [
        | inl q ↦ subst (λ z. contains us z ≡ true) ((==_iff c j).0 q) (k c (ground arith) e)
        | inr q ↦ h j (ground (arith, q, t))
      ]

  Enough-step :
      (i : ℕ) (stack seen : List ℕ) (n : ℕ)
      → contains us i ≡ true
      → ((cs : List ℕ)
          → children db objects i ≡ done cs
          → Enough n (push_children db objects (i ∷ seen) cs stack) (i ∷ seen))
      → Enough (suc n) (i ∷ stack) seen
  unfolding mark_all_pieces_local
  Enough-step i stack seen n h k zero b l = absurd (omega (arith, l))
  Enough-step i stack seen n h k (suc m) b l = rw (pieces i h) (
      Ends-bind (λ d. Unit) (λ d. Unit) (set_object_status db i local b) _ (marks i b h)
        (λ d t.
          Ends-bind (λ cs. children db objects i ≡ done cs) (λ d. Unit) (children db objects i) _
            (Ends-self
              (λ cs.
                (j : ℕ)
                → contains cs j ≡ true
                → is_inline (objects.digest_type j) ≡ false
                → contains us j ≡ true)
              (children db objects i) (reads i h))
            (λ cs e. k cs e m d (omega (arith, l)))))

  step :
      (i : ℕ) (stack seen : List ℕ)
      → contains us i ≡ true
      → ((cs : List ℕ)
          → children db objects i ≡ done cs
          → Terminates (push_children db objects (i ∷ seen) cs stack) (i ∷ seen))
      → Terminates (i ∷ stack) seen
  step i stack seen h k = go (children db objects i) refl
    where
      go : (r : Result (List ℕ)) → children db objects i ≡ r → Terminates (i ∷ stack) seen
      go (done cs) e =
          let (n, f) = k cs e in
          (
            suc n,
            Enough-step i stack seen n h (λ ds d.
                subst (λ z. Enough n (push_children db objects (i ∷ seen) z stack) (i ∷ seen))
                  (done_injective (sym e ∙ d)) f),
          )
      go (failed x) e = (1, Enough-step i stack seen 0 h (λ ds d. absurd (ground (arith, e, d))))
      go aborted e = (1, Enough-step i stack seen 0 h (λ ds d. absurd (ground (arith, e, d))))

  pushed-Within :
      (i : ℕ) (stack seen cs : List ℕ)
      → Within (i ∷ stack)
      → children db objects i ≡ done cs
      → Within (push_children db objects (i ∷ seen) cs stack)
  pushed-Within i stack seen cs h e =
      push-Within (i ∷ seen) cs stack (λ j t. h j (ground (arith, t)))
        (Ends-eq _ (children db objects i) e (reads i (h i (ground arith))))

  -- A stack whose top has not been seen: the next stack has less that has not been seen.
  top_unseen :
      (k : ℕ)
      → ((stack seen : List ℕ) → Within stack → unseen seen us < k → Terminates stack seen)
      → (i : ℕ) (stack seen : List ℕ) → Within (i ∷ stack)
      → contains seen i ≡ false
      → unseen seen us < suc k
      → Terminates (i ∷ stack) seen
  top_unseen k ih i stack seen h t l =
      let at : contains us i ≡ true = h i (ground arith) in
      step i stack seen at (λ cs e.
        ih (push_children db objects (i ∷ seen) cs stack) (i ∷ seen)
          (pushed-Within i stack seen cs h e) (omega (arith, l, unseen-seen i seen us at t)))

  empty_stack :
      (m : ℕ) (seen : List ℕ) (b : List Write)
      → 1 ≤ m
      → Ends (λ d. Unit) (mark_all_pieces_local db objects m [] seen b)
  unfolding mark_all_pieces_local
  empty_stack zero seen b l = absurd (omega (arith, l))
  empty_stack (suc m) seen b l = tt

  on_stack :
      (k : ℕ)
      → ((stack seen : List ℕ) → Within stack → unseen seen us < k → Terminates stack seen)
      → (stack seen : List ℕ) → Within stack
      → unseen seen us < suc k
      → Terminates stack seen
  on_stack k ih [] seen h l = (1, λ m b n. empty_stack m seen b n)
  on_stack k ih (i ∷ stack) seen h l = elim (Bool-cases (contains seen i)) [
    | inr t ↦ top_unseen k ih i stack seen h t l
    | inl t ↦ step i stack seen (h i (ground arith)) (λ cs e.
        elim (push-PushedUnseen (i ∷ seen) cs stack stack (inl refl)) [
          | inl q ↦
              subst (λ z. Terminates z (i ∷ seen)) (sym q)
                (on_stack k ih stack (i ∷ seen) (λ j u. h j (ground (arith, u)))
                  (omega (arith, l, unseen-less i seen us)))
          | inr (c, rest, q, u) ↦
              subst (λ z. Terminates z (i ∷ seen)) (sym q)
                (top_unseen k ih c rest (i ∷ seen)
                  (subst Within q (pushed-Within i stack seen cs h e)) u
                  (omega (arith, l, unseen-less i seen us)))
        ])
  ]

  terminates :
      (k : ℕ) (stack seen : List ℕ) → Within stack → unseen seen us < k → Terminates stack seen
  terminates zero stack seen h l = absurd (omega (arith, l))
  terminates (suc k) stack seen h l = on_stack k (terminates k) stack seen h l

-- With enough fuel the call ends, and it fails no check: this holds if the objects are of a list that has
-- the children of its objects, none of them inline, and if marking or reading one of them fails no check.
pub mark_all_pieces_local-terminates :
    (db : Db) (objects : ObjectReads) (us stack : List ℕ)
    → ((i : ℕ) (b : List Write)
        → contains us i ≡ true
        → Ends (λ d. Unit) (set_object_status db i local b))
    → ((i : ℕ)
        → contains us i ≡ true
        → Ends
            (λ cs.
              (j : ℕ)
              → contains cs j ≡ true
              → is_inline (objects.digest_type j) ≡ false
              → contains us j ≡ true)
            (children db objects i))
    → ((i : ℕ) → contains us i ≡ true → is_inline (objects.digest_type i) ≡ false)
    → ((i : ℕ) → contains stack i ≡ true → contains us i ≡ true)
    → (n : ℕ) × ((m : ℕ) (b : List Write)
        → n ≤ m
        → Ends (λ d. Unit) (mark_all_pieces_local db objects m stack [] b))
mark_all_pieces_local-terminates db objects us stack marks reads pieces h =
    terminates db objects us marks reads pieces (suc (unseen [] us)) stack [] h (omega arith)
