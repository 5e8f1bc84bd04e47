-- ===== src/Merging/CommonAncestor/Sets.antt =====
-- The set of commits in bin/ledger/app/merging/common_ancestor.cc.
use peridot.Base.{
  All, Any, All-mono, ◌≡◌, sym, true, List, [], ◌∷◌, inl, inr, arith, subst, Bool-cases,
}
use peridot.Merging.CommonAncestor.{Commit, newer, insert}

-- Every commit is newer than the next ones.
abbrev pub AreOrdered : List Commit → Type 0
AreOrdered [] = Unit
AreOrdered (c ∷ cs) = All (λ d. newer c d ≡ true) cs × AreOrdered cs

pub insert-All :
    (P : Commit → Type 0) (c : Commit) (cs : List Commit) → P c → All P cs → All P (insert c cs)
unfolding insert
insert-All P c [] h k = (h, tt)
insert-All P c (d ∷ ds) h k = elim (Bool-cases (newer d c)) [
  | inl a ↦ rw a (k.0, insert-All P c ds h k.1)
  | inr b ↦ elim (Bool-cases (newer c d)) [
    | inl a ↦ rw (b, a) (h, (k.0, k.1))
    | inr e ↦ rw (b, e) (k.0, k.1)
  ]
]

newer_trans : (a b c : Commit) → newer a b ≡ true → newer b c ≡ true → newer a c ≡ true
newer_trans a b c h k = ground arith

pub insert-AreOrdered : (c : Commit) (cs : List Commit) → AreOrdered cs → AreOrdered (insert c cs)
unfolding insert
insert-AreOrdered c [] h = (tt, tt)
insert-AreOrdered c (d ∷ ds) h = elim (Bool-cases (newer d c)) [
  | inl a ↦ rw a (insert-All (λ z. newer d z ≡ true) c ds a h.0, insert-AreOrdered c ds h.1)
  | inr b ↦ elim (Bool-cases (newer c d)) [
    | inl a ↦
        rw (b, a)
          (
            (
              a,
              All-mono (λ z. newer d z ≡ true) (λ z. newer c z ≡ true) ds h.0
                  (λ z w. newer_trans c d z a w),
            ),
            (h.0, h.1),
          )
    | inr e ↦ rw (b, e) (h.0, h.1)
  ]
]

pub insert-kept :
    (P : Commit → Type 0) (c : Commit) (cs : List Commit) → Any P cs → Any P (insert c cs)
unfolding insert
insert-kept P c [] h = absurd h
insert-kept P c (d ∷ ds) h = elim (Bool-cases (newer d c)) [
  | inl a ↦ rw a (elim h [ inl p ↦ inl p | inr p ↦ inr (insert-kept P c ds p) ])
  | inr b ↦ elim (Bool-cases (newer c d)) [ inl a ↦ rw (b, a) (inr h) | inr e ↦ rw (b, e) h ]
]

-- A commit that is not inserted is in the set already, if commits of one identifier are equal.
pub insert-new :
    (P : Commit → Type 0) (c : Commit) (cs : List Commit)
    → P c
    → All (λ d. d.id ≡ c.id → d ≡ c) cs
    → Any P (insert c cs)
unfolding insert
insert-new P c [] h k = inl h
insert-new P c (d ∷ ds) h k = elim (Bool-cases (newer d c)) [
  | inl a ↦ rw a (inr (insert-new P c ds h k.1))
  | inr b ↦ elim (Bool-cases (newer c d)) [
    | inl a ↦ rw (b, a) (inl h)
    | inr e ↦ let q : d.id ≡ c.id = ground arith in rw (b, e) (inl (subst P (sym (k.0 q)) h))
  ]
]
