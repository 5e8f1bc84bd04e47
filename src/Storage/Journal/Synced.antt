-- ===== src/Storage/Journal/Synced.antt =====
-- Which objects a commit asks to be synced (`GetObjectsToSync` of
-- bin/ledger/storage/impl/journal_impl.cc).
use peridot.Base.{
  ℕ, ◌≤◌, ◌<◌, ◌≡◌, refl, ap, sym, ◌∙◌, ◌⊎◌, ◌↔◌, inl, inr, Bool, true, ◌||◌, Option, none, some,
  List, [], ◌∷◌, arith, ◌==◌, if◌then◌else◌, Bool-cases, contains,
}
use peridot.Storage.Types.{Status, ok, EntryChange}
use peridot.Storage.Journal.{
  Answers, set_key, erase_key, key_values, insert, untracked_objects, get_objects_to_sync,
  objects_of_entries, wait, ask_untracked, objects_of, prepend,
}

-- What a key has after some changes, if it had `before`.
abbrev pub value_after : ℕ → List EntryChange → Option ℕ → Option ℕ
value_after key [] before = before
value_after key (e ∷ rest) before = value_after key rest (
    if e.entry.key == key
    then (if e.deleted then none else some e.entry.object_identifier)
    else before)

abbrev pub value_at : ℕ → List (ℕ × ℕ) → Option ℕ
value_at key [] = none
value_at key ((k, v) ∷ rest) = if k == key then some v else value_at key rest

-- Every key is above a bound.
abbrev Above : ℕ → List (ℕ × ℕ) → Type 0
Above b [] = Unit
Above b ((k, v) ∷ rest) = (b < k) × Above b rest

abbrev IsMap : List (ℕ × ℕ) → Type 0
IsMap [] = Unit
IsMap ((k, v) ∷ rest) = Above k rest × IsMap rest

Above-trans : (a b : ℕ) (m : List (ℕ × ℕ)) → a < b → Above b m → Above a m
Above-trans a b [] h q = tt
Above-trans a b ((k, v) ∷ rest) h q = (omega (arith, q.0), Above-trans a b rest h q.1)

Above-none : (b key : ℕ) (m : List (ℕ × ℕ)) → key ≤ b → Above b m → value_at key m ≡ none
Above-none b key [] h q = refl
Above-none b key ((k, v) ∷ rest) h q = ground (arith, q.0, Above-none b key rest h q.1)

Above-set_key : (b k v : ℕ) (m : List (ℕ × ℕ)) → b < k → Above b m → Above b (set_key k v m)
unfolding set_key
Above-set_key b k v [] h q = (h, tt)
Above-set_key b k v ((j, w) ∷ rest) h q = ground (arith, q.0, q.1, Above-set_key b k v rest h q.1)

IsMap-set_key : (k v : ℕ) (m : List (ℕ × ℕ)) → IsMap m → IsMap (set_key k v m)
unfolding set_key
IsMap-set_key k v [] q = (tt, tt)
IsMap-set_key k v ((j, w) ∷ rest) q =
    ground
      (arith, q.0, q.1, IsMap-set_key k v rest q.1, Above-set_key j k v rest, Above-trans k j rest)

Above-erase_key : (b k : ℕ) (m : List (ℕ × ℕ)) → Above b m → Above b (erase_key k m)
unfolding erase_key
Above-erase_key b k [] q = tt
Above-erase_key b k ((j, w) ∷ rest) q = ground (arith, q.0, q.1, Above-erase_key b k rest q.1)

IsMap-erase_key : (k : ℕ) (m : List (ℕ × ℕ)) → IsMap m → IsMap (erase_key k m)
unfolding erase_key
IsMap-erase_key k [] q = tt
IsMap-erase_key k ((j, w) ∷ rest) q =
    ground (arith, q.0, q.1, IsMap-erase_key k rest q.1, Above-erase_key j k rest)

value_at-set_key :
    (key k v : ℕ) (m : List (ℕ × ℕ))
    → value_at key (set_key k v m) ≡ (if k == key then some v else value_at key m)
unfolding set_key
value_at-set_key key k v [] = ground arith
value_at-set_key key k v ((j, w) ∷ rest) = ground (arith, value_at-set_key key k v rest)

value_at-erase_key :
    (key k : ℕ) (m : List (ℕ × ℕ))
    → IsMap m
    → value_at key (erase_key k m) ≡ (if k == key then none else value_at key m)
unfolding erase_key
value_at-erase_key key k [] q = ground arith
value_at-erase_key key k ((j, w) ∷ rest) q =
    ground (arith, value_at-erase_key key k rest q.1, Above-none j key rest)

-- The map that is computed from the changes has the last value of each key.
pub key_values-last :
    (key : ℕ) (es : List EntryChange) (m : List (ℕ × ℕ))
    → IsMap m
    → IsMap (key_values es m)
      × (value_at key (key_values es m) ≡ value_after key es (value_at key m))
unfolding key_values
key_values-last key [] m q = (q, refl)
key_values-last key (e ∷ rest) m q = elim (Bool-cases e.deleted) [
  | inl d ↦ ground (
    arith,
    key_values-last key rest (erase_key e.entry.key m) (IsMap-erase_key e.entry.key m q),
    value_at-erase_key key e.entry.key m q,
  )
  | inr n ↦ ground (
    arith,
    key_values-last key rest (set_key e.entry.key e.entry.object_identifier m)
        (IsMap-set_key e.entry.key e.entry.object_identifier m q),
    value_at-set_key key e.entry.key e.entry.object_identifier m,
  )
]

abbrev untracked : Answers → ℕ → ℕ → Bool
untracked a key oid = (a.object_is_untracked key oid).1

abbrev answered : Answers → List (ℕ × ℕ) → List Bool
answered a [] = []
answered a ((k, v) ∷ rest) = untracked a k v ∷ answered a rest

module _ {ℓ} {A : Type ℓ} where
  prepend-ok :
      (x : A) (w : Status × List A) (xs : List A)
      → prepend x w ≡ (ok, xs)
      → (ys : List A) × (w ≡ (ok, ys)) × (xs ≡ x ∷ ys)
  unfolding prepend
  prepend-ok x (ok, ys) xs h = (ys, refl, ground arith)
  prepend-ok x (s, ys) xs h = absurd (ground arith)

  wait-ok :
      (r : Status × A) (rs : List (Status × A)) (xs : List A)
      → wait (r ∷ rs) ≡ (ok, xs)
      → (ys : List A) × (wait rs ≡ (ok, ys)) × (xs ≡ r.1 ∷ ys)
  unfolding wait
  wait-ok (ok, x) rs xs h = prepend-ok x (wait rs) xs h
  wait-ok (s, x) rs xs h = absurd (ground arith)

wait-ask_untracked :
    (a : Answers) (kvs : List (ℕ × ℕ)) (bs : List Bool)
    → wait (ask_untracked a kvs) ≡ (ok, bs)
    → bs ≡ answered a kvs
unfolding wait ask_untracked
wait-ask_untracked a [] bs h = ground arith
wait-ask_untracked a ((k, v) ∷ rest) bs h =
    let (ys, e, c) = wait-ok (a.object_is_untracked k v) (ask_untracked a rest) bs h in
    c ∙ ap (λ z. untracked a k v ∷ z) (wait-ask_untracked a rest ys e)

contains-insert : (x y : ℕ) (ys : List ℕ) → contains (insert x ys) y ≡ (x == y || contains ys y)
unfolding insert
contains-insert x y [] = refl
contains-insert x y (z ∷ zs) = ground (arith, contains-insert x y zs)

-- The value of a key that the storage does not track.
abbrev Wanted : Answers → List (ℕ × ℕ) → ℕ → Type 0
Wanted a kvs oid = (key : ℕ) × (value_at key kvs ≡ some oid) × (untracked a key oid ≡ true)

from_untracked :
    (a : Answers) (oid : ℕ) (kvs : List (ℕ × ℕ)) (result : List ℕ)
    → IsMap kvs
    → contains (untracked_objects kvs (answered a kvs) result) oid ≡ true
    → (contains result oid ≡ true) ⊎ Wanted a kvs oid
unfolding untracked_objects
from_untracked a oid [] result q h = inl h
from_untracked a oid ((k, v) ∷ rest) result q h =
    elim (from_untracked a oid rest (if untracked a k v then insert v result else result) q.1 h) [
      | inl c ↦ elim (Bool-cases (untracked a k v)) [
        | inl u ↦ elim (Bool-cases (v == oid)) [
          | inl e ↦ inr (k, ground arith, ground arith)
          | inr n ↦ inl (ground (arith, contains-insert v oid result))
        ]
        | inr u ↦ inl (ground arith)
      ]
      | inr (key, e, u) ↦ inr (key, ground (arith, Above-none k key rest), u)
    ]

keeps_result :
    (oid : ℕ) (kvs : List (ℕ × ℕ)) (bs : List Bool) (result : List ℕ)
    → contains result oid ≡ true
    → contains (untracked_objects kvs bs result) oid ≡ true
unfolding untracked_objects
keeps_result oid [] bs result h = h
keeps_result oid (p ∷ rest) [] result h = h
keeps_result oid ((k, v) ∷ rest) (b ∷ bs) result h =
    keeps_result oid rest bs (if b then insert v result else result)
      (ground (arith, contains-insert v oid result))

to_untracked :
    (a : Answers) (oid : ℕ) (kvs : List (ℕ × ℕ)) (result : List ℕ)
    → Wanted a kvs oid
    → contains (untracked_objects kvs (answered a kvs) result) oid ≡ true
unfolding untracked_objects
to_untracked a oid [] result (key, e, u) = absurd (ground arith)
to_untracked a oid ((k, v) ∷ rest) result (key, e, u) = elim (Bool-cases (k == key)) [
  | inl same ↦
      keeps_result oid rest (answered a rest) (if untracked a k v then insert v result else result)
        (ground (arith, contains-insert v oid result))
  | inr differs ↦
      to_untracked a oid rest (if untracked a k v then insert v result else result)
        (key, ground arith, u)
]

objects_of-ok :
    (kvs : List (ℕ × ℕ)) (w : Status × List Bool) (objects : List ℕ)
    → objects_of kvs w ≡ (ok, objects)
    → (bs : List Bool) × (w ≡ (ok, bs)) × (objects ≡ untracked_objects kvs bs [])
unfolding objects_of
objects_of-ok kvs (ok, bs) objects h = (bs, refl, ground arith)
objects_of-ok kvs (s, bs) objects h = absurd (ground arith)

-- When the storage has answered every request, an object is to be synced exactly if it is the last
-- value of some key of the journal (one that is not deleted afterwards), and the storage does not
-- track it.
pub get_objects_to_sync_exact :
    (a : Answers) (es : List EntryChange) (objects : List ℕ) (oid : ℕ)
    → a.entries_to_sync ≡ (ok, es)
    → get_objects_to_sync a ≡ (ok, objects)
    → (contains objects oid ≡ true) ↔ (
        (key : ℕ) × (value_after key es none ≡ some oid)
        × ((a.object_is_untracked key oid).1 ≡ true))
unfolding get_objects_to_sync objects_of_entries
get_objects_to_sync_exact a es objects oid e h =
    let kvs = key_values es [] in
    let (bs, w, c) =
      objects_of-ok kvs (wait (ask_untracked a kvs)) objects
        (sym (ap (λ x. objects_of_entries x a) e) ∙ h) in
    let same = c ∙ ap (λ x. untracked_objects kvs x []) (wait-ask_untracked a kvs bs w) in
    (
      λ q.
          elim (from_untracked a oid kvs [] (key_values-last 0 es [] tt).0
            (sym (ap (λ x. contains x oid) same) ∙ q)) [
              | inl never ↦ absurd (ground arith)
              | inr (key, v, u) ↦ (key, sym (key_values-last key es [] tt).1 ∙ v, u)
            ],
      λ q.
          (let (key, v, u) = q in
            ap (λ x. contains x oid) same
            ∙ to_untracked a oid kvs [] (key, (key_values-last key es [] tt).1 ∙ v, u)),
    )
