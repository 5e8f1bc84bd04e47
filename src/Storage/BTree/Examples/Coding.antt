-- ===== src/Storage/BTree/Examples/Coding.antt =====
-- A storage for the tests: the identifier of a node is a number that codes its content, as the digests
-- of the ledger's objects are made of their contents.
use peridot.Base.{ℕ, zero, suc, ◌+◌, ◌-◌, ◌≤◌, ◌≡◌, refl, ap, ◌∙◌, List, [], ◌∷◌, arith}
use native.Mathlib.Numerals.{unary_clauses}
use peridot.Storage.Types.{KeyPriority, eager, lazy, Entry, Result, done, Gives}
use peridot.Storage.BTree.{TreeNode}

-- The pairs of numbers in order of their sums.
abbrev next : ℕ × ℕ → ℕ × ℕ
next (zero, b) = (suc b, 0)
next (suc a, b) = (a, suc b)

unpair : ℕ → ℕ × ℕ
unpair zero = (0, 0)
unpair (suc n) = next (unpair n)

diagonal : ℕ → ℕ
diagonal zero = 0
diagonal (suc s) = suc (diagonal s + s)

pair : ℕ × ℕ → ℕ
unfolding diagonal
pair (a, b) = diagonal (a + b) + b

unpair-along :
    (s b : ℕ) → b ≤ s → unpair (diagonal s) ≡ (s, 0) → unpair (diagonal s + b) ≡ (s - b, b)
unfolding unpair
unpair-along s zero h q = simp unary_clauses q
unpair-along s (suc b) h q =
    let e : s - b ≡ suc (s - suc b) = omega arith in
    simp unary_clauses (rw (unpair-along s b (omega arith) q, e) refl)

unpair-diagonal : (s : ℕ) → unpair (diagonal s) ≡ (s, 0)
unfolding unpair diagonal
unpair-diagonal zero = refl
unpair-diagonal (suc s) =
    let e : s - s ≡ 0 = omega arith in
    rw (unpair-along s s (omega arith) (unpair-diagonal s), e) refl

unpair-pair : (p : ℕ × ℕ) → unpair (pair p) ≡ p
unfolding pair
unpair-pair (a, b) =
    let e : (a + b) - b ≡ a = omega arith in
    unpair-along (a + b) b (omega arith) (unpair-diagonal (a + b)) ∙ ap (λ z. (z, b)) e

module _ {A : Type 0} (code : A → ℕ) (decode : ℕ → A)
    (inverse : (a : A) → decode (code a) ≡ a) where
  code_items : List A → ℕ
  unfolding pair
  code_items [] = 0
  code_items (x ∷ xs) = pair (code x, code_items xs)

  count : List A → ℕ
  count [] = 0
  count (x ∷ xs) = suc (count xs)

  decode_items : ℕ → ℕ → List A
  unfolding unpair
  decode_items zero c = []
  decode_items (suc n) c = decode (unpair c).0 ∷ decode_items n (unpair c).1

  decode_items-code_items : (xs : List A) → decode_items (count xs) (code_items xs) ≡ xs
  unfolding code_items count decode_items
  decode_items-code_items [] = refl
  decode_items-code_items (x ∷ xs) =
      rw (unpair-pair (code x, code_items xs), inverse x, decode_items-code_items xs) refl

  code_list : List A → ℕ
  unfolding pair count code_items
  code_list xs = pair (count xs, code_items xs)

  decode_list : ℕ → List A
  unfolding decode_items unpair
  decode_list c = decode_items (unpair c).0 (unpair c).1

  decode_list-code_list : (xs : List A) → decode_list (code_list xs) ≡ xs
  unfolding decode_list code_list
  decode_list-code_list xs = rw (unpair-pair (count xs, code_items xs)) (decode_items-code_items xs)

abbrev code_priority : KeyPriority → ℕ
code_priority eager = 0
code_priority lazy = 1

abbrev decode_priority : ℕ → KeyPriority
decode_priority zero = eager
decode_priority (suc n) = lazy

code_entry : Entry → ℕ
unfolding pair
code_entry e = pair (e.key, pair (e.object_identifier, code_priority e.priority))

decode_entry : ℕ → Entry
unfolding unpair
decode_entry c = record {
  key = (unpair c).0;
  object_identifier = (unpair (unpair c).1).0;
  priority = decode_priority (unpair (unpair c).1).1;
}

decode_priority-code_priority : (p : KeyPriority) → decode_priority (code_priority p) ≡ p
decode_priority-code_priority eager = refl
decode_priority-code_priority lazy = refl

decode_entry-code_entry : (e : Entry) → decode_entry (code_entry e) ≡ e
unfolding decode_entry code_entry
decode_entry-code_entry e =
    rw
      (
        unpair-pair (e.key, pair (e.object_identifier, code_priority e.priority)),
        unpair-pair (e.object_identifier, code_priority e.priority),
        decode_priority-code_priority e.priority,
      )
      refl

pub add : TreeNode → Result ℕ
unfolding pair code_list code_entry
add n = done (
    pair (
      n.level,
      pair (
        code_list code_entry decode_entry decode_entry-code_entry n.entries,
        code_list pair unpair unpair-pair n.children,
      ),
    ))

pub load : ℕ → Result TreeNode
unfolding unpair decode_list decode_entry pair
load oid = done (record {
  level = (unpair oid).0;
  entries = decode_list code_entry decode_entry decode_entry-code_entry (unpair (unpair oid).1).0;
  children = decode_list pair unpair unpair-pair (unpair (unpair oid).1).1;
})

-- What is added can be loaded.
pub load-add : (n : TreeNode) → Gives (λ oid. load oid ≡ done n) (add n)
unfolding add load
load-add n =
    let es = code_list code_entry decode_entry decode_entry-code_entry n.entries in
    let cs = code_list pair unpair unpair-pair n.children in
    rw
      (
        unpair-pair (n.level, pair (es, cs)),
        unpair-pair (es, cs),
        decode_list-code_list code_entry decode_entry decode_entry-code_entry n.entries,
        decode_list-code_list pair unpair unpair-pair n.children,
      )
      refl

abbrev pub empty_node : TreeNode
empty_node = record { level = 0; entries = []; children = [] }

pub load-zero : load 0 ≡ done empty_node
unfolding load
load-zero = refl
