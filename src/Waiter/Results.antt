-- ===== src/Waiter/Results.antt =====
-- `Waiter` of lib/callback/waiter.h collects results in the order of the requests.
use peridot.Base.{
  ℕ, zero, suc, ◌+◌, ◌≤◌, ◌<◌, Bool, true, false, not, ◌&&◌, Option, none, some, List, [], ◌∷◌,
  ◌++◌, ◌==◌, if◌then◌else◌, dcheck, length, pick, ◌≡◌, refl, sym, ap, ◌∙◌, subst, arith, bind-some,
  Reaches-eq, Bool-cases, inl, inr, total-pick, count, All,
}
use peridot.Waiter.{
  decrement, Accumulator, BaseWaiter, Waiting, Event, request, reply, finalize_it, cancel_it,
  create, finish, execute_callback_if_finished, prepared, new_callback, finalize, updated,
  return_result, requested, replied, step, ResultAccumulator, set_at, no_results, prepare_result,
  result_accumulator,
}
use peridot.Waiter.Told.{
  IsWaiting, start-IsWaiting, step-IsWaiting, step-IsAllowed, not_finished, length-pick,
}

-- The values of a function at consecutive numbers.
abbrev pub table : {T : Type 0} → (ℕ → T) → ℕ → ℕ → List T
table f k zero = []
table f k (suc n) = f k ∷ table f (k + 1) n

table-length : {T : Type 0} (f : ℕ → T) (k n : ℕ) → length (table f k n) ≡ n
table-length f k zero = refl
table-length f k (suc n) = ap suc (table-length f (k + 1) n)

table-equal :
    {T : Type 0} (f g : ℕ → T) (k n : ℕ)
    → ((i : ℕ) → k ≤ i → i < k + n → f i ≡ g i)
    → table f k n ≡ table g k n
table-equal f g k zero h = refl
table-equal f g k (suc n) h =
    rw
      (
        h k (omega arith) (omega arith),
        table-equal f g (k + 1) n (λ i a b. h i (omega (arith, a)) (omega (arith, b))),
      )
      refl

table-snoc :
    {T : Type 0} (f : ℕ → T) (k n : ℕ) → table f k n ++ (f (k + n) ∷ []) ≡ table f k (suc n)
table-snoc f k zero = let e : k + 0 ≡ k = omega arith in rw e refl
table-snoc f k (suc n) =
    let e : k + suc n ≡ k + 1 + n = omega arith in rw e (ap (λ z. f k ∷ z) (table-snoc f (k + 1) n))

if_true : {T : Type 0} (b : Bool) (x y : T) → b ≡ true → (if b then x else y) ≡ x
if_true true x y e = refl
if_true false x y e = absurd (ground (arith, e))

if_false : {T : Type 0} (b : Bool) (x y : T) → b ≡ false → (if b then x else y) ≡ y
if_false true x y e = absurd (ground (arith, e))
if_false false x y e = refl

cons_equal : {T : Type 0} {x y : T} {xs ys : List T} → x ≡ y → xs ≡ ys → x ∷ xs ≡ y ∷ ys
cons_equal e f = rw (e, f) refl

set_at-table :
    {T : Type 0} (f : ℕ → T) (x : T) (j k n : ℕ)
    → set_at j x (table f k n) ≡ table (λ i. if i == k + j then x else f i) k n
set_at-table f x j k zero = refl
set_at-table f x zero k (suc n) = cons_equal (sym (if_true (k == k + 0) x (f k) (ground arith))) (
    table-equal f (λ i. if i == k + 0 then x else f i) (k + 1) n
      (λ i a b. sym (if_false (i == k + 0) x (f i) (ground (arith, a)))))
set_at-table f x (suc j) k (suc n) =
    let e : k + 1 + j ≡ k + suc j = omega arith in
    cons_equal (sym (if_false (k == k + suc j) x (f k) (ground arith)))
      (set_at-table f x j (k + 1) n ∙ ap (λ z. table (λ i. if i == z then x else f i) (k + 1) n) e)

dcheck-value : {B : Type 0} (b : Bool) (v : Option B) {t : B} → dcheck b v ≡ some t → v ≡ some t
dcheck-value true v e = e
dcheck-value false v e = absurd (ground (arith, e))

some_injective : {B : Type 0} {a b : B} → some a ≡ some b → a ≡ b
some_injective {a = a} {b = b} e = ground (arith, e)

count-snoc :
    (i n : ℕ) (cb : List ℕ) → count i (cb ++ (n ∷ [])) ≡ count i cb + (if n == i then 1 else 0)
count-snoc i n [] = ground arith
count-snoc i n (c ∷ cb) = ground (arith, count-snoc i n cb)

module _ {S T : Type 0} (success : S) (is_success : S → Bool) (blank : T) (answer : ℕ → T) where
  -- What stands for a request: its answer once it came.
  abbrev value : List ℕ → ℕ → T
  value cb i = if count i cb == 0 then answer i else blank

  -- The answers to the calls, in the order of the calls.
  abbrev pub answers : ℕ → S × List T
  answers n = (success, table answer 0 n)

  -- Nothing failed, and of so many requests those that were answered have their results.
  record Collects (w : BaseWaiter (ResultAccumulator S T) (S × List T)) (cb : List ℕ) : Type 0 where
    requests : ℕ
    not_done : w.done ≡ false
    status : w.accumulator.result_status ≡ success
    results : w.accumulator.results ≡ table (value cb) 0 requests
    once : (i : ℕ) → count i cb ≤ 1
    below : (i : ℕ) → 1 ≤ count i cb → i < requests
    tells : All (λ r. r ≡ answers requests) w.told

  Collects-request :
      (w : BaseWaiter (ResultAccumulator S T) (S × List T)) (cb : List ℕ)
      → Collects w cb
      → w.told ≡ []
      → Collects
          (prepared
            (result_accumulator success is_success blank)
            w
            (prepare_result success is_success blank w.accumulator)).1
          (cb ++ (length w.accumulator.results ∷ []))
  Collects-request w cb h u =
      let n = h.requests in
      let k : ℕ = length w.accumulator.results in
      let later : ℕ → T = value (cb ++ (k ∷ [])) in
      let m : length w.accumulator.results ≡ n =
        ap length h.results ∙ table-length (value cb) 0 n in
      record {
        requests = suc n;
        not_done = h.not_done;
        status = h.status;
        results =
            ap (λ z. z ++ (blank ∷ []))
              (h.results
                ∙ table-equal (value cb) later 0 n (λ i a b.
                  ap (λ z. if z == 0 then answer i else blank)
                    (ground (arith, count-snoc i k cb, m, b))))
            ∙ ap (λ z. table later 0 n ++ (z ∷ []))
                (sym (
                  if_false (count (0 + n) (cb ++ (k ∷ [])) == 0) (answer (0 + n)) blank
                    (ground (arith, count-snoc (0 + n) k cb, m))))
            ∙ table-snoc later 0 n;
        once = λ i.
            ground (arith, count-snoc i (length w.accumulator.results) cb, m, h.once i, h.below i);
        below =
            λ i l. ground (arith, count-snoc i (length w.accumulator.results) cb, m, h.below i, l);
        tells = rw u tt;
      }

  answered_value :
      (cb rest : List ℕ) (t j : ℕ)
      → count j cb ≡ (if t == j then 1 else 0) + count j rest
      → count j cb ≤ 1
      → (if j == 0 + t then answer t else value cb j) ≡ value rest j
  answered_value cb rest t j c l = elim (Bool-cases (j == 0 + t)) [
    | inl e ↦
        let q : t ≡ j = ground (arith, e) in
        if_true (j == 0 + t) (answer t) (value cb j) e
        ∙ ap answer q
        ∙ sym (if_true (count j rest == 0) (answer j) blank (ground (arith, c, l, q)))
    | inr e ↦
        if_false (j == 0 + t) (answer t) (value cb j) e
        ∙ ap (λ z. if z == 0 then answer j else blank) (ground (arith, c, e))
  ]

  Collects-reply :
      (w : BaseWaiter (ResultAccumulator S T) (S × List T)) (cb rest : List ℕ) (i t p : ℕ)
      → Collects w cb
      → pick i cb ≡ some (t, rest)
      → Collects
          (record w {
            accumulator = record w.accumulator {
              results = set_at t (answer t) w.accumulator.results;
            };
            done = false;
            pending_callbacks = p;
          })
          rest
  Collects-reply w cb rest i t p h e =
      let c : (j : ℕ) → count j cb ≡ (if t == j then 1 else 0) + count j rest =
        λ j. total-pick (λ x. if x == j then 1 else 0) i cb t rest e in
      record {
        requests = h.requests;
        not_done = refl;
        status = h.status;
        results =
            ap (set_at t (answer t)) h.results
            ∙ set_at-table (value cb) (answer t) t 0 h.requests
            ∙ table-equal _ (value rest) 0 h.requests
                (λ j a b. answered_value cb rest t j (c j) (h.once j));
        once = λ j. ground (arith, c j, h.once j);
        below = λ j l. ground (arith, c j, h.below j, l);
        tells = h.tells;
      }

  no_callbacks : (cb : List ℕ) → length cb ≡ 0 → cb ≡ []
  no_callbacks [] e = refl
  no_callbacks (c ∷ cb) e = absurd (ground (arith, e))

  Collects-execute :
      (w v : BaseWaiter (ResultAccumulator S T) (S × List T)) (cb : List ℕ)
      → Collects w cb
      → (w.done ≡ false → w.pending_callbacks ≡ length cb)
      → execute_callback_if_finished (result_accumulator success is_success blank) w ≡ some v
      → Collects v cb
  unfolding execute_callback_if_finished
  Collects-execute w v cb h k e =
      subst (λ z. Collects z cb) (some_injective (dcheck-value (not w.finished) _ e))
        (go (w.finalized && w.pending_callbacks == 0) refl)
    where
      go :
          (b : Bool)
          → (w.finalized && w.pending_callbacks == 0) ≡ b
          → Collects (if b then finish (result_accumulator success is_success blank) w else w) cb
      go false q = h
      go true q = record {
        requests = h.requests;
        not_done = h.not_done;
        status = h.status;
        results = h.results;
        once = h.once;
        below = h.below;
        tells = told w.cancelled;
      }
        where
          all_came : cb ≡ []
          all_came = no_callbacks cb (ground (arith, q, k h.not_done))

          told :
              (c : Bool)
              → All
                  (λ r. r ≡ answers h.requests)
                  (if c
                    then w.told
                    else (w.accumulator.result_status, w.accumulator.results) ∷ w.told)
          told true = h.tells
          told false = (
            rw (h.status, h.results ∙ ap (λ z. table (value z) 0 h.requests) all_came) refl,
            h.tells,
          )

module _ {S T : Type 0} (success : S) (is_success : S → Bool) (blank : T) (answer : ℕ → T)
    (succeeds : is_success success ≡ true) where
  abbrev acc : Accumulator (ResultAccumulator S T) ℕ (S × T) (S × List T)
  acc = result_accumulator success is_success blank

  abbrev pub System : Type 0
  System = Waiting (ResultAccumulator S T) ℕ (S × List T)

  -- A reply is the answer to the request of its callback.
  abbrev pub IsAnswer : Event (S × T) → System → Type 0
  IsAnswer request s = Unit
  IsAnswer (reply i x) s =
      (t : ℕ) (rest : List ℕ) → pick i s.callbacks ≡ some (t, rest) → x ≡ (success, answer t)
  IsAnswer finalize_it s = Unit
  IsAnswer cancel_it s = Unit

  -- The states that requests and their answers, in any order, lead to.
  pub data Reach : System → Type 0 where
    begin : Reach (record { waiter = create (no_results success is_success blank); callbacks = [] })
    next :
        (e : Event (S × T)) {s t : System}
        → Reach s
        → IsAnswer e s
        → step (result_accumulator success is_success blank) e s ≡ some t
        → Reach t

  abbrev CollectsAll : System → Type 0
  CollectsAll s = Collects success is_success blank answer s.waiter s.callbacks

  request-Collects :
      (s t : System) → IsWaiting acc s → CollectsAll s → step acc request s ≡ some t → CollectsAll t
  unfolding step new_callback
  request-Collects s t w h e =
      let (r, q, k) =
        bind-some (new_callback acc s.waiter) (λ r. some (requested acc s.callbacks r)) e in
      let a = step-IsAllowed acc request s t e in
      let made =
        some_injective
          (dcheck-value (not s.waiter.cancelled) _ (dcheck-value (not s.waiter.finalized) _ q)) in
      let same =
        sym (
          if_false s.waiter.done (none, s.waiter)
            (prepared acc s.waiter (acc.prepare_call s.waiter.accumulator)) h.not_done)
        ∙ made in
      subst CollectsAll (some_injective k) (
        subst (λ z. CollectsAll (requested acc s.callbacks z)) same
          (Collects-request success is_success blank answer s.waiter s.callbacks h (
            nothing s.waiter.told
              (w.untold (not_finished acc s.waiter (length s.callbacks) w (inl a.0))))))
    where
      nothing : (rs : List (S × List T)) → length rs ≡ 0 → rs ≡ []
      nothing [] x = refl
      nothing (y ∷ ys) x = absurd (ground (arith, x))

  answered :
      (i u : ℕ) (rest : List ℕ) (s : System) (v : BaseWaiter (ResultAccumulator S T) (S × List T))
      → CollectsAll s
      → pick i s.callbacks ≡ some (u, rest)
      → s.waiter.pending_callbacks ≡ length s.callbacks
      → return_result acc u (success, answer u) s.waiter ≡ some v
      → Collects success is_success blank answer v rest
  unfolding return_result
  answered i u rest s v h p c m =
      let w = s.waiter in
      let left : length s.callbacks ≡ suc (length rest) = length-pick acc i s.callbacks u rest p in
      let n : ℕ = decrement w.pending_callbacks in
      Collects-execute success is_success blank answer
        (record w {
          accumulator = record w.accumulator {
            results = set_at u (answer u) w.accumulator.results;
          };
          done = false;
          pending_callbacks = n;
        })
        v rest (Collects-reply success is_success blank answer w s.callbacks rest i u n h p)
        (λ q. ground (arith, c, left))
        (ap (λ z. execute_callback_if_finished acc (updated acc w z))
            (sym (
              if_true (is_success success) _
                (false, record { results = []; result_status = success }) succeeds))
          ∙ sym (if_false w.done _ _ h.not_done)
          ∙ m)

  reply-Collects :
      (i : ℕ) (x : S × T) (s t : System)
      → IsWaiting acc s
      → CollectsAll s
      → IsAnswer (reply i x) s
      → step acc (reply i x) s ≡ some t
      → CollectsAll t
  unfolding step
  reply-Collects i x s t w h a e = go (pick i s.callbacks) refl e
    where
      go :
          (o : Option (ℕ × List ℕ))
          → pick i s.callbacks ≡ o
          → replied acc x s o ≡ some t
          → CollectsAll t
      go none p q = subst CollectsAll (some_injective q) h
      go (some (u, rest)) p q =
          let (v, m, k) =
            bind-some (return_result acc u x s.waiter)
              (λ z. some (record { waiter = z; callbacks = rest })) q in
          subst CollectsAll (some_injective k) (
            answered i u rest s v h p (w.counted h.not_done)
              (ap (λ z. return_result acc u z s.waiter) (sym (a u rest p)) ∙ m))

  finalize-Collects :
      (s t : System)
      → IsWaiting acc s
      → CollectsAll s
      → step acc finalize_it s ≡ some t
      → CollectsAll t
  unfolding step finalize
  finalize-Collects s t w h e =
      let (v, q, k) = bind-some (finalize acc s.waiter) (λ z. some (record s { waiter = z })) e in
      subst CollectsAll (some_injective k) (
        Collects-execute success is_success blank answer (record s.waiter { finalized = true }) v
          s.callbacks
          (record {
            requests = h.requests;
            not_done = h.not_done;
            status = h.status;
            results = h.results;
            once = h.once;
            below = h.below;
            tells = h.tells;
          })
          w.counted
          (dcheck-value (not s.waiter.cancelled) _ (dcheck-value (not s.waiter.finalized) _ q)))

  cancel-Collects : (s t : System) → CollectsAll s → step acc cancel_it s ≡ some t → CollectsAll t
  unfolding step
  cancel-Collects s t h e = subst CollectsAll (some_injective e) (record {
    requests = h.requests;
    not_done = h.not_done;
    status = h.status;
    results = h.results;
    once = h.once;
    below = h.below;
    tells = h.tells;
  })

  step-Collects :
      (e : Event (S × T)) (s t : System)
      → IsWaiting acc s
      → CollectsAll s
      → IsAnswer e s
      → step acc e s ≡ some t
      → CollectsAll t
  step-Collects request s t w h a e = request-Collects s t w h e
  step-Collects (reply i x) s t w h a e = reply-Collects i x s t w h a e
  step-Collects finalize_it s t w h a e = finalize-Collects s t w h e
  step-Collects cancel_it s t w h a e = cancel-Collects s t h e

  Reach-Collects : (s : System) → Reach s → IsWaiting acc s × CollectsAll s
  Reach-Collects s begin = (
    start-IsWaiting acc (no_results success is_success blank),
    record {
      requests = 0;
      not_done = refl;
      status = refl;
      results = refl;
      once = λ i. omega arith;
      below = λ i l. absurd (omega (arith, l));
      tells = tt;
    },
  )
  Reach-Collects t (next e {s} r a q) =
      let (w, h) = Reach-Collects s r in
      (
        Reaches-eq (IsWaiting acc) (step acc e s) q
            (step-IsWaiting acc e s w (step-IsAllowed acc e s t q)),
        step-Collects e s t w h a q,
      )

-- If all calls succeed, what the callback is told are their answers in the order of the requests, in
-- whatever order they came.
pub Reach-answers :
    {S T : Type 0} (success : S) (is_success : S → Bool) (blank : T) (answer : ℕ → T)
    (succeeds : is_success success ≡ true) (s : Waiting (ResultAccumulator S T) ℕ (S × List T))
    → Reach success is_success blank answer succeeds s
    → All (λ r. r ≡ (success, table answer 0 (length s.waiter.accumulator.results))) s.waiter.told
Reach-answers success is_success blank answer succeeds s r =
    let h = (Reach-Collects success is_success blank answer succeeds s r).1 in
    let n : length s.waiter.accumulator.results ≡ h.requests =
      ap length h.results
      ∙ table-length (value success is_success blank answer s.callbacks) 0 h.requests in
    rw n h.tells
