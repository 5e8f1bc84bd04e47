-- ===== src/Waiter/Told.antt =====
-- The waiter of lib/callback/waiter.h calls its callback once.
use peridot.Base.{
  ℕ, zero, suc, ◌≤◌, Bool, true, false, not, ◌&&◌, Option, none, some, List, [], ◌∷◌, ◌==◌,
  if◌then◌else◌, dcheck, length, length-snoc, pick, put_back-eq-some, ◌≡◌, refl, arith, subst, ◌∙◌,
  ◌⊎◌, Bool-cases, Reaches, Reaches-bind, Reaches-eq, bind-some, inl, inr,
}
use peridot.Waiter.{
  Accumulator, BaseWaiter, Waiting, Event, request, reply, finalize_it, cancel_it, create, finish,
  execute_callback_if_finished, prepared, new_callback, finalize, cancel, updated, return_result,
  requested, replied, step, run,
}

module _ {A Token Args R : Type 0} (acc : Accumulator A Token Args R) where
  -- The callbacks are counted until the waiter is done; it is finished once it is finalized and nothing is
  -- pending, and then the result was told, unless it was cancelled.
  pub record Inv (w : BaseWaiter A R) (n : ℕ) : Type 0 where
    pub counted : w.done ≡ false → w.pending_callbacks ≡ n
    pub none_pending : w.done ≡ true → w.pending_callbacks ≡ 0
    pub is_finalized : w.finished ≡ true → w.finalized ≡ true
    pub at_rest : w.finished ≡ true → w.pending_callbacks ≡ 0
    pub finishes : w.finalized ≡ true → w.pending_callbacks ≡ 0 → w.finished ≡ true
    pub untold : w.finished ≡ false → length w.told ≡ 0
    pub told_once : length w.told ≤ 1
    pub is_told : w.finished ≡ true → w.cancelled ≡ false → length w.told ≡ 1

  passes :
      {B : Type 0} (P : B → Type 0) (b : Bool) (m : Option B)
      → b ≡ false
      → Reaches P m
      → Reaches P (dcheck (not b) m)
  passes P true m e h = absurd (ground (arith, e))
  passes P false m e h = h

  pub length-pick :
      (i : ℕ) (ts : List Token) (t : Token) (rest : List Token)
      → pick i ts ≡ some (t, rest)
      → length ts ≡ suc (length rest)
  unfolding pick
  length-pick i [] t rest e = ground (arith, e)
  length-pick zero (u ∷ us) t rest e = ground (arith, e)
  length-pick (suc i) (u ∷ us) t rest e =
      let (r, q, k) = put_back-eq-some u (pick i us) e in ground (arith, k, length-pick i us t r q)

  -- A waiter that is not finalized or has a callback pending is not finished.
  pub not_finished :
      (w : BaseWaiter A R) (n : ℕ)
      → Inv w n
      → (w.finalized ≡ false) ⊎ (1 ≤ w.pending_callbacks)
      → w.finished ≡ false
  not_finished w n h k = elim (Bool-cases w.finished) [
    | inr e ↦ e
    | inl e ↦ elim k [
      | inl f ↦ absurd (ground (arith, h.is_finalized e, f))
      | inr l ↦ absurd (omega (arith, h.at_rest e, l))
    ]
  ]

  Inv-finish :
      (w : BaseWaiter A R) (n : ℕ)
      → (w.done ≡ false → w.pending_callbacks ≡ n)
      → (w.done ≡ true → w.pending_callbacks ≡ 0)
      → w.finished ≡ false
      → length w.told ≡ 0
      → Reaches (λ v. Inv v n) (execute_callback_if_finished acc w)
  unfolding execute_callback_if_finished
  Inv-finish w n h k f t =
      passes (λ v. Inv v n) w.finished
        (some (if w.finalized && w.pending_callbacks == 0 then finish acc w else w)) f
        (go (w.finalized && w.pending_callbacks == 0) refl)
    where
      go :
          (b : Bool)
          → (w.finalized && w.pending_callbacks == 0) ≡ b
          → Inv (if b then finish acc w else w) n
      go true e = record {
        counted = h;
        none_pending = k;
        is_finalized = λ q. ground (arith, e);
        at_rest = λ q. ground (arith, e);
        finishes = λ a b. refl;
        untold = λ q. absurd (ground (arith, q));
        told_once = one w.cancelled;
        is_told = λ q c. exactly w.cancelled c;
      }
        where
          one : (c : Bool) → length (if c then w.told else acc.result w.accumulator ∷ w.told) ≤ 1
          one true = omega (arith, t)
          one false = omega (arith, t)

          exactly :
              (c : Bool)
              → c ≡ false
              → length (if c then w.told else acc.result w.accumulator ∷ w.told) ≡ 1
          exactly true q = absurd (ground (arith, q))
          exactly false q = omega (arith, t)
      go false e = record {
        counted = h;
        none_pending = k;
        is_finalized = λ q. absurd (ground (arith, f, q));
        at_rest = λ q. absurd (ground (arith, f, q));
        finishes = λ a b. absurd (ground (arith, e, a, b));
        untold = λ q. t;
        told_once = omega (arith, t);
        is_told = λ q c. absurd (ground (arith, f, q));
      }

  -- What the client may do: it asks for no callback and does not finalize once it has finalized or cancelled.
  abbrev pub IsAllowed : Event Args → Waiting A Token R → Type 0
  IsAllowed request s = (s.waiter.finalized ≡ false) × (s.waiter.cancelled ≡ false)
  IsAllowed (reply i x) s = Unit
  IsAllowed finalize_it s = (s.waiter.finalized ≡ false) × (s.waiter.cancelled ≡ false)
  IsAllowed cancel_it s = Unit

  abbrev pub IsWaiting : Waiting A Token R → Type 0
  IsWaiting s = Inv s.waiter (length s.callbacks)

  request-IsWaiting :
      (s : Waiting A Token R)
      → IsWaiting s
      → s.waiter.finalized ≡ false
      → s.waiter.cancelled ≡ false
      → Reaches IsWaiting (step acc request s)
  unfolding step new_callback
  request-IsWaiting s h f c =
      Reaches-bind (λ r. IsWaiting (requested acc s.callbacks r)) IsWaiting
        (new_callback acc s.waiter) _
        (passes (λ r. IsWaiting (requested acc s.callbacks r)) s.waiter.finalized _ f
          (passes (λ r. IsWaiting (requested acc s.callbacks r)) s.waiter.cancelled _ c
            (go s.waiter.done (acc.prepare_call s.waiter.accumulator) refl)))
        (λ r k. k)
    where
      go :
          (t : Bool) (p : Token × A)
          → s.waiter.done ≡ t
          → IsWaiting
              (requested acc s.callbacks (if t then (none, s.waiter) else prepared acc s.waiter p))
      go true p e = h
      go false (u, a) e = record {
        counted = λ q. omega (arith, h.counted q, length-snoc u s.callbacks);
        none_pending = λ q. absurd (ground (arith, e, q));
        is_finalized = h.is_finalized;
        at_rest = λ q. absurd (ground (arith, f, h.is_finalized q));
        finishes = λ q. absurd (ground (arith, f, q));
        untold = h.untold;
        told_once = h.told_once;
        is_told = h.is_told;
      }

  finalize-IsWaiting :
      (s : Waiting A Token R)
      → IsWaiting s
      → s.waiter.finalized ≡ false
      → s.waiter.cancelled ≡ false
      → Reaches IsWaiting (step acc finalize_it s)
  unfolding step finalize
  finalize-IsWaiting s h f c =
      Reaches-bind (λ w. Inv w (length s.callbacks)) IsWaiting (finalize acc s.waiter) _
        (passes (λ w. Inv w (length s.callbacks)) s.waiter.finalized _ f
          (passes (λ w. Inv w (length s.callbacks)) s.waiter.cancelled _ c
            (let e = not_finished s.waiter (length s.callbacks) h (inl f) in
              Inv-finish (record s.waiter { finalized = true }) (length s.callbacks) h.counted
                h.none_pending e (h.untold e))))
        (λ w k. k)

  updated-Inv :
      (w : BaseWaiter A R) (n : ℕ) (p : Bool × A)
      → Inv w (suc n)
      → w.done ≡ false
      → Reaches (λ v. Inv v n) (execute_callback_if_finished acc (updated acc w p))
  updated-Inv w n (goes_on, a) h e =
      let pending : w.pending_callbacks ≡ suc n = h.counted e in
      let f = not_finished w (suc n) h (inr (omega (arith, pending))) in
      Inv-finish (updated acc w (goes_on, a)) n (λ q. ground (arith, q, pending))
        (λ q. ground (arith, q)) f (h.untold f)

  return_result-Inv :
      (t : Token) (x : Args) (w : BaseWaiter A R) (n : ℕ)
      → Inv w (suc n)
      → Reaches (λ v. Inv v n) (return_result acc t x w)
  unfolding return_result
  return_result-Inv t x w n h = go w.done refl
    where
      go :
          (b : Bool)
          → w.done ≡ b
          → Reaches
              (λ v. Inv v n)
              (if b
                then dcheck (w.pending_callbacks == 0) (some w)
                else execute_callback_if_finished acc
                    (updated acc w (acc.update w.accumulator t x)))
      go true e = holds (w.pending_callbacks == 0) (ground (arith, h.none_pending e)) (record {
        counted = λ q. absurd (ground (arith, e, q));
        none_pending = h.none_pending;
        is_finalized = h.is_finalized;
        at_rest = h.at_rest;
        finishes = h.finishes;
        untold = h.untold;
        told_once = h.told_once;
        is_told = h.is_told;
      })
        where
          holds : (b : Bool) → b ≡ true → Inv w n → Reaches (λ v. Inv v n) (dcheck b (some w))
          holds true q k = k
          holds false q k = absurd (ground (arith, q))
      go false e = updated-Inv w n (acc.update w.accumulator t x) h e

  reply-IsWaiting :
      (i : ℕ) (x : Args) (s : Waiting A Token R)
      → IsWaiting s
      → Reaches IsWaiting (step acc (reply i x) s)
  unfolding step
  reply-IsWaiting i x s h = go (pick i s.callbacks) refl
    where
      go :
          (o : Option (Token × List Token))
          → pick i s.callbacks ≡ o
          → Reaches IsWaiting (replied acc x s o)
      go none e = h
      go (some (t, rest)) e =
          Reaches-bind (λ w. Inv w (length rest)) IsWaiting (return_result acc t x s.waiter) _
            (return_result-Inv t x s.waiter (length rest)
              (subst (Inv s.waiter) (length-pick i s.callbacks t rest e) h))
            (λ w k. k)

  cancel-IsWaiting :
      (s : Waiting A Token R) → IsWaiting s → IsWaiting (record s { waiter = cancel acc s.waiter })
  cancel-IsWaiting s h = record {
    counted = h.counted;
    none_pending = h.none_pending;
    is_finalized = h.is_finalized;
    at_rest = h.at_rest;
    finishes = h.finishes;
    untold = h.untold;
    told_once = h.told_once;
    is_told = λ q c. absurd (ground (arith, c));
  }

-- No debug check fails in a step that the client may take, and the waiter keeps its invariant.
pub step-IsWaiting :
    {A Token Args R : Type 0} (acc : Accumulator A Token Args R) (e : Event Args)
    (s : Waiting A Token R)
    → IsWaiting acc s
    → IsAllowed acc e s
    → Reaches (IsWaiting acc) (step acc e s)
unfolding step
step-IsWaiting acc request s h a = request-IsWaiting acc s h a.0 a.1
step-IsWaiting acc (reply i x) s h a = reply-IsWaiting acc i x s h
step-IsWaiting acc finalize_it s h a = finalize-IsWaiting acc s h a.0 a.1
step-IsWaiting acc cancel_it s h a = cancel-IsWaiting acc s h

checked_both :
    {B : Type 0} (a b : Bool) (v : Option B) {t : B}
    → dcheck (not a) (dcheck (not b) v) ≡ some t
    → (a ≡ false) × (b ≡ false)
checked_both true b v e = absurd (ground (arith, e))
checked_both false true v e = absurd (ground (arith, e))
checked_both false false v e = (refl, refl)

-- A step that fails no check is one that the client may take.
pub step-IsAllowed :
    {A Token Args R : Type 0} (acc : Accumulator A Token Args R) (e : Event Args)
    (s t : Waiting A Token R)
    → step acc e s ≡ some t
    → IsAllowed acc e s
unfolding step new_callback finalize
step-IsAllowed acc request s t e =
    let (r, q, k) =
      bind-some (new_callback acc s.waiter) (λ r. some (requested acc s.callbacks r)) e in
    checked_both s.waiter.finalized s.waiter.cancelled _ q
step-IsAllowed acc (reply i x) s t e = tt
step-IsAllowed acc finalize_it s t e =
    let (r, q, k) = bind-some (finalize acc s.waiter) (λ w. some (record s { waiter = w })) e in
    checked_both s.waiter.finalized s.waiter.cancelled _ q
step-IsAllowed acc cancel_it s t e = tt

run-IsWaiting :
    {A Token Args R : Type 0} (acc : Accumulator A Token Args R) (es : List (Event Args))
    (s t : Waiting A Token R)
    → IsWaiting acc s
    → run acc es s ≡ some t
    → IsWaiting acc t
unfolding run
run-IsWaiting acc [] s t h e = subst (Reaches (IsWaiting acc)) e h
run-IsWaiting acc (x ∷ es) s t h e =
    let (m, q, k) = bind-some (step acc x s) (λ m. run acc es m) e in
    run-IsWaiting acc es m t
      (Reaches-eq (IsWaiting acc) (step acc x s) q
        (step-IsWaiting acc x s h (step-IsAllowed acc x s m q)))
      k

pub start-IsWaiting :
    {A Token Args R : Type 0} (acc : Accumulator A Token Args R) (a : A)
    → IsWaiting acc (record { waiter = create a; callbacks = [] })
start-IsWaiting acc a = record {
  counted = λ q. refl;
  none_pending = λ q. refl;
  is_finalized = λ q. absurd (ground (arith, q));
  at_rest = λ q. refl;
  finishes = λ q. absurd (ground (arith, q));
  untold = λ q. refl;
  told_once = omega arith;
  is_told = λ q. absurd (ground (arith, q));
}

none_left :
    {A Token Args R : Type 0} (acc : Accumulator A Token Args R) (s : Waiting A Token R)
    → IsWaiting acc s
    → (s.waiter.done ≡ true) ⊎ (length s.callbacks ≡ 0)
    → s.waiter.pending_callbacks ≡ 0
none_left acc s h (inl d) = h.none_pending d
none_left acc s h (inr n) = elim (Bool-cases s.waiter.done) [
  | inl d ↦ h.none_pending d
  | inr d ↦ h.counted d ∙ n
]

-- Whatever is requested and answered, in whatever order: the callback is called at most once, and it has
-- been called if the waiter is finalized and not cancelled and a call has stopped it or all have answered.
pub run-told_once :
    {A Token Args R : Type 0} (acc : Accumulator A Token Args R) (a : A) (es : List (Event Args))
    (s : Waiting A Token R)
    → run acc es (record { waiter = create a; callbacks = [] }) ≡ some s
    → (length s.waiter.told ≤ 1)
      × (s.waiter.finalized ≡ true
          → s.waiter.cancelled ≡ false
          → (s.waiter.done ≡ true) ⊎ (length s.callbacks ≡ 0)
          → length s.waiter.told ≡ 1)
run-told_once acc a es s e =
    let h =
      run-IsWaiting acc es (record { waiter = create a; callbacks = [] }) s (start-IsWaiting acc a)
        e in
    (h.told_once, λ f c k. h.is_told (h.finishes f (none_left acc s h k)) c)
