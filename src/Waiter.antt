-- ===== src/Waiter.antt =====
-- lib/callback/waiter.h: one callback for the results of many calls. `Accumulator` is the interface that
-- the comment above `BaseWaiter` states. `told` are the results with which the callback of `Finalize` was
-- called. A failed `FXL_DCHECK` is `none`.
pub mod Told
pub mod Results
pub mod Examples
use peridot.Base.{
  ℕ, zero, suc, ◌+◌, ◌-◌, ◌^◌, Bool, true, false, not, ◌&&◌, Option, none, some, List, [], ◌∷◌,
  ◌++◌, ◌==◌, if◌then◌else◌, dcheck, length, pick, ◌>>=◌,
}

pub record Accumulator (A Token Args R : Type 0) : Type 0 where
  pub prepare_call : A → Token × A
  pub update : A → Token → Args → Bool × A
  pub result : A → R

pub record BaseWaiter (A R : Type 0) : Type 0 where
  pub accumulator : A
  pub done : Bool
  pub finalized : Bool
  pub finished : Bool
  pub cancelled : Bool
  pub pending_callbacks : ℕ
  pub told : List R

-- The waiter, and the tokens of the callbacks that have not been called.
pub record Waiting (A Token R : Type 0) : Type 0 where
  pub waiter : BaseWaiter A R
  pub callbacks : List Token

pub data Event (Args : Type 0) : Type 0 where
  request : Event Args
  reply : ℕ → Args → Event Args
  finalize_it : Event Args
  cancel_it : Event Args

-- `--` on a `size_t`.
abbrev pub decrement : ℕ → ℕ
decrement n = if n == 0 then 2 ^ 64 - 1 else n - 1

abbrev pub create : {A R : Type 0} → A → BaseWaiter A R
create a = record {
  accumulator = a;
  done = false;
  finalized = false;
  finished = false;
  cancelled = false;
  pending_callbacks = 0;
  told = [];
}

module _ {A Token Args R : Type 0} (acc : Accumulator A Token Args R) where
  abbrev pub finish : BaseWaiter A R → BaseWaiter A R
  finish w = record w {
    finished = true;
    told = if w.cancelled then w.told else acc.result w.accumulator ∷ w.told;
  }

  unfoldable pub execute_callback_if_finished : BaseWaiter A R → Option (BaseWaiter A R)
  execute_callback_if_finished w =
      dcheck (not w.finished)
        (some (if w.finalized && w.pending_callbacks == 0 then finish w else w))

  abbrev pub prepared : BaseWaiter A R → Token × A → Option Token × BaseWaiter A R
  prepared w (t, a) =
      (some t, record w { accumulator = a; pending_callbacks = w.pending_callbacks + 1 })

  -- `none` for the token is a callback that does nothing.
  unfoldable pub new_callback : BaseWaiter A R → Option (Option Token × BaseWaiter A R)
  new_callback w = dcheck (not w.finalized) (
      dcheck (not w.cancelled)
        (some (if w.done then (none, w) else prepared w (acc.prepare_call w.accumulator))))

  unfoldable pub finalize : BaseWaiter A R → Option (BaseWaiter A R)
  finalize w =
      dcheck (not w.finalized)
        (dcheck (not w.cancelled) (execute_callback_if_finished (record w { finalized = true })))

  abbrev pub cancel : BaseWaiter A R → BaseWaiter A R
  cancel w = record w { cancelled = true }

  abbrev pub updated : BaseWaiter A R → Bool × A → BaseWaiter A R
  updated w (goes_on, a) = record w {
    accumulator = a;
    done = not goes_on;
    pending_callbacks = if goes_on then decrement w.pending_callbacks else 0;
  }

  unfoldable pub return_result : Token → Args → BaseWaiter A R → Option (BaseWaiter A R)
  return_result t x w =
      if w.done
      then dcheck (w.pending_callbacks == 0) (some w)
      else execute_callback_if_finished (updated w (acc.update w.accumulator t x))

  abbrev pub requested : List Token → Option Token × BaseWaiter A R → Waiting A Token R
  requested ts (none, w) = record { waiter = w; callbacks = ts }
  requested ts (some t, w) = record { waiter = w; callbacks = ts ++ (t ∷ []) }

  abbrev pub replied :
      Args → Waiting A Token R → Option (Token × List Token) → Option (Waiting A Token R)
  replied x s none = some s
  replied x s (some (t, rest)) =
      return_result t x s.waiter >>= λ w. some (record { waiter = w; callbacks = rest })

  -- `reply` calls one of the callbacks that have not been called.
  unfoldable pub step : Event Args → Waiting A Token R → Option (Waiting A Token R)
  step request s = new_callback s.waiter >>= λ r. some (requested s.callbacks r)
  step (reply i x) s = replied x s (pick i s.callbacks)
  step finalize_it s = finalize s.waiter >>= λ w. some (record s { waiter = w })
  step cancel_it s = some (record s { waiter = cancel s.waiter })

  unfoldable pub run : List (Event Args) → Waiting A Token R → Option (Waiting A Token R)
  run [] s = some s
  run (e ∷ es) s = step e s >>= λ t. run es t

-- `ResultAccumulator`: `blank` is the value of a new entry, and `is_success` is the comparison with
-- `success`.
pub record ResultAccumulator (S T : Type 0) : Type 0 where
  pub results : List T
  pub result_status : S

abbrev pub set_at : {T : Type 0} → ℕ → T → List T → List T
set_at i x [] = []
set_at zero x (y ∷ ys) = x ∷ ys
set_at (suc i) x (y ∷ ys) = y ∷ set_at i x ys

module _ {S T : Type 0} (success : S) (is_success : S → Bool) (blank : T) where
  abbrev pub no_results : ResultAccumulator S T
  no_results = record { results = []; result_status = success }

  abbrev pub prepare_result : ResultAccumulator S T → ℕ × ResultAccumulator S T
  prepare_result a = (length a.results, record a { results = a.results ++ (blank ∷ []) })

  abbrev pub update_result : ResultAccumulator S T → ℕ → S × T → Bool × ResultAccumulator S T
  update_result a index (status, result) =
      if is_success status
      then (true, record a { results = set_at index result a.results })
      else (false, record { results = []; result_status = status })

  -- `Result`, after which the accumulator is not read any more: the results, which the code moves out,
  -- stay in it.
  abbrev pub result_of : ResultAccumulator S T → S × List T
  result_of a = (a.result_status, a.results)

  abbrev pub result_accumulator : Accumulator (ResultAccumulator S T) ℕ (S × T) (S × List T)
  result_accumulator = record {
    prepare_call = prepare_result;
    update = update_result;
    result = result_of;
  }

-- `StatusAccumulator`, whose state is the status.
module _ {S : Type 0} (is_success : S → Bool) where
  abbrev pub status_accumulator : Accumulator S Bool S S
  status_accumulator = record {
    prepare_call = λ status. (true, status);
    update = λ status token answered. (is_success answered, answered);
    result = λ status. status;
  }

-- `PromiseAccumulator`: the first answer is the result.
abbrev pub promise_accumulator : {S V : Type 0} → Accumulator (S × V) Bool (S × V) (S × V)
promise_accumulator = record {
  prepare_call = λ a. (true, a);
  update = λ a token answered. (false, answered);
  result = λ a. a;
}

-- `CompletionAccumulator`
abbrev pub completion_accumulator : Accumulator Unit Bool Unit Bool
completion_accumulator = record {
  prepare_call = λ a. (true, a);
  update = λ a token answered. (true, a);
  result = λ a. true;
}
