-- ===== src/Waiter/Examples.antt =====
-- A waiter of lib/callback/waiter.h for two calls, of which the second answers first.
use peridot.Base.{
  ℕ, ◌+◌, ◌≤◌, Bool, true, false, some, List, [], ◌∷◌, ◌≡◌, refl, ◌⊎◌, arith, length, pick, All,
  ◌>>=◌,
}
use peridot.Storage.Types.{Status, ok, io_error, is_ok}
use peridot.Waiter.{
  status_accumulator, promise_accumulator, completion_accumulator, Accumulator, Waiting, Event,
  request, reply, finalize_it, create, execute_callback_if_finished, new_callback, finalize,
  return_result, step, run, ResultAccumulator, no_results, result_accumulator,
}
use peridot.Waiter.Told.{run-told_once}
use peridot.Waiter.Results.{table, Reach, begin, next, Reach-answers}

abbrev acc : Accumulator (ResultAccumulator Status ℕ) ℕ (Status × ℕ) (Status × List ℕ)
acc = result_accumulator ok is_ok 0

abbrev State : Type 0
State = Waiting (ResultAccumulator Status ℕ) ℕ (Status × List ℕ)

abbrev state : List ℕ → Bool → ℕ → List (Status × List ℕ) → List ℕ → State
state results finalized pending told callbacks = record {
  waiter = record {
    accumulator = record { results = results; result_status = ok };
    done = false;
    finalized = finalized;
    finished = false;
    cancelled = false;
    pending_callbacks = pending;
    told = told;
  };
  callbacks = callbacks;
}

abbrev ended : State
ended = record {
  waiter = record {
    accumulator = record { results = 10 ∷ 11 ∷ []; result_status = ok };
    done = false;
    finalized = true;
    finished = true;
    cancelled = false;
    pending_callbacks = 0;
    told = (ok, 10 ∷ 11 ∷ []) ∷ [];
  };
  callbacks = [];
}

abbrev events : List (Event (Status × ℕ))
events = request ∷ request ∷ finalize_it ∷ reply 1 (ok, 11) ∷ reply 0 (ok, 10) ∷ []

run-ended :
    run acc events (record { waiter = create (no_results ok is_ok 0); callbacks = [] }) ≡ some ended
unfolding run step new_callback finalize return_result execute_callback_if_finished pick
run-ended = refl

run-told_once_example :
    (length ended.waiter.told ≤ 1)
    × (ended.waiter.finalized ≡ true
        → ended.waiter.cancelled ≡ false
        → (ended.waiter.done ≡ true) ⊎ (length ended.callbacks ≡ 0)
        → length ended.waiter.told ≡ 1)
run-told_once_example = run-told_once acc (no_results ok is_ok 0) events ended run-ended

-- The first error is told, and what was answered is dropped.
first_error :
    (run acc
        (request ∷ request ∷ finalize_it ∷ reply 1 (io_error, 0) ∷ reply 0 (ok, 10) ∷ [])
        (record { waiter = create (no_results ok is_ok 0); callbacks = [] })
      >>= λ s. some s.waiter.told)
    ≡ some ((io_error, []) ∷ [])
unfolding run step new_callback finalize return_result execute_callback_if_finished pick
first_error = refl

abbrev answer : ℕ → ℕ
answer i = 10 + i

ended-Reach : Reach ok is_ok 0 answer refl ended
unfolding step new_callback finalize return_result execute_callback_if_finished pick
ended-Reach =
    let a : Reach ok is_ok 0 answer refl (state (0 ∷ []) false 1 [] (0 ∷ [])) =
      next request begin tt refl in
    let b : Reach ok is_ok 0 answer refl (state (0 ∷ 0 ∷ []) false 2 [] (0 ∷ 1 ∷ [])) =
      next request a tt refl in
    let c : Reach ok is_ok 0 answer refl (state (0 ∷ 0 ∷ []) true 2 [] (0 ∷ 1 ∷ [])) =
      next finalize_it b tt refl in
    let d : Reach ok is_ok 0 answer refl (state (0 ∷ 11 ∷ []) true 1 [] (0 ∷ [])) =
      next (reply 1 (ok, 11)) c (λ t rest e. ground (arith, e)) refl in
    next (reply 0 (ok, 10)) d (λ t rest e. ground (arith, e)) refl

Reach-answers_example : All (λ r. r ≡ (ok, table answer 0 2)) ended.waiter.told
Reach-answers_example = Reach-answers ok is_ok 0 answer refl ended ended-Reach

-- A status waiter tells the first error, a promise the first answer, and a completion waiter waits for all.
first_status :
    (run
        (status_accumulator is_ok)
        (request ∷ request ∷ finalize_it ∷ reply 0 io_error ∷ reply 0 ok ∷ [])
        (record { waiter = create ok; callbacks = [] })
      >>= λ s. some s.waiter.told)
    ≡ some (io_error ∷ [])
unfolding run step new_callback finalize return_result execute_callback_if_finished pick
first_status = refl

kept_promise :
    (run
        (promise_accumulator {V = ℕ})
        (request ∷ finalize_it ∷ reply 0 (ok, 7) ∷ [])
        (record { waiter = create (io_error, 0); callbacks = [] })
      >>= λ s. some s.waiter.told)
    ≡ some ((ok, 7) ∷ [])
unfolding run step new_callback finalize return_result execute_callback_if_finished pick
kept_promise = refl

completed :
    (run completion_accumulator
        (request ∷ request ∷ finalize_it ∷ reply 1 tt ∷ reply 0 tt ∷ [])
        (record { waiter = create tt; callbacks = [] })
      >>= λ s. some s.waiter.told)
    ≡ some (true ∷ [])
unfolding run step new_callback finalize return_result execute_callback_if_finished pick
completed = refl
