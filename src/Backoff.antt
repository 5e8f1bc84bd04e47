-- ===== src/Backoff.antt =====
-- lib/backoff/exponential_backoff.{h,cc}: the delays between retries. Times are nanoseconds. The
-- number of milliseconds that the random engine draws is an argument, from 0 to the number of whole
-- milliseconds of the next delay. `max_delay_ - r >= next_delay_` is written with a sum, since the
-- difference may be negative in the source.
pub mod Delays
pub mod Examples
use peridot.Base.{ℕ, ◌+◌, ◌*◌, ◌/◌, Bool, Option, some, List, [], ◌∷◌, leb, if◌then◌else◌}

pub record ExponentialBackoff : Type 0 where
  pub initial_delay : ℕ
  pub retry_factor : ℕ
  pub max_delay : ℕ
  pub next_delay : ℕ

unfoldable pub create : ℕ → ℕ → ℕ → ExponentialBackoff
create initial factor max = record {
  initial_delay = initial;
  retry_factor = factor;
  max_delay = max;
  next_delay = initial;
}

abbrev pub nanoseconds : ℕ
nanoseconds = 1000000

pub next_of : ExponentialBackoff → ExponentialBackoff
next_of b = record b {
  next_delay =
      if leb b.next_delay (b.max_delay / b.retry_factor)
      then b.next_delay * b.retry_factor
      else b.max_delay;
}

unfoldable pub get_next : ℕ → ExponentialBackoff → ℕ × ExponentialBackoff
unfolding next_of
get_next drawn b =
    let r = drawn * nanoseconds in
    (if leb (b.next_delay + r) b.max_delay then b.next_delay + r else b.max_delay, next_of b)

unfoldable pub reset : ExponentialBackoff → ExponentialBackoff
reset b = record b { next_delay = b.initial_delay }

-- Consecutive calls of `GetNext`.
unfoldable pub retries : List ℕ → ExponentialBackoff → ExponentialBackoff
retries [] b = b
retries (drawn ∷ rest) b = retries rest (get_next drawn b).1
