-- ===== src/Backoff/Examples.antt =====
-- Delays of lib/backoff/exponential_backoff.cc that double from 100 ms up to 250 ms.
use peridot.Base.{◌*◌, ◌^◌, ◌≡◌, [], ◌∷◌, arith}
use peridot.Backoff.{ExponentialBackoff, create, retries}
use peridot.Backoff.Delays.{capped, next_delay_exponential}

abbrev backoff : ExponentialBackoff
backoff = create 100000000 2 250000000

next_delay_exponential_example :
    (retries (30 ∷ 0 ∷ []) backoff).next_delay ≡ capped 250000000 (100000000 * 2 ^ 2)
next_delay_exponential_example =
    next_delay_exponential (30 ∷ 0 ∷ []) 100000000 2 250000000 (omega arith) (omega arith)
