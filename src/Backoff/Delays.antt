-- ===== src/Backoff/Delays.antt =====
-- The delays of lib/backoff/exponential_backoff.cc.
use native.Mathlib.Nat.{le-div_iff_mul-le, mul_assoc, pow-succ', pow-zero}
use peridot.Base.{
  ℕ, zero, suc, ◌+◌, ◌*◌, ◌/◌, ◌^◌, ◌≤◌, ◌<◌, ◌≡◌, ap, sym, ◌∙◌, inl, inr, Bool-cases, List, [],
  ◌∷◌, leb, if◌then◌else◌, arith, length,
}
use peridot.Backoff.{ExponentialBackoff, create, get_next, next_of, retries, nanoseconds}

abbrev pub capped : ℕ → ℕ → ℕ
capped max x = if leb x max then x else max

le-mul : (x f : ℕ) → 0 < f → x ≤ x * f
le-mul x zero h = absurd (omega arith)
le-mul x (suc f) h = omega arith

capped-mul :
    (max f x : ℕ)
    → 0 < f
    → (if leb (capped max x) (max / f) then capped max x * f else max) ≡ capped max (x * f)
capped-mul max f x h = elim (Bool-cases (leb x max)) [
  | inl small ↦ ground (arith, le-div_iff_mul-le {k = f} {x = x} {y = max} h)
  | inr large ↦
      ground (arith, le-mul x f h, le-mul max f h, le-div_iff_mul-le {k = f} {x = max} {y = max} h)
]

-- A number multiplied by a factor some times.
abbrev scaled : ℕ → ℕ → ℕ → ℕ
scaled x factor zero = x
scaled x factor (suc n) = scaled (x * factor) factor n

scaled-power : (x factor n : ℕ) → scaled x factor n ≡ x * factor ^ n
scaled-power x factor zero = rw (pow-zero factor) (omega arith)
scaled-power x factor (suc n) =
    scaled-power (x * factor) factor n
    ∙ mul_assoc x factor (factor ^ n)
    ∙ sym (ap (λ z. x * z) (pow-succ' factor n))

next_delay-retries :
    (drawn : List ℕ) (b : ExponentialBackoff) (x : ℕ)
    → 0 < b.retry_factor
    → b.next_delay ≡ capped b.max_delay x
    → (retries drawn b).next_delay ≡ capped b.max_delay (scaled x b.retry_factor (length drawn))
unfolding retries get_next
next_delay-retries [] b x h e = e
next_delay-retries (k ∷ rest) b x h e = next_delay-retries rest (next_of b) (x * b.retry_factor) h (
    ap (λ z. if leb z (b.max_delay / b.retry_factor) then z * b.retry_factor else b.max_delay) e
    ∙ capped-mul b.max_delay b.retry_factor x h)

-- After some retries in a row the next delay is the initial one, multiplied by the factor that many
-- times, and at most the greatest delay, if the factor is not zero and the initial delay is at most
-- the greatest.
pub next_delay_exponential :
    (drawn : List ℕ) (initial factor max : ℕ)
    → 0 < factor
    → initial ≤ max
    → (retries drawn (create initial factor max)).next_delay
      ≡ capped max (initial * factor ^ length drawn)
unfolding create
next_delay_exponential drawn initial factor max h k =
    next_delay-retries drawn (create initial factor max) initial h (ground arith)
    ∙ ap (capped max) (scaled-power initial factor (length drawn))

-- The delay that is returned is at least the next delay, at most twice that, and at most the greatest
-- delay, when the next delay is at most the greatest, as it is again afterwards.
pub get_next_bounds :
    (drawn : ℕ) (b : ExponentialBackoff)
    → 0 < b.retry_factor
    → b.next_delay ≤ b.max_delay
    → drawn ≤ b.next_delay / nanoseconds
    → (b.next_delay ≤ (get_next drawn b).0)
      × ((get_next drawn b).0 ≤ b.next_delay + b.next_delay)
      × ((get_next drawn b).0 ≤ b.max_delay)
      × ((get_next drawn b).1.next_delay ≤ b.max_delay)
unfolding get_next next_of
get_next_bounds drawn b f h k = ground (
  arith,
  (le-div_iff_mul-le {k = b.retry_factor} {x = b.next_delay} {y = b.max_delay} f).0,
  (le-div_iff_mul-le {k = nanoseconds} {x = drawn} {y = b.next_delay} (omega arith)).0 k,
)
