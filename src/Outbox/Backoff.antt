-- ===== src/Outbox/Backoff.antt =====
-- The delay before a failed event is tried again.
use native.Mathlib.Nat.{pow-suc}
use mern_chat_app.Outbox.{calculate_outbox_backoff_ms, ℕ}
use mern_chat_app.Common.{◌≡◌, ◌^◌, min, arith, ◌+◌, suc, ◌*◌, ◌≤◌, max, ◌-◌}

exponent_up : (n : ℕ) → max (n + 2 - 1) 0 ≡ suc n
exponent_up n = omega arith

exponent_at : (n : ℕ) → max (n + 1 - 1) 0 ≡ n
exponent_at n = omega arith

double : (base k bound : ℕ) → min (base * (k * 2)) bound ≡ min (2 * min (base * k) bound) bound
double base k bound = grind arith

-- The delay starts at the base delay (or its bound, if that is less), doubles with each further attempt
-- until it meets the bound, and never exceeds the bound.
pub backoff_lem :
    (attempt base bound : ℕ)
    → (calculate_outbox_backoff_ms 1 base bound ≡ min base bound)
      × (calculate_outbox_backoff_ms (attempt + 2) base bound
          ≡ min (2 * calculate_outbox_backoff_ms (attempt + 1) base bound) bound)
      × (calculate_outbox_backoff_ms attempt base bound ≤ bound)
unfolding calculate_outbox_backoff_ms
backoff_lem attempt base bound = (
  ground arith,
  rw (exponent_up attempt, exponent_at attempt, pow-suc) (double base (2 ^ attempt) bound),
  ground arith,
)
