-- ===== src/RateLimit.antt =====
-- Backend/middleware/rateLimit.ts: the fixed window of a key in Redis. A time is in milliseconds.
pub mod Tests
use mern_chat_app.Common.{
  ℕ, ◌+◌, ◌*◌, ◌-◌, ◌≤◌, ◌≡◌, arith, codes, Bool, true, false, ltb, leb, if◌then◌else◌, Option,
  none, some, List, [], ◌∷◌, All, Bool-cases, inl, inr, ◌<◌, Text, length, ◌==◌,
}
use mern_chat_app.Errors.{Thrown, app, rate_limited, rate_limit_unavailable, Result, ok, err}
use mern_chat_app.Js.{Js, is_record, prop}
use mern_chat_app.Js.Trim.{trim}
use mern_chat_app.Messages.{text_of}

-- The counter of a key, and the time at which EXPIRE drops it.
pub record Window : Type 0 where
  pub count : ℕ
  pub deadline : ℕ

-- INCREMENT_SCRIPT: the first increment of a window sets its end.
unfoldable pub increment : ℕ → ℕ → Option Window → Window
increment now window_seconds none = record { count = 1; deadline = now + window_seconds * 1000 }
increment now window_seconds (some c) =
    if leb c.deadline now
    then record { count = 1; deadline = now + window_seconds * 1000 }
    else record { count = c.count + 1; deadline = c.deadline }

-- What the middleware passes to `next`.
abbrev pub verdict : ℕ → ℕ → Result (Unit {0})
verdict limit count =
    if ltb limit count
    then err (
        app
          (record { message = codes "Too many requests"; status_code = 429; code = rate_limited }))
    else ok tt

-- One request at a time; `none` is a time at which Redis does not answer.
unfoldable pub rate_limit : ℕ → ℕ → ℕ → Bool → Option Window → Result (Unit {0}) × Option Window
unfolding increment
rate_limit limit window_seconds now answers c =
    if answers
    then (let next = increment now window_seconds c in (verdict limit next.count, some next))
    else (
      err (
          app (record {
            message = codes "Request security control unavailable";
            status_code = 503;
            code = rate_limit_unavailable;
          })),
      c,
    )

-- The number of requests that pass, of requests at given times.
unfoldable pub passed : ℕ → ℕ → List (ℕ × Bool) → Option Window → ℕ
unfolding rate_limit
passed limit window_seconds [] c = 0
passed limit window_seconds ((now, answers) ∷ requests) c =
    let (r, next) = rate_limit limit window_seconds now answers c in
    let rest = passed limit window_seconds requests next in
    elim r [ ok u ↦ rest + 1 | err e ↦ rest ]

-- `credentialRateLimitKey`; `lower` is `String.prototype.toLowerCase`.
unfoldable pub credential_rate_limit_key : (Text → Text) → Js → Text
credential_rate_limit_key lower body = lower (
    trim (elim (if is_record body then text_of (prop (codes "email") body) else none) [
      | some email ↦ email
      | none ↦ codes "anonymous"
    ]))

-- The key that the limiter counts under.
unfoldable pub raw_key : (Text → Text) → Text → Text
raw_key lower key = let k = lower (trim key) in if length k == 0 then codes "anonymous" else k

within :
    (limit window_seconds : ℕ) (requests : List (ℕ × Bool)) (w : Window)
    → All (λ r. r.0 < w.deadline) requests
    → passed limit window_seconds requests (some w) ≤ limit - w.count
unfolding passed rate_limit increment
within limit window_seconds [] w h = ground arith
within limit window_seconds ((now, true) ∷ requests) w h = ground (
  arith,
  within limit window_seconds requests (record { count = w.count + 1; deadline = w.deadline }) h.1,
)
within limit window_seconds ((now, false) ∷ requests) w h =
    within limit window_seconds requests w h.1

-- Of the requests of a key that reach the limiter before the window of its first one ends, at most
-- `limit` pass.
pub passed_le :
    (limit window_seconds start : ℕ) (requests : List (ℕ × Bool))
    → All (λ r. r.0 < start + window_seconds * 1000) requests
    → passed limit window_seconds ((start, true) ∷ requests) none ≤ limit
unfolding passed rate_limit increment
passed_le limit window_seconds start requests h = ground (
  arith,
  within limit window_seconds requests
      (record { count = 1; deadline = start + window_seconds * 1000 }) h,
)
