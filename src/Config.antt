-- ===== src/Config.antt =====
-- Backend/config/env.ts: the configuration from the variables of the environment, `none` where one is not
-- set. `lower` is `toLowerCase`; `new_url` is the protocol and the origin of `new URL`, `none` if it throws.
pub mod Tests
use mern_chat_app.Common.{
  ℕ, Text, codes, text_eq, any, map, Bool, true, false, not, ltb, leb, ◌==◌, ◌+◌, ◌-◌, ◌*◌, ◌||◌,
  ◌&&◌, length, if◌then◌else◌, Option, none, some, List, [], ◌∷◌, ◌++◌,
}
use mern_chat_app.Common.Sql.{select, delete}
use mern_chat_app.Errors.{Result, ok, err, plain}
use mern_chat_app.Js.Trim.{trim}
use mern_chat_app.Logger.{LogLevel, debug, info, warn, error_level}
use mern_chat_app.Sockets.{split_at}

pub record Environment : Type 0 where
  pub variable : Text → Option Text
  pub lower : Text → Text
  pub new_url : Text → Option (Text × Text)

infixl 5 ◌>>=◌
abbrev pub ◌>>=◌ : {A B : Type 0} → Result A → (A → Result B) → Result B
◌>>=◌ (ok a) f = f a
◌>>=◌ (err e) f = err e

abbrev pub fail : {A : Type 0} → Text → Result A
fail message = err (plain message)

-- A text that is not empty.
abbrev pub truthy : Text → Option Text
truthy [] = none
truthy (c ∷ s) = some (c ∷ s)

-- `process.env[name]?.trim()`, if it is there and not empty.
abbrev pub trimmed : Environment → Text → Option Text
trimmed env name = elim (env.variable name) [ none ↦ none | some s ↦ truthy (trim s) ]

-- `... || fallback`.
abbrev pub or_else : Option Text → Text → Text
or_else o fallback = elim o [ none ↦ fallback | some s ↦ s ]

unfoldable pub required : Environment → Text → Result Text
required env name = elim (trimmed env name) [
  | none ↦ fail (name ++ codes " environment variable is not configured")
  | some s ↦ ok s
]

-- The decimal digits at the start, on top of `n`.
abbrev pub digits_from : ℕ → Text → ℕ
digits_from n [] = n
digits_from n (c ∷ s) = if leb b'0' c && leb c b'9' then digits_from (n * 10 + (c - 48)) s else n

-- `Number.parseInt(raw, 10)`, with 0 for what is negative or NaN; no caller takes any of these.
unfoldable pub parse_int : Text → ℕ
parse_int [] = 0
parse_int (c ∷ s) = if c == b'+' then digits_from 0 s else digits_from 0 (c ∷ s)

unfoldable pub optional_port : Environment → Text → ℕ → Result ℕ
unfolding parse_int
optional_port env name fallback = elim (trimmed env name) [
  | none ↦ ok fallback
  | some raw ↦
      if ltb (parse_int raw) 1 || ltb 65_535 (parse_int raw)
      then fail (name ++ codes " environment variable must be a valid TCP port")
      else ok (parse_int raw)
]

unfoldable pub positive_int : Environment → Text → ℕ → Result ℕ
unfolding parse_int
positive_int env name fallback = elim (trimmed env name) [
  | none ↦ ok fallback
  | some raw ↦
      if ltb (parse_int raw) 1
      then fail (name ++ codes " environment variable must be a positive integer")
      else ok (parse_int raw)
]

-- `split(",").map(trim).filter(Boolean)`.
abbrev pub is_filled : Text → Bool
is_filled [] = false
is_filled (c ∷ s) = true

abbrev pub list_of : Text → List Text
list_of s = select is_filled (map trim (split_at b',' s))

-- The callback of `rawOrigins.map`.
abbrev pub parsed_origin : Environment → Text → Result Text
parsed_origin env origin = elim (env.new_url origin) [
  | none ↦ fail (codes "CORS_ORIGINS contains an invalid origin")
  | some url ↦
      if text_eq url.0 (codes "http:") || text_eq url.0 (codes "https:")
      then ok url.1
      else fail (codes "CORS_ORIGINS must contain only HTTP(S) origins")
]

abbrev pub parsed_origins : Environment → List Text → Result (List Text)
parsed_origins env [] = ok []
parsed_origins env (o ∷ origins) = do
  origin ← parsed_origin env o
  others ← parsed_origins env origins
  ok (origin ∷ others)

-- `[...new Set(...)]`.
abbrev pub distinct_texts : List Text → List Text
distinct_texts [] = []
distinct_texts (t ∷ ts) = t ∷ delete (text_eq t) (distinct_texts ts)

abbrev pub set_of : Result (List Text) → Result (List Text)
set_of (ok origins) = ok (distinct_texts origins)
set_of (err e) = err e

abbrev pub origins_of : Environment → List Text → Result (List Text)
origins_of env [] =
    fail (codes "CORS_ORIGINS environment variable must contain at least one origin")
origins_of env (o ∷ origins) = set_of (parsed_origins env (o ∷ origins))

-- `process.env.CORS_ORIGINS || ...` is not trimmed.
abbrev pub raw_variable : Environment → Text → Option Text
raw_variable env name = elim (env.variable name) [ none ↦ none | some s ↦ truthy s ]

unfoldable pub parse_cors_origins : Environment → Result (List Text)
parse_cors_origins env =
    origins_of env
      (list_of (or_else (raw_variable env (codes "CORS_ORIGINS")) (codes "http://localhost:3001")))

-- `process.env[name]?.trim().toLowerCase()`, if it is there and not empty.
abbrev pub lowered : Environment → Text → Option Text
lowered env name = elim (env.variable name) [ none ↦ none | some s ↦ truthy (env.lower (trim s)) ]

abbrev pub node_env : Environment → Text
node_env env = or_else (lowered env (codes "NODE_ENV")) (codes "development")

abbrev pub is_production : Environment → Bool
is_production env = text_eq (node_env env) (codes "production")

unfoldable pub jwt_secret : Environment → Result Text
unfolding required
jwt_secret env = do
  secret ← required env (codes "JWT_SECRET")
  (if is_production env && ltb (length secret) 32
      then fail (codes "JWT_SECRET must be at least 32 characters in production")
      else ok secret)

unfoldable pub redis_url : Environment → Result Text
unfolding required
redis_url env =
    if is_production env
    then required env (codes "REDIS_URL")
    else ok (or_else (trimmed env (codes "REDIS_URL")) (codes "redis://127.0.0.1:6379"))

-- `(...trim().toLowerCase() ?? "false") === "true"`.
abbrev pub is_true : Environment → Text → Bool
is_true env name = text_eq (or_else (lowered env name) (codes "false")) (codes "true")

abbrev pub is_none_left : List Text → Bool
is_none_left [] = true
is_none_left (t ∷ ts) = false

unfoldable pub kafka_brokers : Environment → Result (List Text)
kafka_brokers env =
    let brokers =
      list_of (or_else (trimmed env (codes "KAFKA_BROKERS")) (codes "127.0.0.1:29092")) in
    if is_true env (codes "KAFKA_ENABLED") && is_none_left brokers
    then fail (codes "KAFKA_BROKERS must contain at least one broker when Kafka is enabled")
    else ok brokers

unfoldable pub parse_log_level : Environment → Result LogLevel
parse_log_level env =
    let value =
      or_else (lowered env (codes "LOG_LEVEL"))
        (if is_production env then codes "info" else codes "debug") in
    if text_eq value (codes "debug")
    then ok debug
    else if text_eq value (codes "info")
    then ok info
    else if text_eq value (codes "warn")
    then ok warn
    else if text_eq value (codes "error")
    then ok error_level
    else fail (codes "LOG_LEVEL must be one of debug, info, warn, or error")

pub record OutboxConfig : Type 0 where
  pub batch_size : ℕ
  pub lease_ms : ℕ
  pub max_attempts : ℕ
  pub poll_interval_ms : ℕ

unfoldable pub outbox_config : Environment → Result OutboxConfig
unfolding positive_int
outbox_config env = do
  batch_size ← positive_int env (codes "OUTBOX_BATCH_SIZE") 100
  lease_ms ← positive_int env (codes "OUTBOX_LEASE_MS") 30_000
  max_attempts ← positive_int env (codes "OUTBOX_MAX_ATTEMPTS") 8
  poll_interval_ms ← positive_int env (codes "OUTBOX_POLL_INTERVAL_MS") 1_000
  ok (record {
    batch_size = batch_size;
    lease_ms = lease_ms;
    max_attempts = max_attempts;
    poll_interval_ms = poll_interval_ms;
  })
