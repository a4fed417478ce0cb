-- ===== src/Logger.antt =====
-- Backend/utils/logger.ts: the redaction of metadata and the line that is written. `sanitizeString`, two
-- replacements by regular expressions, and `JSON.stringify` are parameters.
pub mod Redaction
pub mod Tests
use mern_chat_app.Common.{
  ℕ, Text, codes, text_eq, any, Bool, true, false, not, ltb, leb, ◌+◌, ◌&&◌, ◌||◌, if◌then◌else◌,
  Option, none, some, List, [], ◌∷◌, ◌++◌,
}

pub data LogLevel : Type 0 where
  debug info warn error_level : LogLevel

abbrev pub level_priority : LogLevel → ℕ
level_priority debug = 10
level_priority info = 20
level_priority warn = 30
level_priority error_level = 40

-- A value of the metadata: a string, an `Error` with its name, message and stack, an array, an object, or
-- another one by its text.
mutual
  pub data LogValue : Type 0 where
    text : Text → LogValue
    scalar : Text → LogValue
    failure_of : (name message : Text) → Option Text → LogValue
    array : LogItems → LogValue
    object : LogFields → LogValue

  pub data LogItems : Type 0 where
    nil : LogItems
    cons : LogValue → LogItems → LogItems

  pub data LogFields : Type 0 where
    end : LogFields
    field : Text → LogValue → LogFields → LogFields

abbrev pub redacted : LogValue
redacted = text (codes "[REDACTED]")

abbrev pub sensitive_keys : List Text
sensitive_keys =
    codes "authorization"
    ∷ codes "authorizationheader"
    ∷ codes "cookie"
    ∷ codes "password"
    ∷ codes "passwordhash"
    ∷ codes "token"
    ∷ codes "accesstoken"
    ∷ codes "refreshtoken"
    ∷ codes "jwt"
    ∷ codes "secret"
    ∷ codes "sessionsecret"
    ∷ codes "databaseurl"
    ∷ codes "connectionstring"
    ∷ codes "postgrespassword"
    ∷ codes "messagebody"
    ∷ codes "messagecontent"
    ∷ codes "privatemessage"
    ∷ codes "privateconversation"
    ∷ []

abbrev pub is_upper : ℕ → Bool
is_upper c = leb b'A' c && leb c b'Z'

-- `[a-zA-Z0-9]`.
abbrev pub is_alphanumeric : ℕ → Bool
is_alphanumeric c = (leb b'a' c && leb c b'z') || is_upper c || (leb b'0' c && leb c b'9')

-- Only letters and digits are left when `toLowerCase` is called.
unfoldable pub normalize_key : Text → Text
normalize_key [] = []
normalize_key (c ∷ key) =
    let rest = normalize_key key in
    if is_alphanumeric c then (if is_upper c then c + 32 else c) ∷ rest else rest

abbrev pub is_sensitive : Text → Bool
is_sensitive key = any (text_eq (normalize_key key)) sensitive_keys

-- `...(value.stack ? { stack } : {})`.
abbrev pub stack_field : (Text → Text) → Option Text → LogFields
stack_field clean none = end
stack_field clean (some []) = end
stack_field clean (some (c ∷ s)) = field (codes "stack") (text (clean (c ∷ s))) end

abbrev pub error_fields : (Text → Text) → Text → Text → Option Text → LogFields
error_fields clean name message stack =
    field (codes "name") (text name)
      (field (codes "message") (text (clean message)) (stack_field clean stack))

unfoldable mutual
  pub sanitize_value : (Text → Text) → Text → LogValue → LogValue
  sanitize_value clean key (text s) = if is_sensitive key then redacted else text (clean s)
  sanitize_value clean key (scalar s) = if is_sensitive key then redacted else scalar s
  sanitize_value clean key (failure_of name message stack) =
      if is_sensitive key then redacted else object (error_fields clean name message stack)
  sanitize_value clean key (array items) =
      let rest = sanitize_items clean key items in if is_sensitive key then redacted else array rest
  sanitize_value clean key (object fields) =
      let rest = sanitize_fields clean fields in if is_sensitive key then redacted else object rest

  pub sanitize_items : (Text → Text) → Text → LogItems → LogItems
  sanitize_items clean key nil = nil
  sanitize_items clean key (cons v items) =
      cons (sanitize_value clean key v) (sanitize_items clean key items)

  pub sanitize_fields : (Text → Text) → LogFields → LogFields
  sanitize_fields clean end = end
  sanitize_fields clean (field key v fields) =
      field key (sanitize_value clean key v) (sanitize_fields clean fields)

-- Setting a property of an object: in its place if there is one of that name, else at the end.
abbrev pub set_field : Text → LogValue → LogFields → LogFields
set_field key v end = field key v end
set_field key v (field k w fields) =
    let rest = set_field key v fields in if text_eq k key then field k v fields else field k w rest

abbrev pub spread : LogFields → LogFields → LogFields
spread end entry = entry
spread (field key v fields) entry = spread fields (set_field key v entry)

-- `...metadata` of a value that is not an object adds nothing here.
abbrev pub spread_value : LogValue → LogFields → LogFields
spread_value (object fields) entry = spread fields entry
spread_value _ entry = entry

abbrev pub level_name : LogLevel → Text
level_name debug = codes "debug"
level_name info = codes "info"
level_name warn = codes "warn"
level_name error_level = codes "error"

-- The configuration, the clock, and `JSON.stringify`, which is `none` if it throws, with the name of
-- that error.
pub record LogSettings : Type 0 where
  pub log_level : LogLevel
  pub node_env : Text
  pub timestamp : Text
  pub stringify : LogValue → Option Text
  pub error_type : Text

abbrev pub base_fields : LogSettings → LogLevel → Text → LogFields → LogFields
base_fields c level message rest = field (codes "timestamp") (text c.timestamp) (
    field (codes "level") (text (level_name level)) (
      field (codes "service") (text (codes "mern-chat-app-api")) (
        field (codes "environment") (text c.node_env)
          (field (codes "message") (text message) rest))))

-- A call of `console`.
pub data Line : Type 0 where
  to_error to_warn to_log : Text → Line

abbrev pub line : LogLevel → Text → Line
line error_level output = to_error output
line warn output = to_warn output
line _ output = to_log output

-- The inner `try`, for a value that JSON.stringify refused; its second failure is silent.
abbrev pub failure_lines : LogSettings → List Line
failure_lines c =
    elim (c.stringify (
      object (
        base_fields c error_level (codes "logger_failure")
          (field (codes "errorType") (text c.error_type) end)))) [
            | none ↦ []
            | some output ↦ to_error output ∷ []
          ]

unfoldable pub write : (Text → Text) → LogSettings → LogLevel → Text → LogValue → List Line
unfolding sanitize_value
write clean c level message metadata =
    if ltb (level_priority level) (level_priority c.log_level)
    then []
    else elim (c.stringify (
        object (
          spread_value (sanitize_value clean (codes "metadata") metadata)
            (base_fields c level message end)))) [
              | none ↦ failure_lines c
              | some output ↦ line level output ∷ []
            ]
