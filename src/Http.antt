-- ===== src/Http.antt =====
-- Backend/middleware: errorHandler.ts, verifyOrigin.ts, requestContext.ts, validateRequest.ts. A value that
-- is passed to `next` is the error of a `Result`.
pub mod Tests
use mern_chat_app.Common.{
  ℕ, Text, codes, text_eq, any, Bool, true, false, not, leb, ◌&&◌, ◌||◌, ◌==◌, length,
  if◌then◌else◌, Option, none, some, List, [], ◌∷◌, ◌++◌,
}
use mern_chat_app.Errors.{
  Result, ok, err, Thrown, app, pg, plain, token_expired, bad_token, unknown, AppError, ErrorCode,
  validation_error, request_too_large, forbidden, session_expired, unauthenticated, conflict,
  internal_error, not_found, csrf_blocked,
}
use mern_chat_app.Metrics.{
  Labels, Locale, MetricsState, Number, finite, increment_counter, observe_histogram,
}

-- What reaches the error handler: a value that the program threw, or an error of the body parser by its
-- `type`.
pub data Failure : Type 0 where
  thrown : Thrown → Failure
  body_error : Text → Failure

abbrev pub app_error : Text → ℕ → ErrorCode → AppError
app_error message status_code code = record {
  message = message;
  status_code = status_code;
  code = code;
}

abbrev pub internal : AppError
internal = app_error (codes "Internal server error") 500 internal_error

abbrev pub postgres_error : Text → AppError
postgres_error state =
    if text_eq state (codes "23505")
    then app_error (codes "Resource already exists") 409 conflict
    else if text_eq state (codes "23503")
    then app_error (codes "Referenced resource was not found") 400 validation_error
    else if text_eq state (codes "22P02")
    then app_error (codes "Invalid resource identifier") 400 validation_error
    else internal

abbrev pub parser_error : Text → AppError
parser_error type_ =
    if text_eq type_ (codes "entity.parse.failed")
    then app_error (codes "Malformed JSON request") 400 validation_error
    else if text_eq type_ (codes "entity.too.large")
    then app_error (codes "Request payload is too large") 413 request_too_large
    else internal

-- The `if` of `errorHandler`.
unfoldable pub as_app_error : Failure → AppError
as_app_error (body_error type_) = parser_error type_
as_app_error (thrown (app e)) = e
as_app_error (thrown (plain message)) =
    if text_eq message (codes "CORS policy violation")
    then app_error (codes "Origin is not allowed") 403 forbidden
    else internal
as_app_error (thrown token_expired) = app_error (codes "Session expired") 401 session_expired
as_app_error (thrown bad_token) = app_error (codes "Invalid authentication") 401 unauthenticated
as_app_error (thrown (pg state)) = postgres_error state
as_app_error (thrown unknown) = internal

-- The response, and whether the failure is logged.
pub record ApiErrorResponse : Type 0 where
  pub status_code : ℕ
  pub error : Text
  pub code : ErrorCode
  pub request_id : Text
  pub is_logged : Bool

unfoldable pub error_handler : Text → Failure → ApiErrorResponse
unfolding as_app_error
error_handler request_id failure =
    let e = as_app_error failure in
    record {
      status_code = e.status_code;
      error = e.message;
      code = e.code;
      request_id = request_id;
      is_logged = leb 500 e.status_code;
    }

abbrev pub not_found_handler : Text → Text → Thrown
not_found_handler method original_url = app (
    app_error (codes "Route " ++ method ++ codes " " ++ original_url ++ codes " not found") 404
      not_found)

-- What `verifyRequestOrigin` reads of a request; `origin_of` is `new URL(referer).origin`, `none` if it throws.
pub record OriginRequest : Type 0 where
  pub method : Text
  pub origin : Option Text
  pub referer : Option Text

abbrev pub unsafe_methods : List Text
unsafe_methods = codes "POST" ∷ codes "PUT" ∷ codes "PATCH" ∷ codes "DELETE" ∷ []

-- A header that is there and not empty.
abbrev pub or_none : Option Text → Option Text
or_none none = none
or_none (some []) = none
or_none (some (c ∷ s)) = some (c ∷ s)

unfoldable pub request_origin : (Text → Option Text) → OriginRequest → Option Text
request_origin origin_of req = elim (or_none req.origin) [
  | some origin ↦ some origin
  | none ↦ elim (or_none req.referer) [ none ↦ none | some referer ↦ origin_of referer ]
]

abbrev pub is_allowed : List Text → Option Text → Bool
is_allowed cors_origins none = false
is_allowed cors_origins (some []) = false
is_allowed cors_origins (some (c ∷ s)) = any (text_eq (c ∷ s)) cors_origins

unfoldable pub verify_request_origin :
    (Text → Option Text) → List Text → OriginRequest → Result (Unit {0})
unfolding request_origin
verify_request_origin origin_of cors_origins req =
    if not (any (text_eq req.method) unsafe_methods)
    then ok tt
    else if is_allowed cors_origins (request_origin origin_of req)
    then ok tt
    else err (app (app_error (codes "Request origin is not allowed") 403 csrf_blocked))

abbrev pub request_id_max_length : ℕ
request_id_max_length = 128

-- `[A-Za-z0-9._:-]`.
abbrev pub is_id_unit : ℕ → Bool
is_id_unit c =
    (leb b'A' c && leb c b'Z')
    || (leb b'a' c && leb c b'z')
    || (leb b'0' c && leb c b'9')
    || c == b'.'
    || c == b'_'
    || c == b':'
    || c == b'-'

abbrev pub has_only : (ℕ → Bool) → Text → Bool
has_only p [] = true
has_only p (c ∷ s) = p c && has_only p s

-- `random_id` is the value of `randomUUID`.
unfoldable pub normalize_request_id : Text → Option Text → Text
normalize_request_id random_id none = random_id
normalize_request_id random_id (some []) = random_id
normalize_request_id random_id (some (c ∷ s)) =
    if leb (length (c ∷ s)) request_id_max_length && has_only is_id_unit (c ∷ s)
    then c ∷ s
    else random_id

abbrev pub route_label : Option Text → Text
route_label none = codes "unmatched"
route_label (some []) = codes "unmatched"
route_label (some (c ∷ s)) = c ∷ s

-- The listener of `finish`: the metrics. The duration is a number of the unit of Metrics.
unfoldable pub request_finished :
    Locale → Text → Option Text → ℕ → Number → MetricsState → MetricsState
unfolding increment_counter observe_histogram
request_finished l method path status_code duration m =
    let route = route_label path in
    let labels =
      (codes "method", method)
      ∷ (codes "route", route)
      ∷ (codes "status", l.print status_code)
      ∷ [] in
    let counted = increment_counter l (codes "http_requests_total") labels (finite 1) m in
    let failed =
      increment_counter l (codes "http_errors_total")
        ((codes "method", method) ∷ (codes "route", route) ∷ []) (finite 1) counted in
    observe_histogram l (codes "http_request_duration_seconds") duration labels
      (if leb 500 status_code then failed else counted)

-- `validateRequest`, from the result of the schema.
abbrev pub validated : Bool → Result (Unit {0})
validated true = ok tt
validated false = err (app (app_error (codes "Request validation failed") 400 validation_error))
