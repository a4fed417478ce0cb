-- ===== src/Validation.antt =====
-- Backend/validation: user.schemas.ts and message.schemas.ts. A request is its body, its parameters
-- and its query as values of the runtime; the result is the list of the fields with an error.
use mern_chat_app.Common.{
  ℕ, Text, codes, text_eq, Bool, true, false, not, ltb, leb, ◌&&◌, ◌+◌, ◌*◌, ◌-◌, ◌==◌, any, length,
  if◌then◌else◌, Option, none, some, List, [], ◌∷◌, ◌++◌,
}
use mern_chat_app.Js.{Js, undefined, str, is_record, prop}
use mern_chat_app.Js.Trim.{trim}
use mern_chat_app.Js.Uuid.{is_uuid}
use mern_chat_app.Messages.{CursorCodec, decode_message_cursor, text_of}

abbrev pub max_fullname_length : ℕ
max_fullname_length = 100

abbrev pub max_email_length : ℕ
max_email_length = 320

abbrev pub max_password_length : ℕ
max_password_length = 128

-- `email.includes("@")`.
abbrev pub has_at : Text → Bool
has_at s = any (λ c. c == 64) s

abbrev pub text_is : (Text → Bool) → Js → Bool
text_is p v = elim (text_of v) [ none ↦ false | some s ↦ p s ]

-- `isNonEmptyString`.
abbrev pub is_non_empty : Text → Bool
is_non_empty s = ltb 0 (length (trim s))

abbrev pub is_fullname : Text → Bool
is_fullname s =
    is_non_empty s
    && not (ltb (length (trim s)) 2)
    && not (ltb max_fullname_length (length (trim s)))

abbrev pub is_email : Text → Bool
is_email s = is_non_empty s && not (ltb max_email_length (length (trim s))) && has_at s

abbrev pub is_password : Text → Bool
is_password s = is_non_empty s && not (ltb (length s) 8) && not (ltb max_password_length (length s))

abbrev pub is_confirmation : Text → Bool
is_confirmation s = not (ltb (length s) 8) && not (ltb max_password_length (length s))

-- `a === b` of two values where the second is a text.
abbrev pub is_same_text : Js → Js → Bool
is_same_text v w = text_is (λ t. text_is (λ s. text_eq s t) v) w

abbrev pub body_of : Js → Js
body_of body = if is_record body then body else undefined

abbrev pub error_if : Bool → Text → List Text
error_if b key = if b then key ∷ [] else []

unfoldable pub signup_schema : Js → List Text
signup_schema request_body =
    let body = body_of request_body in
    let password = prop (codes "password") body in
    let confirm_password = prop (codes "confirmPassword") body in
    error_if (not (text_is is_fullname (prop (codes "fullname") body))) (codes "fullname")
    ++ error_if (not (text_is is_email (prop (codes "email") body))) (codes "email")
    ++ error_if (not (text_is is_password password)) (codes "password")
    ++ error_if
        (not (text_is is_confirmation confirm_password && is_same_text password confirm_password))
        (codes "confirmPassword")

unfoldable pub login_schema : Js → List Text
login_schema request_body =
    let body = body_of request_body in
    error_if (not (text_is is_email (prop (codes "email") body))) (codes "email")
    ++ error_if
        (not (
          text_is (λ s. is_non_empty s && not (ltb max_password_length (length s)))
            (prop (codes "password") body)))
        (codes "password")

abbrev pub default_message_page_size : ℕ
default_message_page_size = 50

abbrev pub max_message_page_size : ℕ
max_message_page_size = 100

-- `Number(value)` of a text of digits, `none` at another character.
abbrev pub digits : ℕ → Text → Option ℕ
digits n [] = some n
digits n (c ∷ s) =
    let rest = digits (n * 10 + (c - 48)) s in if leb 48 c && leb c 57 then rest else none

abbrev pub in_page_range : Option ℕ → Option ℕ
in_page_range none = none
in_page_range (some n) = if leb 1 n && leb n max_message_page_size then some n else none

-- `parseLimit`: the safe integers are above the upper bound.
unfoldable pub parse_limit : Js → Option ℕ
parse_limit undefined = some default_message_page_size
parse_limit (str []) = none
parse_limit (str (c ∷ s)) = in_page_range (digits 0 (c ∷ s))
parse_limit _ = none

unfoldable pub send_message_schema : Js → Js → List Text
send_message_schema id request_body =
    let message = prop (codes "message") (body_of request_body) in
    error_if (not (text_is is_uuid id)) (codes "id")
    ++ error_if
        (not (text_is (λ s. ltb 0 (length (trim s)) && not (ltb 5_000 (length (trim s)))) message))
        (codes "message")

abbrev pub is_some : {A : Type 0} → Option A → Bool
is_some none = false
is_some (some a) = true

-- The cursor of a query: absent, or a text that decodes.
abbrev pub is_cursor : CursorCodec → Js → Bool
unfolding decode_message_cursor
is_cursor k undefined = true
is_cursor k (str s) = is_some (decode_message_cursor k s)
is_cursor k _ = false

unfoldable pub get_message_schema : CursorCodec → Js → Js → Js → List Text
unfolding parse_limit is_cursor
get_message_schema k id limit cursor =
    error_if (not (text_is is_uuid id)) (codes "id")
    ++ error_if (not (is_some (parse_limit limit))) (codes "limit")
    ++ error_if (not (is_cursor k cursor)) (codes "cursor")

unfoldable pub get_message_page_options : Js → Js → ℕ × Option Text
unfolding parse_limit
get_message_page_options limit cursor =
    (elim (parse_limit limit) [ none ↦ default_message_page_size | some n ↦ n ], text_of cursor)
