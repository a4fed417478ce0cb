-- ===== src/Js/Uuid.antt =====
-- The regular expressions for identifiers: `isUuid` of Backend/events/contracts.ts,
-- Backend/validation/message.schemas.ts and Backend/utils/messageCursor.ts (one expression), and
-- that of `verifyAccessToken` in Backend/auth/session.ts.
use mern_chat_app.Common.{
  ℕ, zero, suc, Text, Bool, true, false, ◌&&◌, ◌||◌, List, [], ◌∷◌, leb, ◌==◌,
}

-- `[0-9a-f]` under the flag `i`.
abbrev pub is_hex : ℕ → Bool
is_hex c = (leb b'0' c && leb c b'9') || (leb b'a' c && leb c b'f') || (leb b'A' c && leb c b'F')

abbrev is_dash : ℕ → Bool
is_dash c = c == b'-'

-- `[1-5]`, the version.
abbrev is_version : ℕ → Bool
is_version c = leb b'1' c && leb c b'5'

-- `[89ab]`, the variant.
abbrev is_variant : ℕ → Bool
is_variant c = c == b'8' || c == b'9' || c == b'a' || c == b'b' || c == b'A' || c == b'B'

abbrev repeat {ℓ} : {A : Type ℓ} → ℕ → A → List A → List A
repeat zero a rest = rest
repeat (suc n) a rest = a ∷ repeat n a rest

-- `^...$`: a class for each code unit, in order.
abbrev pub matches : List (ℕ → Bool) → Text → Bool
matches [] [] = true
matches [] (c ∷ s) = false
matches (p ∷ ps) [] = false
matches (p ∷ ps) (c ∷ s) = p c && matches ps s

abbrev pub uuid_pattern : List (ℕ → Bool)
uuid_pattern = repeat 8 is_hex (
    is_dash
    ∷ repeat 4 is_hex (
        is_dash
        ∷ is_version
        ∷ repeat 3 is_hex (is_dash ∷ is_variant ∷ repeat 3 is_hex (is_dash ∷ repeat 12 is_hex []))))

unfoldable pub is_uuid : Text → Bool
is_uuid s = matches uuid_pattern s

abbrev is_hex_or_dash : ℕ → Bool
is_hex_or_dash c = is_hex c || is_dash c

-- `/^[0-9a-f-]{36}$/i`.
unfoldable pub is_loose_id : Text → Bool
is_loose_id s = matches (repeat 36 is_hex_or_dash []) s
