-- ===== src/Js/Trim.antt =====
-- `String.prototype.trim`.
use mern_chat_app.Common.{ℕ, Text, Bool, ◌==◌, ◌||◌, ◌&&◌, leb, if◌then◌else◌, [], ◌∷◌, reverse}

-- The white space and line terminators of ECMAScript.
abbrev pub is_space : ℕ → Bool
is_space c =
    (leb 9 c && leb c 13)
    || c == 32
    || c == 160
    || c == 5760
    || (leb 8192 c && leb c 8202)
    || c == 8232
    || c == 8233
    || c == 8239
    || c == 8287
    || c == 12288
    || c == 65279

abbrev pub trim_start : Text → Text
trim_start [] = []
trim_start (c ∷ s) = if is_space c then trim_start s else c ∷ s

abbrev pub trim : Text → Text
trim s = reverse (trim_start (reverse (trim_start s)))
