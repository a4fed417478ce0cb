-- ===== src/Messages/CursorLaws.antt =====
-- What a cursor survives.
use mern_chat_app.Common.{
  ℕ, ◌≡◌, Text, some, ◌<◌, length, true, ◌≤◌, arith, text_eq_refl, Option, Option-cases, inl, inr,
  eq_of_text_eq, codes,
}
use mern_chat_app.Messages.{
  MessageCursor, CursorCodec, encode_message_cursor, decode_message_cursor, checked_cursor,
  with_texts, text_of, cursor_value,
}
use mern_chat_app.Js.{Js, prop}
use mern_chat_app.Js.Uuid.{is_uuid}

-- A cursor that `encodeMessageCursor` wrote is read back as it was, if Node.js reads back the
-- value that it wrote, the text has at most 512 code units, the time is an ISO time as `toISOString` prints it,
-- and the id is a UUID.
pub decode-encode :
    (k : CursorCodec) (c : MessageCursor) (t : ℕ)
    → k.decode_json (k.encode_json (cursor_value c)) ≡ some (cursor_value c)
    → 0 < length (encode_message_cursor k c)
    → length (encode_message_cursor k c) ≤ 512
    → k.parse_date c.created_at ≡ some t
    → k.to_iso t ≡ c.created_at
    → is_uuid c.id ≡ true
    → decode_message_cursor k (encode_message_cursor k c) ≡ some c
unfolding decode_message_cursor encode_message_cursor
decode-encode k c t reads some_ short date iso id =
    rw (reads) (ground (arith, text_eq_refl c.created_at))

checked_sound :
    (k : CursorCodec) (a i : Text) (c : MessageCursor)
    → checked_cursor k a i ≡ some c
    → (is_uuid c.id ≡ true)
      × (t : ℕ) × (k.parse_date c.created_at ≡ some t)
      × (k.to_iso t ≡ c.created_at)
checked_sound k a i c h = elim (Option-cases (k.parse_date a)) [
  | inl e ↦ absurd (ground arith)
  | inr (t, e) ↦ (ground arith, t, ground arith, ground (arith, eq_of_text_eq (k.to_iso t) a))
]

with_texts_sound :
    (f : Text → Text → Option MessageCursor) (v w : Js) (c : MessageCursor)
    → with_texts v w f ≡ some c
    → (s : Text) × (t : Text) × (f s t ≡ some c)
with_texts_sound f v w c h = elim (Option-cases (text_of v)) [
  | inl e ↦ absurd (ground arith)
  | inr (s, e) ↦ elim (Option-cases (text_of w)) [
    | inl e' ↦ absurd (ground arith)
    | inr (t, e') ↦ (s, t, ground arith)
  ]
]

-- Whatever text arrives: a cursor that is accepted holds an ISO time as `toISOString` prints it and
-- a UUID, and the text was neither empty nor longer than 512 code units.
pub decode_sound :
    (k : CursorCodec) (s : Text) (c : MessageCursor)
    → decode_message_cursor k s ≡ some c
    → (0 < length s)
      × (length s ≤ 512)
      × (is_uuid c.id ≡ true)
      × (t : ℕ) × (k.parse_date c.created_at ≡ some t)
      × (k.to_iso t ≡ c.created_at)
unfolding decode_message_cursor
decode_sound k s c h = elim (Option-cases (k.decode_json s)) [
  | inl e ↦ absurd (ground arith)
  | inr (v, e) ↦
      let (a, i, g) =
        with_texts_sound (checked_cursor k) (prop (codes "createdAt") v) (prop (codes "id") v) c
          (ground arith) in
      let (u, t, parsed, iso) = checked_sound k a i c g in
      (ground arith, ground arith, u, t, parsed, iso)
]
