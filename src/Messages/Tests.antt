-- ===== src/Messages/Tests.antt =====
-- The pages of a conversation of three messages, and a cursor.
use mern_chat_app.Common.{
  ℕ, codes, ◌≡◌, refl, arith, true, false, some, none, List, [], ◌∷◌, In, inl, ltb, length, map,
  take, reverse, ◌<◌, ◌≤◌, ◌⊎◌, ◌/◌, ◌*◌, inr,
}
use mern_chat_app.Database.{MessageRow, Runtime}
use mern_chat_app.Database.Samples.{sample_runtime, sample_message}
use mern_chat_app.Js.Uuid.{is_uuid}
use mern_chat_app.Messages.{
  find_messages_by_conversation, listed_rows, map_message, is_listed, MessageCursor, CursorCodec,
  encode_message_cursor, decode_message_cursor, cursor_value,
}
use mern_chat_app.Messages.Page.{page_lem}
use mern_chat_app.Messages.Gaps.{pages_continue}
use mern_chat_app.Messages.CursorLaws.{decode-encode, decode_sound}
use mern_chat_app.Outbox.{clamp}
use mern_chat_app.Outbox.Rows.{same_row}
use mern_chat_app.Messages.Rows.{IsKeyed, behind}
use mern_chat_app.Messages.Repeats.{pages_never_repeat, Reaches}

abbrev sample_rows : List MessageRow
sample_rows = sample_message 60 10 ∷ sample_message 61 20 ∷ sample_message 62 30 ∷ []

page_lem_example :
    ((find_messages_by_conversation sample_runtime 50 2 none sample_rows).messages
      ≡ reverse (
          map
            (map_message sample_runtime)
            (take (clamp 1 100 2) (listed_rows 50 none sample_rows))))
    × ((find_messages_by_conversation sample_runtime 50 2 none sample_rows).has_more
        ≡ ltb (clamp 1 100 2) (length (listed_rows 50 none sample_rows)))
page_lem_example = page_lem sample_runtime 50 2 none sample_rows

-- `new Date(String(value))` keeps whole seconds.
abbrev seconds_runtime : Runtime
seconds_runtime = record sample_runtime { row_date = λ t. t / 1_000_000 * 1_000_000 }

seconds_early : (t : ℕ) → seconds_runtime.row_date t ≤ t
seconds_early t = omega arith

seconds_whole :
    (s t : ℕ)
    → seconds_runtime.row_date s ≤ t
    → seconds_runtime.row_date s ≤ seconds_runtime.row_date t
seconds_whole s t h = omega arith

-- Two messages of the same second, and a newer one.
abbrev close_rows : List MessageRow
close_rows =
    sample_message 60 10_100_000 ∷ sample_message 61 10_700_000 ∷ sample_message 62 11_200_000 ∷ []

close-IsKeyed : IsKeyed close_rows
close-IsKeyed m n h k e =
    same_row (λ x. x.id) m n close_rows
      (
        ((λ p. absurd (omega (arith, p))), ((λ p. absurd (omega (arith, p))), tt)),
        (((λ p. absurd (omega (arith, p))), tt), (tt, tt)),
      )
      h k e

-- The page of two messages ends with the second one; the first one of its second is skipped.
skipped :
    is_listed 50
      (behind (map_message seconds_runtime (sample_message 61 10_700_000)))
      (sample_message 60 10_100_000)
    ≡ false
skipped = refl

pages_continue_example :
    (In
        (map_message seconds_runtime (sample_message 60 10_100_000))
        (find_messages_by_conversation seconds_runtime 50 2 none close_rows).messages
      × (is_listed 50 (behind (sample_message 61 10_000_000)) (sample_message 60 10_100_000)
          ≡ false))
    ⊎ ((¬ In
          (map_message seconds_runtime (sample_message 60 10_100_000))
          (find_messages_by_conversation seconds_runtime 50 2 none close_rows).messages)
        × ((is_listed 50 (behind (sample_message 61 10_000_000)) (sample_message 60 10_100_000)
              ≡ true)
            ⊎ ((is_listed 50 (behind (sample_message 61 10_000_000)) (sample_message 60 10_100_000)
                  ≡ false)
                × (seconds_runtime.row_date 10_100_000 ≡ 10_000_000))))
unfolding find_messages_by_conversation
pages_continue_example =
    pages_continue seconds_runtime seconds_early 50 2 seconds_whole none close_rows
      (sample_message 61 10_000_000) (sample_message 60 10_100_000) close-IsKeyed refl (inl refl)
      refl

-- Message 62, from its page of one message over a second page to a third one.
pages_never_repeat_example :
    ¬ In
      (map_message seconds_runtime (sample_message 62 11_200_000))
      (find_messages_by_conversation seconds_runtime 50 1
        (behind (sample_message 61 10_000_000))
        close_rows).messages
unfolding find_messages_by_conversation
pages_never_repeat_example =
    pages_never_repeat seconds_runtime seconds_early 50 1 none
      (behind (sample_message 61 10_000_000)) close_rows close_rows (sample_message 62 11_000_000)
      (sample_message 62 11_200_000) close-IsKeyed close-IsKeyed (inr (inr (inl refl)))
      (inr (inr (inl refl))) refl (inl refl)
      (Reaches.older close_rows (sample_message 61 10_000_000) Reaches.here refl refl)

-- A codec that knows one cursor.
abbrev some_cursor : MessageCursor
some_cursor = record {
  created_at = codes "2026-01-01T00:00:00.000Z";
  id = codes "00000000-0000-4000-8000-000000000001";
}

abbrev one_codec : CursorCodec
one_codec = record {
  encode_json = λ v. codes "x";
  decode_json = λ s. some (cursor_value some_cursor);
  parse_date = λ s. some 5;
  to_iso = λ t. codes "2026-01-01T00:00:00.000Z";
}

decode-encode_example :
    decode_message_cursor one_codec (encode_message_cursor one_codec some_cursor) ≡ some some_cursor
unfolding encode_message_cursor is_uuid
decode-encode_example =
    decode-encode one_codec some_cursor 5 refl (omega arith) (omega arith) refl refl refl

decodes : decode_message_cursor one_codec (codes "x") ≡ some some_cursor
unfolding decode_message_cursor is_uuid
decodes = refl

decode_sound_example :
    (0 < length (codes "x"))
    × (length (codes "x") ≤ 512)
    × (is_uuid some_cursor.id ≡ true)
    × (t : ℕ) × (one_codec.parse_date some_cursor.created_at ≡ some t)
    × (one_codec.to_iso t ≡ some_cursor.created_at)
decode_sound_example = decode_sound one_codec (codes "x") some_cursor decodes
