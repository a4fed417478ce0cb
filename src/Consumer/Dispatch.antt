-- ===== src/Consumer/Dispatch.antt =====
-- What becomes of a message of Kafka in `eachMessage`.
use mern_chat_app.Common.{
  ◌≡◌, Text, arith, some, none, ◌++◌, ◌∷◌, Option, [], Option-cases, refl, Bool, inl, ◌<◌, inr, ℕ,
  length, true, false, Bool-cases, ◌==◌,
}
use mern_chat_app.Consumer.{
  ConsumerWorld, dispatch, each_message, parse_raw, publish_to_dlq, Outcome, acknowledged,
  process_message_created_event,
}
use mern_chat_app.Consumer.Idempotence.{IsDelivered, deliver_lem}
use mern_chat_app.Errors.{ok, err, Result}
use mern_chat_app.Database.{Runtime, durable}
use mern_chat_app.Js.{Js}
use mern_chat_app.Events.{MessageCreatedEvent}

publish_lem :
    (raw_value : Text) (w : ConsumerWorld)
    → (publish_to_dlq raw_value w).0 ≡ ok tt
    → ((publish_to_dlq raw_value w).1.dead_letters ≡ w.dead_letters ++ raw_value ∷ [])
      × ((publish_to_dlq raw_value w).1.database ≡ w.database)
unfolding publish_to_dlq
publish_lem raw_value w h = elim (Option-cases w.producer) [
  | inl e ↦ absurd (ground arith)
  | inr ([], e) ↦ (ground arith, ground arith)
  | inr (true ∷ rest, e) ↦ (ground arith, ground arith)
  | inr (false ∷ rest, e) ↦ absurd (ground arith)
]

acknowledged_lem : (r : Result Outcome) → acknowledged r ≡ ok tt → (o : Outcome) × (r ≡ ok o)
acknowledged_lem (ok o) h = (o, refl)
acknowledged_lem (err e) h = absurd (ground arith)

module _ (rt : Runtime) (parse_json : Text → Option Js) (is_date : Text → Bool) (name : Text)
    (raw_value : Text) where
  -- What became of the message: it is on the dead-letter topic, or its event is processed.
  pub data IsSettled (w v : ConsumerWorld) : Type 0 where
    dead_lettered :
        parse_raw parse_json is_date raw_value ≡ none
        → v.dead_letters ≡ w.dead_letters ++ raw_value ∷ []
        → v.database ≡ w.database
        → IsSettled w v
    delivered :
        (event : MessageCreatedEvent) (o : Outcome) (i : ℕ)
        → parse_raw parse_json is_date raw_value ≡ some event
        → rt.read_uuid event.event_id ≡ some i
        → IsDelivered rt name event i o w.database.db (durable v.database)
        → v.dead_letters ≡ w.dead_letters
        → IsSettled w v

  -- Outside a transaction, a message with a text that is not empty is acknowledged only if it holds no
  -- valid event and was sent to the dead-letter topic, or its event was processed, now or before.
  pub each_message_settles :
      (w : ConsumerWorld)
      → 0 < length raw_value
      → w.database.saved ≡ none
      → (each_message rt parse_json is_date name (some raw_value) w).0 ≡ ok tt
      → IsSettled w (each_message rt parse_json is_date name (some raw_value) w).1
  unfolding each_message dispatch
  each_message_settles w some_ closed h = elim (Bool-cases (length raw_value == 0)) [
    | inl e ↦ absurd (ground arith)
    | inr e ↦ rw e (dispatched (parse_raw parse_json is_date raw_value) refl (rw e at h))
  ]
    where
      dispatched :
          (found : Option MessageCreatedEvent)
          → parse_raw parse_json is_date raw_value ≡ found
          → (dispatch rt name raw_value found w).0 ≡ ok tt
          → IsSettled w (dispatch rt name raw_value found w).1
      dispatched none p k =
          let (sent, same) = publish_lem raw_value w k in dead_lettered p sent same
      dispatched (some event) p k =
          let (o, k') =
            acknowledged_lem (process_message_created_event rt name event w.database).0 k in
          let (i, ei, d) = deliver_lem rt name event w.database o closed k' in
          delivered event o i p ei d refl
