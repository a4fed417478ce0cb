-- ===== src/Relay/Sending.antt =====
-- What `publishOutboxEvents` leaves in Kafka.
use mern_chat_app.Common.{
  ◌≡◌, Text, List, Bool, In, ◌∷◌, true, inl, Bool-cases, arith, ◌++◌, ap, if◌then◌else◌, map, inr,
  In-append, text_eq, [], sym, eq_of_text_eq, In-map, text_eq_refl, refl, codes,
}
use mern_chat_app.Relay.{
  RelayWorld, Message, message, topics_of, send_topics, publish_outbox_events, counted, count_each,
  publish_labels,
}
use mern_chat_app.Outbox.{OutboxEvent}
use mern_chat_app.Common.Sql.{select}
use mern_chat_app.Common.Sorting.{In-select, In-delete}

-- Every event's topic is among the topics of the batch.
topic_of_In :
    (e : OutboxEvent) (events : List OutboxEvent) → In e events → In e.topic (topics_of events)
topic_of_In e [] m = elim m [ ]
topic_of_In e (x ∷ events) (inl same) = inl (ap (λ (y : OutboxEvent). y.topic) same)
topic_of_In e (x ∷ events) (inr m) = elim (Bool-cases (text_eq x.topic e.topic)) [
  | inl again ↦ inl (sym (eq_of_text_eq x.topic e.topic again))
  | inr other ↦
      inr (In-delete (text_eq x.topic) e.topic (topics_of events) (topic_of_In e events m) other)
]

-- Sending only appends, and leaves the outbox table alone.
pub send_topics_grows :
    (accepts : Text → Bool) (events : List OutboxEvent) (ts : List Text) (w : RelayWorld)
    (m : Message)
    → In m w.sent
    → In m (send_topics accepts events ts w).1.sent
unfolding send_topics
send_topics_grows accepts events [] w m k = k
send_topics_grows accepts events (t ∷ ts) w m k = elim (Bool-cases (accepts t)) [
  | inl e ↦
      rw (e, if◌then◌else◌) (send_topics_grows accepts events ts _ m (In-append m w.sent _ (inl k)))
  | inr e ↦ rw (e, if◌then◌else◌) k
]

send_topics-rows :
    (accepts : Text → Bool) (events : List OutboxEvent) (ts : List Text) (w : RelayWorld)
    → (send_topics accepts events ts w).1.rows ≡ w.rows
unfolding send_topics
send_topics-rows accepts events [] w = refl
send_topics-rows accepts events (t ∷ ts) w = ground (
  arith,
  send_topics-rows accepts events ts
      (record w { sent = w.sent ++ map message (select (λ e. text_eq e.topic t) events) }),
)

-- A loop that ends without an exception has sent every event of its topics.
send_topics_all :
    (accepts : Text → Bool) (events : List OutboxEvent) (ts : List Text) (w : RelayWorld)
    (e : OutboxEvent)
    → (send_topics accepts events ts w).0 ≡ true
    → In e events
    → In e.topic ts
    → In (message e) (send_topics accepts events ts w).1.sent
unfolding send_topics
send_topics_all accepts events [] w e done m k = elim k [ ]
send_topics_all accepts events (t ∷ ts) w e done m (inl same) =
    ground (arith, send_topics_grows accepts events ts w' (message e) now_sent)
  where
    w' : RelayWorld
    w' = record w { sent = w.sent ++ map message (select (λ x. text_eq x.topic t) events) }

    now_sent : In (message e) w'.sent
    now_sent = In-append (message e) w.sent _ (
        inr (
          In-map message e (select (λ x. text_eq x.topic t) events)
            (In-select (λ x. text_eq x.topic t) e events m (rw same (text_eq_refl t)))))
send_topics_all accepts events (t ∷ ts) w e done m (inr later) = ground (
  arith,
  send_topics_all accepts events ts
      (record w { sent = w.sent ++ map message (select (λ x. text_eq x.topic t) events) }) e,
)

-- A batch that was published without an exception is in Kafka, event by event.
pub publish_sends :
    (accepts : Text → Bool) (events : List OutboxEvent) (w : RelayWorld) (e : OutboxEvent)
    → (publish_outbox_events accepts events w).0 ≡ true
    → In e events
    → In (message e) (publish_outbox_events accepts events w).1.sent
unfolding publish_outbox_events
publish_sends accepts [] w e done m = elim m [ ]
publish_sends accepts (x ∷ events) w e done m =
    rw (done, if◌then◌else◌)
      (send_topics_all accepts (x ∷ events) (topics_of (x ∷ events)) _ e done m
        (topic_of_In e (x ∷ events) m))

pub publish-rows :
    (accepts : Text → Bool) (events : List OutboxEvent) (w : RelayWorld)
    → (publish_outbox_events accepts events w).1.rows ≡ w.rows
unfolding publish_outbox_events
publish-rows accepts [] w = refl
publish-rows accepts (x ∷ events) w =
    elim (Bool-cases (send_topics accepts (x ∷ events) (topics_of (x ∷ events)) start).0) [
      | inl e ↦ rw (e, if◌then◌else◌) same
      | inr e ↦ rw (e, if◌then◌else◌) same
    ]
  where
    start : RelayWorld
    start = counted (count_each (codes "kafka_publish_total") publish_labels (x ∷ events)) w

    same : (send_topics accepts (x ∷ events) (topics_of (x ∷ events)) start).1.rows ≡ w.rows
    same = send_topics-rows accepts (x ∷ events) (topics_of (x ∷ events)) start
