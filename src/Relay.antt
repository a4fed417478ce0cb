-- ===== src/Relay.antt =====
-- Backend/events/publisher.ts: one round of the relay, which claims a batch, sends it to Kafka and
-- records the outcome; the polling loop; and the timer that starts and stops it.
--
-- The answers of the database, of Kafka and of the clocks are the fields of a `Turn`. A query that
-- throws has no effect. Log lines and histograms are left out, counters are kept.
pub mod Sending
pub mod Outcome
pub mod Once
pub mod Timer
pub mod Unfinished
pub mod Answered
pub mod Drain
pub mod Tests
use mern_chat_app.Common.{
  ℕ, zero, suc, ◌+◌, ◌*◌, Text, codes, text_eq, Bool, true, false, List, [], ◌∷◌, ◌++◌, map, leb,
  ◌==◌, if◌then◌else◌, length, ◌&&◌, ◌||◌,
}
use mern_chat_app.Common.Sql.{select, delete}
use mern_chat_app.Js.{Js}
use mern_chat_app.Outbox.{
  OutboxEvent, Snapshot, claim_pending_outbox_events, mark_outbox_events_published,
  reschedule_outbox_event, dead_letter_outbox_event, calculate_outbox_backoff_ms,
}

pub record Settings : Type 0 where
  pub batch_size : ℕ
  pub lease_ms : ℕ
  pub max_attempts : ℕ
  pub base_backoff_ms : ℕ
  pub max_backoff_ms : ℕ

abbrev pub default_options : Settings
default_options = record {
  batch_size = 100;
  lease_ms = 30_000;
  max_attempts = 8;
  base_backoff_ms = 1_000;
  max_backoff_ms = 60_000;
}

-- A message in a Kafka topic.
pub record Message : Type 0 where
  pub topic : Text
  pub key : Text
  pub value : Js
  pub headers : List (Text × Text)

-- A call of `incrementCounter`: the counter and its labels.
pub record Count : Type 0 where
  pub name : Text
  pub labels : List (Text × Text)

pub record RelayWorld : Type 0 where
  pub rows : List OutboxEvent
  pub sent : List Message
  pub counts : List Count

-- What the environment does during one round.
pub record Turn : Type 0 where
  pub claim_answers : Bool
  pub snapshot : Snapshot
  pub accepts : Text → Bool
  pub mark_answers : Bool
  pub marked_at : ℕ
  pub error_message : Text
  pub outcome_answers : ℕ → Bool
  pub date_now : ℕ → ℕ

abbrev pub message : OutboxEvent → Message
message e = record {
  topic = e.topic;
  key = e.partition_key;
  value = e.payload;
  headers = e.headers;
}

-- `new Set(events.map((event) => event.topic))`, in the order of insertion.
abbrev pub topics_of : List OutboxEvent → List Text
topics_of [] = []
topics_of (e ∷ events) = e.topic ∷ delete (text_eq e.topic) (topics_of events)

abbrev pub count_each : Text → (OutboxEvent → List (Text × Text)) → List OutboxEvent → List Count
count_each name labels = map (λ e. record { name = name; labels = labels e })

abbrev pub publish_labels : OutboxEvent → List (Text × Text)
publish_labels e = (codes "event_type", e.event_type) ∷ (codes "topic", e.topic) ∷ []

abbrev pub type_label : OutboxEvent → List (Text × Text)
type_label e = (codes "event_type", e.event_type) ∷ []

abbrev counted : List Count → RelayWorld → RelayWorld
counted cs w = record w { counts = w.counts ++ cs }

-- `producer.send` for each topic; the first one that is refused ends the loop.
unfoldable pub send_topics :
    (Text → Bool) → List OutboxEvent → List Text → RelayWorld → Bool × RelayWorld
send_topics accepts events [] w = (true, w)
send_topics accepts events (t ∷ ts) w =
    let rest =
      send_topics accepts events ts
        (record w { sent = w.sent ++ map message (select (λ e. text_eq e.topic t) events) }) in
    if accepts t then rest else (false, w)

-- `true` if it returned, `false` if it threw.
unfoldable pub publish_outbox_events :
    (Text → Bool) → List OutboxEvent → RelayWorld → Bool × RelayWorld
unfolding send_topics
publish_outbox_events accepts [] w = (true, w)
publish_outbox_events accepts (e ∷ events) w =
    let batch = e ∷ events in
    let (done, w') =
      send_topics accepts batch (topics_of batch)
        (counted (count_each (codes "kafka_publish_total") publish_labels batch) w) in
    (
      done,
      if done
          then w'
          else counted (count_each (codes "kafka_publish_failures_total") publish_labels batch) w',
    )

-- The body of the loop over the events of a failed batch.
unfoldable pub fail_event : Turn → Settings → OutboxEvent → RelayWorld → RelayWorld
fail_event turn settings e w =
    if leb settings.max_attempts e.attempt_count
    then counted (count_each (codes "outbox_dead_lettered_total") type_label (e ∷ []))
        (record w { rows = dead_letter_outbox_event e.id turn.error_message w.rows })
    else counted (count_each (codes "outbox_retry_total") type_label (e ∷ [])) (record w {
      rows =
          reschedule_outbox_event e.id
            ((turn.date_now e.id
                + calculate_outbox_backoff_ms e.attempt_count settings.base_backoff_ms
                    settings.max_backoff_ms)
              * 1000)
            turn.error_message w.rows;
    })

-- A query that throws leaves the loop, and the round.
unfoldable pub fail_events : Turn → Settings → List OutboxEvent → RelayWorld → Bool × RelayWorld
unfolding fail_event
fail_events turn settings [] w = (true, w)
fail_events turn settings (e ∷ events) w =
    let rest = fail_events turn settings events (fail_event turn settings e w) in
    if turn.outcome_answers e.id then rest else (false, w)

-- The number that `runOutboxRelayOnce` returns, or that it threw.
pub data Round : Type 0 where
  returned : ℕ → Round
  threw : Round

abbrev pub round_of : ℕ → Bool → Round
round_of n true = returned n
round_of n false = threw

-- The `catch`.
unfoldable pub recover : Turn → Settings → List OutboxEvent → RelayWorld → Round × RelayWorld
unfolding fail_events
recover turn settings events w =
    let (done, w') = fail_events turn settings events w in (round_of 0 done, w')

-- The UPDATE and the counters behind a batch that was sent.
unfoldable pub mark_published : Turn → List OutboxEvent → RelayWorld → RelayWorld
mark_published turn [] w = w
mark_published turn (e ∷ events) w =
    counted (count_each (codes "outbox_published_total") type_label (e ∷ events)) (record w {
      rows = mark_outbox_events_published turn.marked_at (map (λ x. x.id) (e ∷ events)) w.rows;
    })

abbrev pub is_nil : List OutboxEvent → Bool
is_nil [] = true
is_nil (e ∷ events) = false

-- The `try` and `catch`, from the claimed events.
unfoldable pub relay_events : Turn → Settings → List OutboxEvent → RelayWorld → Round × RelayWorld
unfolding publish_outbox_events mark_published recover
relay_events turn settings events w =
    let (sent, w') = publish_outbox_events turn.accepts events w in
    if sent && (is_nil events || turn.mark_answers)
    then (returned (length events), mark_published turn events w')
    else recover turn settings events w'

unfoldable pub run_outbox_relay_once : Turn → Settings → RelayWorld → Round × RelayWorld
unfolding relay_events
run_outbox_relay_once turn settings w =
    if turn.claim_answers
    then (let (rows, events) =
          claim_pending_outbox_events turn.snapshot settings.batch_size settings.lease_ms w.rows in
        relay_events turn settings events (
          counted (record { name = codes "outbox_relay_batches_total"; labels = [] } ∷ [])
            (record w { rows = rows })))
    else (threw, w)

-- The loop of `poll` with its bound: it ends at an empty or failed batch, and at an exception.
unfoldable pub poll_batches : ℕ → (ℕ → Turn) → Settings → RelayWorld → RelayWorld
unfolding run_outbox_relay_once
poll_batches zero turns settings w = w
poll_batches (suc n) turns settings w =
    let (round, w') = run_outbox_relay_once (turns n) settings w in
    let rest = poll_batches n turns settings w' in
    elim round [ threw ↦ w' | returned processed ↦ if processed == 0 then w' else rest ]

abbrev pub max_batches_per_poll : ℕ
max_batches_per_poll = 100

-- `turns n` is the round with `n` more rounds to come at most.
unfoldable pub poll : (ℕ → Turn) → Settings → RelayWorld → RelayWorld
unfolding poll_batches
poll turns settings w = poll_batches max_batches_per_poll turns settings w
