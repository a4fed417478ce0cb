-- ===== src/Relay/Tests.antt =====
-- A round of the relay over one event, and the timer restarted under a poll.
use mern_chat_app.Common.{
  codes, [], ◌∷◌, In, inl, refl, ◌≡◌, arith, true, false, ◌+◌, ◌⊎◌, if◌then◌else◌, ℕ, any, inr,
}
use mern_chat_app.Outbox.{
  OutboxTable, OutboxEvent, OutboxInsert, inserted, claimed, claim_pending_outbox_events, published,
  is_unfinished, is_eligible,
}
use mern_chat_app.Outbox.Order.{IsValid}
use mern_chat_app.Relay.{
  Turn, RelayWorld, default_options, message, run_outbox_relay_once, poll_batches,
}
use mern_chat_app.Relay.Outcome.{set_failed}
use mern_chat_app.Relay.Once.{run-settles, run-published, marked}
use mern_chat_app.Relay.Timer.{
  here, next, starts, ticks, polls-IsSingle, restart_doubles, start_outbox_relay, stop_outbox_relay,
  begin_poll, RelayState, initial,
}
use mern_chat_app.Js.{null}
use mern_chat_app.Relay.Drain.{poll_drains}

abbrev waiting : OutboxEvent
waiting = inserted 0 1 (record {
  id = 11;
  aggregate_type = codes "conversation";
  aggregate_id = 7;
  event_type = codes "message.created";
  event_version = 1;
  topic = codes "t";
  partition_key = codes "k";
  payload = null;
  headers = [];
})

abbrev world : RelayWorld
world = record { rows = waiting ∷ []; sent = []; counts = [] }

world-IsValid : IsValid (record { next_sequence = 2; rows = world.rows })
world-IsValid = record {
  rises = ground arith;
  below = ground arith;
  distinct = ground arith;
  checked = (refl, tt);
}

abbrev good_turn : Turn
good_turn = record {
  claim_answers = true;
  snapshot = record { now = 5; is_locked = λ i. false };
  accepts = λ t. true;
  mark_answers = true;
  marked_at = 9;
  error_message = codes "broker";
  outcome_answers = λ i. true;
  date_now = λ i. 10;
}

abbrev taken : OutboxEvent
taken = claimed 5 30_000 waiting

run-settles_example :
    let w' = (run_outbox_relay_once good_turn default_options world).1 in
    (In (message taken) w'.sent × In (marked 9 taken) w'.rows)
    ⊎ In (set_failed good_turn default_options taken taken) w'.rows
unfolding claim_pending_outbox_events
run-settles_example =
    run-settles good_turn default_options 2 world world-IsValid refl (λ i. refl) taken (inl refl)

run-published_example :
    In (marked 9 taken) world.rows
    ⊎ In (message (marked 9 taken)) (run_outbox_relay_once good_turn default_options world).1.sent
unfolding run_outbox_relay_once claim_pending_outbox_events
    mern_chat_app.Outbox.mark_outbox_events_published
run-published_example =
    run-published good_turn default_options 2 world world-IsValid (marked 9 taken) (inl refl) refl

polls-IsSingle_example :
    (begin_poll (start_outbox_relay initial)).polls
    ≡ (if (begin_poll (start_outbox_relay initial)).relay_running then 1 else 0)
unfolding start_outbox_relay
polls-IsSingle_example =
    polls-IsSingle (next (next here (starts initial)) (ticks (start_outbox_relay initial) refl)) tt

abbrev polling : RelayState
polling = record { relay_timer = true; relay_running = true; polls = 1 }

restart_doubles_example : (start_outbox_relay (stop_outbox_relay polling)).polls ≡ 1 + 1
restart_doubles_example = restart_doubles polling refl (omega arith)

waiting_eligible :
    (i : ℕ) (e : OutboxEvent)
    → In e world.rows
    → is_unfinished e ≡ true
    → is_eligible good_turn.snapshot.now e ≡ true
waiting_eligible i e (inl same) u = rw same refl
waiting_eligible i e (inr m) u = elim m [ ]

poll_drains_example :
    any is_unfinished (poll_batches 1 (λ i. good_turn) default_options world).rows ≡ false
poll_drains_example =
    poll_drains (λ i. good_turn) default_options 2 1 world (λ i. refl) (λ i t. refl) (λ i. refl)
      (λ i id. refl) world-IsValid waiting_eligible (omega arith)
