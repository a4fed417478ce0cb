-- ===== src/Relay/Timer.antt =====
-- `startOutboxRelay`, `stopOutboxRelay` and the guard of `poll`: the module's two variables
-- `relayTimer` and `relayRunning`, with the polls that are under way.
use mern_chat_app.Common.{ℕ, Bool, false, if◌then◌else◌, ◌≡◌, arith, true, ◌-◌, ◌+◌, ◌<◌, refl}

-- `polls` counts the calls of `poll` that have passed the guard and not reached their `finally`.
pub record RelayState : Type 0 where
  pub relay_timer : Bool
  pub relay_running : Bool
  pub polls : ℕ

abbrev pub initial : RelayState
initial = record { relay_timer = false; relay_running = false; polls = 0 }

-- The guard at the start of `poll`.
unfoldable pub begin_poll : RelayState → RelayState
begin_poll s = if s.relay_running then s else record s { relay_running = true; polls = s.polls + 1 }

-- The `finally` of a poll that is under way.
unfoldable pub end_poll : RelayState → RelayState
end_poll s = record s { relay_running = false; polls = s.polls - 1 }

-- The first poll starts at once.
unfoldable pub start_outbox_relay : RelayState → RelayState
unfolding begin_poll
start_outbox_relay s = if s.relay_timer then s else record (begin_poll s) { relay_timer = true }

unfoldable pub stop_outbox_relay : RelayState → RelayState
stop_outbox_relay s =
    if s.relay_timer then record s { relay_timer = false; relay_running = false } else s

-- What can happen: the calls of the two functions, a tick of the timer that is set, and the end of
-- a poll that is under way.
pub data Happens : RelayState → RelayState → Type 0 where
  starts : (s : RelayState) → Happens s (start_outbox_relay s)
  stops : (s : RelayState) → Happens s (stop_outbox_relay s)
  ticks : (s : RelayState) → s.relay_timer ≡ true → Happens s (begin_poll s)
  ends : (s : RelayState) → 0 < s.polls → Happens s (end_poll s)

-- A history, and the same without a call of `stopOutboxRelay`.
pub data Reaches (s : RelayState) : RelayState → Type 0 where
  here : Reaches s s
  next : {t u : RelayState} → Reaches s t → Happens t u → Reaches s u

abbrev pub NeverStops : {s t : RelayState} → Reaches s t → Type 0
NeverStops here = Unit
NeverStops (next r (stops s)) = ⊥
NeverStops (next r _) = NeverStops r

abbrev IsSingle : RelayState → Type 0
IsSingle s = s.polls ≡ (if s.relay_running then 1 else 0)

-- In every history from the initial state without a stop, one poll runs at a time at most: as many
-- polls are under way as `relayRunning` says.
pub polls-IsSingle : {t : RelayState} (r : Reaches initial t) → NeverStops r → IsSingle t
unfolding begin_poll end_poll start_outbox_relay
polls-IsSingle here n = refl
polls-IsSingle (next r (starts s)) n = ground (arith, polls-IsSingle r n)
polls-IsSingle (next r (stops s)) n = absurd n
polls-IsSingle (next r (ticks s on)) n = ground (arith, polls-IsSingle r n)
polls-IsSingle (next r (ends s some_)) n = ground (arith, polls-IsSingle r n)

-- Stopped and started again while a poll is under way, the relay runs two polls at once.
pub restart_doubles :
    (s : RelayState)
    → s.relay_timer ≡ true
    → 0 < s.polls
    → (start_outbox_relay (stop_outbox_relay s)).polls ≡ s.polls + 1
unfolding start_outbox_relay stop_outbox_relay begin_poll
restart_doubles s on busy = ground arith
