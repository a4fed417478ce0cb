-- ===== src/Presence.antt =====
-- Backend/infra/redis/presence.ts: the four scripts over the sorted sets of Redis. The script's clock
-- and the server's are taken to be one, in milliseconds.
pub mod Online
pub mod Tests
use mern_chat_app.Common.{
  ℕ, Text, text_eq, text_lt, Bool, true, false, not, ltb, leb, ◌+◌, ◌*◌, ◌||◌, ◌&&◌, ◌==◌, max,
  if◌then◌else◌, Option, none, some, List, [], ◌∷◌, map,
}
use mern_chat_app.Common.Sql.{select, delete, order_by}

-- A sorted set: members with their scores.
abbrev pub SortedSet : Type 0
SortedSet = List (Text × ℕ)

-- The sorted set of each user's sockets with the time at which EXPIRE drops it, and the index of the
-- users that are online.
pub record PresenceState : Type 0 where
  pub sockets : Text → SortedSet
  pub deadline : Text → ℕ
  pub online_users : SortedSet

abbrev pub presence_ttl_ms : ℕ
presence_ttl_ms = 60_000

abbrev pub presence_key_ttl_ms : ℕ
presence_key_ttl_ms = 120_000

-- `expiryScore`.
abbrev pub expiry_score : ℕ → ℕ
expiry_score now = now + presence_ttl_ms

abbrev pub zrem : Text → SortedSet → SortedSet
zrem member set_ = delete (λ x. text_eq x.0 member) set_

abbrev pub zadd : ℕ → Text → SortedSet → SortedSet
zadd score member set_ = (member, score) ∷ zrem member set_

-- `ZREMRANGEBYSCORE set 0 now`.
abbrev pub zexpire : ℕ → SortedSet → SortedSet
zexpire now set_ = delete (λ x. leb x.1 now) set_

-- `ZRANGE set -1 -1 WITHSCORES`: the highest score.
abbrev pub max_expiry : SortedSet → Option ℕ
max_expiry [] = none
max_expiry (x ∷ set_) =
    let rest = max_expiry set_ in some (elim rest [ none ↦ x.1 | some e ↦ max x.1 e ])

-- The set of a user's sockets at a time.
abbrev pub live_sockets : ℕ → Text → PresenceState → SortedSet
live_sockets now user_id p = if leb (p.deadline user_id) now then [] else p.sockets user_id

abbrev pub at_user : {A : Type 0} → Text → A → (Text → A) → Text → A
at_user user_id a f u = if text_eq u user_id then a else f u

unfoldable pub mark_user_online : ℕ → Text → Text → PresenceState → PresenceState
mark_user_online now user_id socket_id p =
    let current = zadd (expiry_score now) socket_id (live_sockets now user_id p) in
    record {
      sockets = at_user user_id current p.sockets;
      deadline = at_user user_id (now + presence_key_ttl_ms) p.deadline;
      online_users = elim (max_expiry current) [
        | none ↦ p.online_users
        | some e ↦ zadd e user_id p.online_users
      ];
    }

-- The end that MARK_OFFLINE_SCRIPT and IS_ONLINE_SCRIPT share, from what is left of the sockets.
unfoldable pub reindex : Text → SortedSet → PresenceState → Bool × PresenceState
reindex user_id current p = elim (max_expiry current) [
  | none ↦ (
    false,
    record p { sockets = at_user user_id [] p.sockets; online_users = zrem user_id p.online_users },
  )
  | some e ↦ (
    true,
    record p {
      sockets = at_user user_id current p.sockets;
      online_users = zadd e user_id p.online_users;
    },
  )
]

unfoldable pub mark_user_offline : ℕ → Text → Text → PresenceState → PresenceState
unfolding reindex
mark_user_offline now user_id socket_id p =
    (reindex user_id (zrem socket_id (live_sockets now user_id p)) p).1

unfoldable pub is_user_online : ℕ → Text → PresenceState → Bool × PresenceState
unfolding reindex
is_user_online now user_id p = reindex user_id (zexpire now (live_sockets now user_id p)) p

-- The order of ZRANGE: by score, then by member.
abbrev pub zbefore : Text × ℕ → Text × ℕ → Bool
zbefore x y = ltb x.1 y.1 || (x.1 == y.1 && not (text_lt y.0 x.0))

unfoldable pub get_online_user_ids : ℕ → PresenceState → List Text × PresenceState
get_online_user_ids now p =
    let left = zexpire now p.online_users in
    (map (λ x. x.0) (order_by zbefore left), record p { online_users = left })
