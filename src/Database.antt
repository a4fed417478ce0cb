-- ===== src/Database.antt =====
-- The PostgreSQL tables of the chat (Backend/db/migrations/001_initial_schema.sql,
-- 002_notifications.sql and 003_outbox.sql), a connection to them with its transaction, and the failure
-- of queries. The repositories and services run over this state.
--
-- A query that fails has no effect, and throws. A COMMIT that fails has not committed. A transaction
-- that is left open by a ROLLBACK that fails is lost with its connection: what lasts is `durable`.
pub mod Transactions
pub mod Samples
use mern_chat_app.Common.{
  ℕ, Text, codes, Bool, true, false, List, [], ◌∷◌, Option, none, some, if◌then◌else◌, ◌+◌,
}
use mern_chat_app.Errors.{Result, ok, err, Thrown, plain, pg}
use mern_chat_app.Outbox.{OutboxTable}

-- `PostgresUser`, a row of `users`.
pub record User : Type 0 where
  pub id : ℕ
  pub fullname : Text
  pub email : Text
  pub password_hash : Text
  pub created_at : ℕ
  pub updated_at : ℕ

-- `PostgresConversation`, a row of `conversations`.
pub record Conversation : Type 0 where
  pub id : ℕ
  pub member_a_id : ℕ
  pub member_b_id : ℕ
  pub created_at : ℕ
  pub updated_at : ℕ

-- A row of `conversation_members`.
pub record Member : Type 0 where
  pub conversation_id : ℕ
  pub user_id : ℕ

-- A row of `messages`.
pub record MessageRow : Type 0 where
  pub id : ℕ
  pub conversation_id : ℕ
  pub sender_id : ℕ
  pub content : Text
  pub created_at : ℕ
  pub updated_at : ℕ

-- A row of `processed_events`: the consumer and the event.
pub record ProcessedEvent : Type 0 where
  pub consumer_name : Text
  pub event_id : ℕ

-- A row of `notifications`, whose `type` is always 'message'.
pub record Notification : Type 0 where
  pub recipient_id : ℕ
  pub message_id : ℕ

-- `PostgresSession`, a row of `sessions`.
pub record Session : Type 0 where
  pub id : ℕ
  pub user_id : ℕ
  pub token_hash : Text
  pub expires_at : ℕ
  pub last_used_at : ℕ
  pub created_at : ℕ
  pub updated_at : ℕ

pub record Db : Type 0 where
  pub users : List User
  pub conversations : List Conversation
  pub members : List Member
  pub messages : List MessageRow
  pub outbox : OutboxTable
  pub processed_events : List ProcessedEvent
  pub notifications : List Notification
  pub sessions : List Session

-- `saved` is the database as it was at BEGIN, in a transaction; `answers` says of each further query
-- whether it is answered; `drawn` counts the calls of `randomUUID`.
pub record World : Type 0 where
  pub db : Db
  pub saved : Option Db
  pub answers : List Bool
  pub drawn : ℕ

-- What the program takes from Node.js and the PostgreSQL driver: the text of a UUID and the UUID
-- that a text denotes, the values of `randomUUID`, the time of the statements, the time that
-- `new Date(String(value))` makes of a column, `toISOString`, and the time that PostgreSQL reads from
-- a text.
pub record Runtime : Type 0 where
  pub print_uuid : ℕ → Text
  pub read_uuid : Text → Option ℕ
  pub random_uuid : ℕ → ℕ
  pub now : ℕ
  pub row_date : ℕ → ℕ
  pub iso : ℕ → Text
  pub read_timestamp : Text → ℕ

abbrev pub durable : World → Db
durable w = elim w.saved [ none ↦ w.db | some d ↦ d ]

abbrev pub Exec : Type 0 → Type 0
Exec A = World → Result A × World

abbrev pub continue : {A B : Type 0} → Result A → (A → Exec B) → Exec B
continue (ok a) f w = f a w
continue (err e) f w = (err e, w)

infixl 5 ◌>>=◌ ◌>>◌
abbrev pub ◌>>=◌ : {A B : Type 0} → Exec A → (A → Exec B) → Exec B
◌>>=◌ m f w = let (r, w') = m w in continue r f w'

abbrev pub ◌>>◌ : {B : Type 0} → Exec (Unit {0}) → Exec B → Exec B
m >> k = m >>= λ _. k

abbrev pub pure : {A : Type 0} → A → Exec A
pure a w = (ok a, w)

abbrev pub throw : {A : Type 0} → Thrown → Exec A
throw e w = (err e, w)

abbrev pub first_answer : List Bool → Bool
first_answer [] = true
first_answer (a ∷ as_) = a

abbrev pub other_answers : List Bool → List Bool
other_answers [] = []
other_answers (a ∷ as_) = as_

abbrev pub asked : World → World
asked w = record w { answers = other_answers w.answers }

abbrev pub connection_lost : Thrown
connection_lost = plain (codes "Connection terminated unexpectedly")

abbrev settled : {A : Type 0} → Result (A × Db) → World → Result A × World
settled (ok (a, d)) w = (ok a, record w { db = d })
settled (err e) w = (err e, w)

-- One statement.
unfoldable pub query : {A : Type 0} → (Db → Result (A × Db)) → Exec A
query q w =
    if first_answer w.answers then settled (q w.db) (asked w) else (err connection_lost, asked w)

-- `pool.connect()`.
unfoldable pub connect : Exec (Unit {0})
connect w = (if first_answer w.answers then ok tt else err connection_lost, asked w)

unfoldable pub begin : Exec (Unit {0})
begin w =
    if first_answer w.answers
    then (ok tt, record (asked w) { saved = some w.db })
    else (err connection_lost, asked w)

unfoldable pub commit : Exec (Unit {0})
commit w =
    if first_answer w.answers
    then (ok tt, record (asked w) { saved = none })
    else (err connection_lost, asked w)

unfoldable pub rollback : Exec (Unit {0})
rollback w =
    if first_answer w.answers
    then (ok tt, record (asked w) { db = durable w; saved = none })
    else (err connection_lost, asked w)

-- The `catch` of a transaction: ROLLBACK, then the error again. If ROLLBACK throws, that is thrown.
abbrev pub rethrow : {A : Type 0} → Result A → World → Result A × World
rethrow (ok a) w = (ok a, w)
rethrow (err e) w = (rollback >> throw e) w

-- `try { BEGIN; body; COMMIT; return } catch (error) { ROLLBACK; throw error }`, the common shape of
-- the transactions.
unfoldable pub transaction : {A : Type 0} → Exec A → Exec A
unfolding begin commit rollback
transaction body w = let (r, w') = (do begin; a ← body; commit; pure a) w in rethrow r w'

unfoldable pub random_uuid : Runtime → Exec ℕ
random_uuid rt w = (ok (rt.random_uuid w.drawn), record w { drawn = w.drawn + 1 })

-- A text that is bound to a UUID parameter of a query.
abbrev pub cast_uuid : Runtime → Text → Result ℕ
cast_uuid rt s = elim (rt.read_uuid s) [ none ↦ err (pg (codes "22P02")) | some n ↦ ok n ]
