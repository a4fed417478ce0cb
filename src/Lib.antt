-- ===== src/Lib.antt =====
-- A model of the chat application: an Express and Socket.IO server over PostgreSQL, Redis and Kafka
-- (Backend/), and a React client (Frontend/), with the theorems that make its core correct.
--
-- The parts and how they interact. A request to send a message reaches the message service
-- (Backend/services/message.service.ts), which finds or creates the conversation of the two users and
-- stores the message and its `message.created` event in one transaction. The event waits in the outbox
-- table; the relay (Backend/events/publisher.ts) claims batches of it, sends them to Kafka and records
-- the outcome. The notification consumer (Backend/events/message-notification.consumer.ts) reads the
-- topic, and stores one notification for each event. Redis holds who is online and the rate limits, and
-- the client keeps the messages it has seen in a store. A login opens a session: its refresh token is
-- stored as a hash, its access token is a signed text that the HTTP routes and the sockets check against the
-- session (Sessions.Guard, Sockets).
--
--   Common              lists, texts, the clauses of SQL, sorting; Common.Tests the Boolean tests
--   Errors              Backend/errors: AppError.ts, errorCodes.ts, and what else is thrown
--   Js                  the values of the JavaScript runtime; Js.Uuid the expressions for identifiers,
--                       Js.Trim `String.prototype.trim`
--   Events              Backend/events/contracts.ts: the event, its creation and its parser
--   Outbox              Backend/repositories/postgres/outbox.repository.ts: each statement as a function
--                       of the table, which is the list of its rows
--   Relay               Backend/events/publisher.ts: one round (`runOutboxRelayOnce`), the polling loop,
--                       and in Relay.Timer the start and the stop
--   Database            the tables of the chat, one connection with its transaction, and queries that
--                       fail; an action (`Exec`) takes a `World` to a result and a `World`
--   Conversations       Backend/repositories/postgres/conversation.repository.ts
--   Messages            Backend/repositories/postgres/message.repository.ts, Backend/utils/messageCursor.ts
--   Users               Backend/repositories/postgres/user.repository.ts
--   MessageService      Backend/services/message.service.ts: `sendMessage`, in Reading `getMessages`
--   UserService         Backend/services/user.service.ts: `registerUser`, `authenticateUser`
--   Sessions            Backend/repositories/postgres/session.repository.ts, Backend/auth/session.ts; in
--                       Sessions.Guard Backend/middleware/secureRoute.ts; Sessions.Spec is the table as a
--                       function from hashes to grants
--   UserController      Backend/controller/user.controller.ts
--   MessageController   Backend/controller/message.controller.ts
--   Sockets             Backend/SocketIO/server.ts: the handshake, the map of the sockets, the announcements
--   Kafka               Backend/infra/kafka/client.ts: the start and the stop of the clients
--   Migrations          Backend/db/migrate.ts; Migrations.Reference applies each script once
--   Http                Backend/middleware: errorHandler.ts, verifyOrigin.ts, requestContext.ts
--   Metrics             Backend/observability/metrics.ts: the counters and histograms
--   Logger              Backend/utils/logger.ts
--   Config              Backend/config/env.ts: the variables of the environment
--   Consumer            Backend/events/message-notification.consumer.ts: the handler of one message
--   Presence            Backend/infra/redis/presence.ts: the four scripts
--   RateLimit           Backend/middleware/rateLimit.ts: the counter of one key
--   Validation          Backend/validation: user.schemas.ts, message.schemas.ts
--   ConversationStore   Frontend/src/state/conversationStore.ts
--   ClientState         Frontend/src/context: SocketContext.tsx, AuthProvider.tsx; Frontend/src/hooks:
--                       useSendMessage.ts, useSocketMessages.ts
--
-- Names are those of the source in snake case. A UUID in the database is a number and a text at the
-- program's side of a query: `Runtime` holds the functions between them, those of the clock and of
-- `randomUUID`. Times are numbers, microseconds in the database. A text is the list of its code units.
--
-- Every statement of a transaction sees one state of the database: other transactions run before or
-- after it, and what they hold locked is `Snapshot.is_locked` in a claim, any set of rows. Queries fail
-- at the places that `World.answers` and the fields of `Relay.Turn` name; a query that throws has no
-- effect, and a COMMIT that fails has not committed. The polling loop has the bound of the source,
-- 100 batches for each poll, as its fuel; all other loops are structural.
--
-- PostgreSQL, Redis, Kafka, Node.js, bcryptjs and jsonwebtoken are not code of the repository. What is
-- used of the SQL and of the Redis commands is written out; hashing, JSON and dates are parameters.
-- Log lines and metrics are left out of the other parts, but for the counters of the relay and of a login.
-- A migration's script is run by the parameter `apply_sql`, so what the scripts do to the tables is not in
-- Migrations; the tables of Database are those that they make. The two regular expressions of
-- `sanitizeString` in the logger are a parameter. Not modelled: the pools of PostgreSQL and Redis, the
-- routes, rooms and timers of Socket.IO, the gauge of the outbox, the attributes of cookies, the views of
-- the client, and of its hooks the loading of messages and users and the refresh queue of axios.
pub mod Common
pub mod Errors
pub mod Js
pub mod Events
pub mod Outbox
pub mod Relay
pub mod Database
pub mod Conversations
pub mod Messages
pub mod Users
pub mod MessageService
pub mod Sessions
pub mod Consumer
pub mod Validation
pub mod UserService
pub mod RateLimit
pub mod Presence
pub mod ConversationStore
pub mod UserController
pub mod Migrations
pub mod Sockets
pub mod Logger
pub mod Metrics
pub mod Http
pub mod Kafka
pub mod Config
pub mod ClientState
pub mod MessageController
