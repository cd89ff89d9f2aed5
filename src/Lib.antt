-- ===== src/Lib.antt =====
-- The server of meno (apps/api): live broadcasts with audio rooms, notes that are synchronised
-- offline, and the services around them. The parts modelled here:
--
-- `CircuitBreaker` is apps/api/src/shared/services/livekit/circuit_breaker.rs, the breaker that
-- guards the calls that make and delete a LiveKit room. `CircuitBreaker`, `new`, `check`,
-- `on_success` and `on_failure` have the names of the source; `check_in` and `success_in` are the
-- arms of its matches. The atomics and the mutex around the last failure are read and written in
-- one step, `Call` and `run` are a sequence of calls with their instants in nanoseconds.
-- `Invariant` and `Traces` have the proofs.
--
-- `Notes` is apps/api/src/modules/notes. `Repository` and `Folders` are the statements of
-- repository.rs on the two tables, with the constraints of packages/db/migrations that can refuse
-- them; `Service` has the operations of service.rs on one row, and `Sync` has `sync_push`, the
-- transaction that applies the changes a client made offline. `Purge` removes rows that were
-- deleted long ago. An operation takes the tables and returns a value with the tables after it, or
-- an error; an error leaves the tables as they were, since the transaction rolls back. In `Sync`,
-- `db` are the committed tables, which the reads outside the transaction see, and `tx` the tables
-- of the transaction.
--
-- `Broadcast` is apps/api/src/modules/broadcast: `Repository` has the statements, `Access` the
-- checks at the head of each operation of service.rs, and `Service` and `Cohosts` the operations
-- `delete`, `start`, `end`, `join`, `leave`, `add_cohost`, `remove_cohost` (`remove_cohost_of`) and
-- `refresh_token`. A `World` is the committed tables with the log of the calls that change
-- something in LiveKit, the cache, the job queue or the websocket hub; a spawned task is logged
-- where it is spawned. LiveKit's answers, whether a room was made and which token was signed, are
-- the record `Livekit`. Postgres and redis answer every statement. `Requests` runs a sequence of
-- requests, one after the other. `Cache` is cache.rs on redis, which those operations only log their
-- calls of, and `Counts` the number of listeners there.
--
-- `Pagination` is apps/api/src/shared/pagination.rs and shared/repository.rs: the cursors, the pages,
-- and the fragments of SQL for the order of a feed and for what comes past a cursor. What base64,
-- UUIDs, f32 and instants look like as text is a parameter, the record `Formats`, with the laws that
-- the packages document in `Lawful`; `Plain` is an instance. `Page.Walk` and `Page.Feeds` follow the
-- cursors of any feed to its end, and `Notes.Listing`, `Notes.Pull` and `Subscribers.Listing` are feeds.
--
-- `Subscribers` is apps/api/src/modules/subscribers with its statements; `Listing` has its lists, `Lists`,
-- `Joined` and `Complete` what they hold.
--
-- `Auth` is a part of apps/api/src/modules/auth: in `Otp` the one-time codes and the limit on logins of
-- cache.rs, in `Tokens` the refresh tokens of token.rs and repository.rs, in `Access` the block list of
-- access tokens with apps/api/src/shared/middleware/auth.rs. JWTs and hashes are the parameters `Jwt`
-- and `Decode`.
--
-- `Chat` is the operations of apps/api/src/modules/chat that change something, on the broadcasts and
-- participants of `Broadcast`.
--
-- `Ws` is apps/api/src/shared/services/ws on one instance: `Hub` has the connections, rooms and
-- buffers of mod.rs with the rooms of the bridge in pubsub.rs, `Socket` one connection of handlers.rs,
-- and `Events` the names of events in model.rs.
--
-- `Middleware` is apps/api/src/shared/middleware/rate_limit.rs and idempotency.rs, and
-- apps/api/src/shared/services/redis/coalescing.rs.
--
-- `Table` is what the statements do to a list of rows, with their laws, and `Prelude` has the
-- Boolean tests, lists and options.
--
-- Numbers: a u64 counter of the breaker wraps at 2 ^ 64 as `fetch_add` does, the sequence of
-- connections likewise and a u32 counter at 2 ^ 32. A version is an i32 column: an update at the
-- largest i32 is an error of the database. The limit of a page and the times in a cursor are
-- integers, within the bounds of i64 and i128 where the code parses them. Texts are lists of
-- characters, identifiers are numbers, an instant is a number that grows with time. Every loop is structural
-- recursion on its list, but for the batches of `purge_batched` in `Notes.Purge`, which run on
-- fuel: one round for each row and one more, of which every round but the last deletes a row; the client
-- of `Page.Walk`, on fuel of one page for each row and one more; and the polls of `coalesce_cache`, of
-- which there are forty.
--
-- Not modelled: in broadcast the creation, the update, the listings and the columns `updated_at`
-- and `total_participants`, which triggers keep and none of these operations reads; in auth the
-- registration, the login itself and Google sign-in; in the hub the publishing
-- to redis, the tasks that write and ping, and the dispatch of client messages; in the chat the
-- pages of messages and their cache; the notifications, profiles and settings; the calls of LiveKit and of the push provider; handlers, which
-- only pass requests on. What expires in redis does not expire here, but for
-- the block list and the grace of a host, and requests that run at the
-- same time as another are not interleaved with it.
pub mod Prelude
pub mod Table
pub mod CircuitBreaker
pub mod Notes
pub mod Broadcast
pub mod Pagination
pub mod Subscribers
pub mod Ws
pub mod Middleware
pub mod Auth
pub mod Chat
