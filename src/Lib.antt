-- ===== src/Lib.antt =====
-- one-marketplace: a shop with checkouts, order status events, a job queue, a transactional
-- outbox, its relay to the message broker, the consumer that issues receipts, and sessions whose
-- refresh tokens rotate. Product cards are cached, and products are created under a key.
--
-- How the parts work together. A checkout is one transaction: it takes stock and money and writes
-- the order, its items, a job and an outbox row. The relay sends the outbox rows to the broker and
-- marks them; the consumer reads the messages and issues one receipt an order, with an inbox
-- against repetitions. A worker takes the jobs from the queue. A change of an order's status is
-- published to the service that numbers and buffers status events for clients that reconnect. The
-- endpoints of orders sit on these parts, behind guards that ask the denylist whether a token or
-- its session was revoked; a gateway sends the status events to the sockets of an order's buyer. The
-- denylist is synchronised with the table of refresh tokens. Cards of products are cached in Redis
-- and loaded under a lock, and jobs refresh them after orders.
--
-- The files, and the code they model (paths from the repository's root):
--   Base: tables as lists of rows with the SQL statements on them (Base/Table, Base/Keyed,
--     Base/Ordered), JavaScript strings as code units (Base/Text), results of async functions
--     (Base/Settled), tests on numbers (Base/Tests) and lists (Base/Lists).
--   Entities: src/entities/*.ts, one record a table, the database Db (Entities/Rows), and
--     src/messaging/order-placed.event.ts (Entities/Event).
--   Checkout: src/services/checkout.service.ts. Transaction is dataSource.transaction, Validate
--     is validateLines, Body has the statements in their order, from the stock (reserve_all) and
--     the balance (charge) to the rows written (record_order); checkout is the function itself.
--     Lines, Rows, Stock, Enough, Payment, Placed, Failed and Unique hold the theorems.
--   OrderEvents: src/services/order-events.service.ts, the class OrderEventsService: publish,
--     streamFor (stream_for) and missedSince (missed_since). Buffers, Retained and Replay hold the
--     theorems.
--   OrderStatus: src/services/order-status.service.ts, OrderStatusService.change.
--   JobWorker: src/services/job-worker.service.ts, processNextJob, countPendingJobs and
--     runWorker.
--   Publisher: src/messaging/order-placed.publisher.ts, open (open_channel) and publish; publish_from
--     is the loop of relayBatch with a publisher, and Batches relates it to the loop of Relay.
--   Relay: src/messaging/outbox-relay.ts, relayBatch, with what a publish comes to as a parameter.
--   RelayProcess: src/relay.ts. Main is the process, Kept has the theorem on it.
--   Consumer: src/messaging/order-placed.consumer.ts. Message is parseMessage, Service has
--     applyOrderPlaced and the handler of startConsumer.
--   PlaceOrder: src/services/place-order.service.ts (Service) on
--     src/repositories/orders.repository.ts (Repository). place takes what other transactions do
--     between its reads and its transaction. Normal and Again hold the theorems on a request sent again.
--   OrdersApi: src/controllers/orders.controller.ts, the endpoints create, getById (get_by_id),
--     changeStatus (change_status), list (list_orders, in Listing with listByUser and countByStatus
--     of the repository) and streamEvents: stream_events is what it writes first, and streamed
--     (Stream) what follows.
--   RateLimiter: src/services/rate-limiter.service.ts, the script (sliding_window) and hit.
--   WithRetry: src/services/with-retry.ts, withRetry (with_retry).
--   Cleanup: src/messaging/outbox-cleanup.ts, cleanupOutbox (cleanup_outbox).
--   Auth: Denylist is src/auth/access-denylist.ts, Service is src/auth/auth.service.ts with
--     login, refresh and logout, Access is src/auth/access-authenticator.ts,
--     src/auth/auth.guard.ts and src/auth/roles.guard.ts. Families, Closed and Reuse hold the
--     theorems on refresh tokens, Sessions, Guarded, Refused and Passing those on revoked
--     sessions. Maintenance is src/auth/auth-maintenance.ts, with its theorems in Expired, Synced
--     and Runs; Allowed says what isStillValid answers by the keys.
--   Idempotency: src/services/idempotency.service.ts. Json is canonicalize, Service has the records
--     and handleIdempotency; History states what the answers are without the records.
--   Gateway: src/gateways/orders.gateway.ts, join (join_room) and deliver.
--   ProductCards: src/services/product-card.service.ts on src/redis/cache.ts (Cache),
--     src/redis/lock.ts (Lock) and src/repositories/products.repository.ts (Products); get is
--     get_card and load is load_card. Queue is src/queue/product-cards.queue.ts and
--     src/queue/product-card-refresher.ts. Fresh and Loads hold the theorems.
--   ProductsApi: src/controllers/products.controller.ts, the endpoints list (list_products), getById
--     (get_product) and create (post_product), with src/http/rate-limit.guard.ts.
--   Sessions: src/services/session.service.ts, src/controllers/sessions.controller.ts and
--     src/repositories/users.repository.ts.
--   AuthApi: src/controllers/auth.controller.ts. LoggedOut has the theorem on it.
--   Tokens: Keys is src/auth/token.service.ts with src/auth/verification-keys.ts, the options of
--     src/auth/auth.module.ts and the keys' refinement in src/config/env.schema.ts; Password is
--     src/auth/password.ts. Rotation and Hashed hold the theorems.
--   Revenue: revenueByProduct (revenue_by_product) of src/repositories/products.repository.ts and
--     formatUah (format_uah) of src/report.ts. Sums and Accounted hold the theorems.
--   Examples: runs at concrete inputs.
--
-- Choices of the model. A bigint or uuid is a natural number, a timestamp its milliseconds, and
-- the text of an id is kept where the code keeps it; ids are taken below 2^53, where Number is
-- exact. A parameter beyond its column's integer or bigint fails the query. A total beyond integer
-- fails the charge, so the rounding of larger sums is not observed. A transaction whose body
-- throws leaves the database as it was; the gaps that sequences keep after that are not modelled.
-- Row locks serialise concurrent checkouts, so a checkout is one step. The worker is alone on its
-- queue, where SKIP LOCKED skips nothing. A publisher has one publish at a time, as relayBatch
-- awaits each. A pipeline of Redis is done or not as a whole, and onRetry does not throw. JobStatus.waiting is the status 'pending' of a job.
--
-- Fuel. run_worker takes fuel in place of the endless loop: one more than the claims that the
-- queue has left is enough. relay_from counts down the rounds of the limit. The retry loop has
-- fuel for its attempts, and the cleanups more than there are rows; the relay process gives them one
-- more. The loop of load_card polls every
-- 25 ms for at most 5 s, so that 202 turns are enough.
--
-- Parameters. The broker's answer to a publish and the hooks of relay and consumer, the handler of
-- a job, the clock, the uuid of an outbox row, the answers of Redis, the hash of a refresh token,
-- the check of a password, the verification of an access token and the random values are
-- arguments. JSON.parse and the transport are the language's and the libraries': a message's
-- content is the fields that it parses to.
--
-- Not modelled: the migrations, the demo and seed scripts, the wiring of modules and processes,
-- the connections to PostgreSQL, Redis and RabbitMQ, and the filter that renders errors. The signing
-- of tokens, scrypt and base64 are parameters; issueRefresh and hashRefresh are calls of them.
pub mod Base
pub mod Entities
pub mod Checkout
pub mod PlaceOrder
pub mod OrderEvents
pub mod OrderStatus
pub mod OrdersApi
pub mod JobWorker
pub mod WithRetry
pub mod Publisher
pub mod Relay
pub mod Cleanup
pub mod RelayProcess
pub mod Consumer
pub mod RateLimiter
pub mod Auth
pub mod Idempotency
pub mod Gateway
pub mod ProductCards
pub mod ProductsApi
pub mod Sessions
pub mod AuthApi
pub mod Tokens
pub mod Revenue
pub mod Examples
