-- ===== src/Lib.antt =====
-- StreamGive backend: the indexer that follows two Soroban contracts into a Postgres database, the
-- script that replays what it could not process, the signature check in front of the admin routes,
-- the applications of NGOs from their challenge to their review, the verification of their email,
-- the delivery of notifications, the pruning of old logs, the ranking of the donors with its CSV
-- export, and the totals by token that routes show.
--
-- How the parts interact. A poll of the worker (src/indexer/worker.ts) reads the saved checkpoint,
-- asks the RPC node for events, and hands each event to the dispatcher (src/indexer/dispatch.ts),
-- which calls the handler of the contract that the event names (src/indexer/handlers). A handler
-- writes in one transaction and then dispatches a notification. An event that fails for good becomes
-- a dead letter (src/indexer/deadLetter.ts), and the script src/scripts/replayDeadLetters.ts
-- dispatches dead letters again. The routes of src/routes/ngoApplications.ts write the applications,
-- await `notify` (src/notifications/service.ts) and send the link by which an applicant proves the
-- contact email (src/notifications/contactVerification.ts).
--
-- The files and what they model:
--   Prelude           Boolean tests, integers, texts, and tables as lists of rows with their laws.
--   Db                the rows of prisma/schema.prisma and the database.
--   Db.Exec           asynchronous code as a state and exception monad over `World`: the database,
--                     the worker's module variables, the metrics, the dispatched notifications, the
--                     remembered event ids, the requests sent and the number of calls made.
--                     `Env.fault` says which call or commit throws, so that a theorem about every
--                     `Env` covers every pattern of faults.
--   Db.Keeps, .Split, .Total, .Calm  rules: a relation that every step keeps, the cases of an action,
--                     actions that never throw, and what happens where no database call fails.
--   Indexer.Event     an event, and what is taken of the Stellar SDK, whose functions are parameters.
--   Indexer.Errors    isDecodeOrValidationError, isLedgerOutOfRange.
--   Indexer.DeadLetters  src/indexer/deadLetter.ts; `upsert_dead_letter` is the upsert of
--                     recordDeadLetter on the table.
--   Indexer.Vault     src/indexer/handlers/donationVault.ts: `handle_withdraw` is handleWithdraw,
--                     `withdraw_found` its transaction after findUnique, and so on.
--   Indexer.Registry  src/indexer/handlers/ngoRegistry.ts.
--   Indexer.Dispatch  src/indexer/dispatch.ts and src/indexer/contracts.ts.
--   Indexer.Worker    pollOnce and backoffDelayMs, and src/indexer/checkpoint.ts; `process_events` is
--                     the loop over a batch.
--   Indexer.Lifecycle  startIndexer and src/indexer/lock.ts: `step` is what happens between two awaits
--                     of a worker, System the workers that share one Postgres server.
--   Scripts.Replay    src/scripts/replayDeadLetters.ts.
--   Scripts.Reconcile  src/scripts/reconcileVerification.ts: `step` is what happens between two awaits of
--                     a loop of mapWithConcurrency, `run` a schedule; Spec has the pass in order.
--   Middleware.AdminAuth  src/middleware/adminAuth.ts: `require_admin_signature`, with the cache of
--                     used signatures as its state.
--   Metrics           src/metrics.ts: the maps of the counted requests (`recorded` is their state after some
--                     requests), Render `renderMetrics`, Expected its lines written out; its other
--                     counters are in Db.Exec.
--   Maintenance.LogRetention  src/maintenance/logRetention.ts: `prune_old_logs` is pruneOldLogs.
--   Routes.TokenTotals  src/routes/tokenTotals.ts.
--   Routes.Applications  src/routes/ngoApplications.ts: Schema has the zod schemas, Submit the challenge
--                     and the submission, Review the approval and the rejection, Read the other
--                     routes; a route's handler is the definition under its `POST` or `GET` line.
--                     Sequences runs requests one after the other (`handle_all`).
--   Routes.Donors     src/routes/donors.ts: `list_donors`, `donor_detail`; Csv has escapeCsvField and the
--                     lines of the export, whose texts are lists of code points, Export its rows,
--                     Exported what a reader of RFC 4180 files makes of them.
--   Routes.Keyset     what the paged listings of donors, NGOs and dead letters share: the sorting, and the
--                     client that follows the cursors from page to page.
--   Routes.NgoRows    the rows of the table `ngos` with all their columns, and src/routes/ngoName.ts.
--   Routes.Impact     src/routes/impact.ts and src/services/impactService.ts.
--   Routes.Ngos       src/routes/ngos.ts: the listing with its pages, Detail one NGO, Givers its
--                     donors, Admin the routes of the admins; Agrees compares Detail with Impact.
--   Routes.DeadLetters, Routes.IndexerStatus, Routes.Cacheable  src/routes/deadLetters.ts,
--                     src/routes/indexerStatus.ts and src/routes/cacheable.ts.
--   Notifications.ContactVerification  src/notifications/contactVerification.ts; Once has the links that
--                     are visited and sent in between (`use_links`).
--   Notifications.Service  src/notifications/service.ts: Message has its values, Log the rows of the
--                     notification log, Webhook `notifyWebhookTarget`, Notify `notify`, Receiver the
--                     receiver that README.md gives (`isFromStreamGive`), Total when `notify` returns.
--   Tests             the theorems at concrete inputs.
--
-- Choices. Amounts are integers, where the columns hold their decimal texts; a value of another shape
-- than the contract emits throws a TypeError where it is used. A Date is its milliseconds; an
-- invalid one is `none`, which Prisma rejects, as it does a stream event without the hash of its
-- transaction. The duration of a request is in nanoseconds. The calls of one Promise.all run in order,
-- except the loops of mapWithConcurrency, which any schedule interleaves. A
-- transaction that throws restores every table but the dead letters, which go through another
-- connection. Every loop of the source runs over a list, and the state machines run over the list of what
-- happens, so that they need no fuel; only the decimal text of a number does (`digits` of Prelude.Texts),
-- the number and one more, which is enough since the text is read back as the number
-- (`number_from-show_ℕ`).
--
-- A handler of a route runs to its end before the next one starts, so the races that the advisory
-- lock of an application and the conditional update of a review exclude are not shown; the
-- deliveries of one event run in order, each of them to its end even where another one throws. The
-- global `deliveryId` that service.ts reads is a parameter, a value or the error of reading it; the
-- secret token of a link is drawn as a UUID is.
--
-- The routes of NGOs and of impact are functions of the tables that their queries read; a query that
-- fails makes the request fail.
--
-- Not modelled: the routes of streams, of which three are missing and the fourth uses names that are
-- declared nowhere; src/server.ts and src/index.ts, which put the routes, the plugins, the hooks and the
-- health checks together and use two names that are declared nowhere; the construction of the clients;
-- the rows of prisma/seed.ts; the log lines. The cryptography, the XDR codec, `Number`,
-- `localeCompare`, the formats of zod, `new URL`, `JSON.stringify`, `toISOString`, what Node measures of
-- the process, the order of texts and the sorting by dates of the database, the Postgres server's lock
-- and the RPC node are parameters.
pub mod Db
pub mod Indexer
pub mod Maintenance
pub mod Metrics
pub mod Middleware
pub mod Notifications
pub mod Prelude
pub mod Routes
pub mod Scripts
pub mod Tests
