-- ===== src/Lib.antt =====
-- The order core of the real-time logistics platform, with its route planner, route runs, tracking,
-- scans, payments, settlements, imports and browser queues, as a model with proofs.
--
-- The program is a web API (apps/api/src) with a web client (apps/web/src). The API keeps its state
-- in arrays and maps of one process, apps/api/src/domain/store.ts, and writes every change to a
-- database. A request handler of apps/api/src/app.ts checks the user and the body, changes the
-- objects in memory, persists them in one transaction, and writes an audit record and a
-- notification; where the transaction fails, a `catch` block writes snapshots back.
--
-- Common: names shared by all modules, lists, Boolean tests, texts.
-- Model: packages/shared/src/index.ts. An interface is a record and a union of literals a data
--   type. An instant is its number of milliseconds, an amount its number of minor units, a weight
--   its number of grams, and a coordinate its number of 10^-7 degrees.
-- StateMachine: apps/api/src/domain/stateMachine.ts. An exception is the case `thrown` of
--   Outcome, with its status and message.
-- Store: apps/api/src/domain/store.ts. World has the arrays and maps; a search returns an element
--   and `modify_first` with the same test is the assignment through that reference. Context is one
--   request: its time, its fresh identifiers, and what other code answers, which is the hash, the
--   case mapping, whether the transaction and the inserts succeed, and the mail adapter.
-- Geo: the haversine distance of apps/api/src/services/optimizer.ts. A JavaScript number is a
--   value of a record JsNumber of operations, of which nothing is assumed but where IsOrdered is an
--   argument, a comparison without NaN is a strict weak order and adding 0.00001 grows, or where
--   KeepsDates is: a date has no fraction of a millisecond, and passes no whole number by that.
-- Api: what the handlers share, from apps/api/src/app.ts.
-- Orders: the handlers of apps/api/src/app.ts that change an order, and apps/api/src/services/
--   payments.ts. Create, Dispatch, Delivery, Customer and Payment have one function per handler.
--   Calls has the requests as data and runs a sequence of them. Lifecycle is the specification of
--   one request's effect; Cases reduces each handler to the states it can leave; Refinement,
--   History and Atomicity have the theorems.
-- Optimizer: apps/api/src/services/optimizer.ts. The greedy loop runs once for each stop, which
--   is enough since each round takes one stop out; 2-opt has the source's own limit of 50 rounds.
-- RouteRuns: apps/api/src/services/routeRuns.ts and the handlers of apps/api/src/app.ts that
--   publish a run and change its status. Saves has the answers of the database.
-- Tracking: apps/api/src/services/geofence.ts and the handler of apps/api/src/app.ts that takes a
--   driver's position. Fences counts the events of a log; Fixes runs sequences of positions.
-- Scans: the handler of parcel scans of apps/api/src/app.ts.
-- LocationQueue: apps/web/src/lib/locationQueue.ts; what is enqueued while a flush waits for its
--   sends is an argument.
-- ActionQueue: apps/web/src/lib/driverActionQueue.ts, in the same way.
-- Territories: apps/api/src/services/territories.ts, and the creation of an order with its answer.
-- Reconciliation: apps/api/src/services/reconciliation.ts. The ledger has the answers of the
--   database and the case mapping. The sums are of JavaScript numbers.
-- Exceptions: the handlers of delivery exceptions of apps/api/src/app.ts, with their array.
-- Support: the handlers of support tickets of apps/api/src/app.ts, with their two arrays.
-- Csv: the reader of comma-separated texts, which apps/api/src/services/settlements.ts and
--   bulkOrders.ts beside it both have, and the writer of apps/api/src/app.ts. A text is a list of
--   characters there. Plain and Quoted follow the reader over one cell.
-- Settlements: apps/api/src/services/settlements.ts. Desk has what other code answers: the case
--   mappings, the identifiers, and the reading of numbers and dates. Service has the map of rows,
--   Import the file, Calls the handlers of apps/api/src/app.ts; what the database answers to a
--   query is an argument of them.
-- Idempotency: apps/api/src/services/idempotency.ts and the middleware of apps/api/src/app.ts, for
--   the requests that carry one key, without the table in the database. Steps is a step relation in
--   which the requests interleave at every `await`; a promise is the position of the request that
--   resolves it. The time to live is the source's own, a day.
-- Webhook: the handler of the payment provider's events of apps/api/src/app.ts. WebhookProvider has
--   the signature that the provider's key gives, and whether the database answers up to and with
--   the insert of the event's key, which is a query of its own. The keys of the events are the
--   table's, or the set of the process where there is no database; then nothing is refused.
-- Bulk: apps/api/src/services/bulkOrders.ts, and `runBulkImport` of apps/api/src/app.ts in Import.
--   Importer has the schema of an order, which also reads the numbers and dates, the case mapping
--   and the service areas. Each order of a file has a request of its own, with its time and its
--   transaction. Jobs has the jobs of apps/api/src/services/bulkImportQueue.ts that run in the
--   process, as a step relation: a job's import takes place when its call ends.
-- Tests: a small store, and each theorem with arguments applied to it.
--
-- Requests are handled one after the other: two handlers that wait for the database at the same
-- time are not interleaved, except in Idempotency. Not modelled: the pages of the web client, SQL,
-- sockets, sign-in, map and mail services, and reports, which are calls of other programs or views
-- of the state. The emission of events to sockets is left out of the handlers, and so is the
-- metadata of audit records. The estimate of arrival that `etaFor` adds to a response is not part
-- of the order that is stored. Schemas are applied before a handler: its body is `none` where the
-- schema refuses it.
mod Common
pub mod Model
pub mod StateMachine
pub mod Store
pub mod Geo
pub mod Api
pub mod Orders
pub mod Optimizer
pub mod RouteRuns
pub mod Tracking
pub mod Scans
pub mod ActionQueue
pub mod LocationQueue
pub mod Territories
pub mod Reconciliation
pub mod Csv
pub mod Exceptions
pub mod Settlements
pub mod Support
pub mod Idempotency
pub mod Webhook
pub mod Bulk
mod Tests
