-- ===== src/Lib.antt =====
-- Verification of the race calendar: the control logic of its TypeScript packages and worker.
--
-- The program. An administrator's panel asks the API for collections of race catalogs. Each request is
-- a task in a database queue (packages/database). Executors claim tasks one at a time (apps/worker),
-- renew a lease while they work, ask a shared gate before every request to a source, and finish,
-- defer or lose the task. A weekly clock says when the recurring catalog is due. What is collected is
-- compared with known editions, and published only if a policy finds nothing missing.
--
-- The parts and their files. Paths are from the repository's root.
--   Queue           packages/database/src/tasks.ts with the database functions that it calls, in
--                   packages/database/prisma/migrations: enqueueTask, claimTask, heartbeatTask,
--                   finishTask and the deferrals, on a list of rows. Queue.Json is stableJson,
--                   Queue.Task the row and the fenced updates, Queue.Claim the acquisition,
--                   Queue.Enqueue the creation; Queue.Steps is the step relation of all of them.
--   SourceRequests  packages/database/src/source-requests.ts and its migration. SourceRequests.Gate is
--                   the reservation, the waiting loop and the block, SourceRequests.Control the
--                   administrator's transactions with their audit.
--   Clock           packages/database/src/catalog-weekly-clock.ts.
--   Pilot           assertPilotTask of packages/utils/src/staging-profile.ts.
--   Edition         packages/database/src/edition-evidence.ts: Edition.Identity is editionIdentity and
--                   editionLinks, Edition.Evidence the comparison and crossSourceEditionReason.
--   Dates           normalizeDate of packages/utils/src/index.ts.
--   Publication     packages/database/src/publication-policy.ts, over Edition.Identity and Dates.
--   Worker          packages/utils/src/local-resources.ts, worker-polling.ts, the limits of
--                   apps/worker/src/batch.ts, in Worker.Loop the loop of apps/worker/src/queue.ts, and in
--                   Worker.Errors apps/worker/src/task-error.ts.
--   Capacity        packages/database/src/capacity.ts and check_catalog_capacity of its migration;
--                   Capacity.Allocation is validateAllocation and the update of controlCapacity.
--                   Capacity.Control is controlCapacity, readCapacity and, of lease.ts beside it,
--                   assertTaskLease.
--   Continuation    packages/database/src/catalog-continuation.ts, over Queue.Enqueue:
--                   coordinateCatalogSyncs is Continuation.Coordinate, controlCatalogSync
--                   Continuation.Control.
--   Campaign        packages/database/src/catalog-campaign.ts, over Capacity, Continuation and
--                   Queue.Enqueue: startCatalogCampaign is Campaign.Launch, and
--                   controlCatalogCampaign is Campaign.Control (the rows) and Campaign.Transaction.
--                   Campaign.SlotRows states the abstract view, a slot that one campaign takes.
--   Checkpoints     packages/database/src/result-checkpoints.ts.
--   Countries       countryFromExplicitValue and countryFromLocationText of packages/utils/src/index.ts.
--   SafeHttp        packages/scraper/src/safe-http.ts: address and URL rules, and the redirect loop.
--   Common          tests, results, lists, and texts as lists of UTF-16 code units.
--
-- State and time. A table is a list of rows, a transaction one function of it, since the code takes a
-- lock first; interleavings are sequences of steps. Times are natural numbers of milliseconds: since
-- the epoch in Queue, SourceRequests and Worker, since the first day of the year 0 in Clock, so that
-- no moment of the calendar is negative.
--
-- Bounds. The weekly clock shifts a wall time that does not exist by at most 180 minutes, as the code
-- does: 181 rounds. The waiting loop of the gate runs on fuel, and two rounds are shown to be enough
-- when no other executor takes the time slot. The worker's loop runs over the rounds that the world
-- offers it. A request follows three redirects, as the code does, by recursion on those that are left.
--
-- What is a parameter: the time zone's formatter, the SHA-256 digest, the collation of JSON keys, the
-- conversion of JSON to numbers and texts, the sizes that the database measures, URL parsing and
-- printing, the folding of accents, the other executors' changes of a gate, and the tables that the
-- acquisition only reads; for a request the clock, the name server, the sockets and the guards of
-- requests; for texts of places the change of case; for a sync the gates and the campaign's mark.
--
-- What is not modelled: HTTP routes, HTML extraction, calls of models and of the network, the Prisma
-- client, the coordination of campaigns, the weekly runs of catalogs, the reconciliation of events, the
-- Python worker and the site.
mod Common
pub mod Clock
pub mod Pilot
pub mod Queue
pub mod SourceRequests
pub mod Edition
pub mod Dates
pub mod Publication
pub mod Worker
pub mod Capacity
pub mod Continuation
pub mod SafeHttp
pub mod Countries
pub mod Checkpoints
pub mod Campaign
