-- ===== src/Lib.antt =====
-- Two parts of the GraphNode backend: its billing (credits, subscriptions, payment webhooks and the
-- daily limit of chats), and a user's notes with their tree of folders and their synchronisation.
--
-- The program. A feature (chat, graph generation, microscope ingest) is paid for in credits. For a
-- short call CreditService.deduct takes the cost at once. For a long job CreditService.hold keeps the
-- cost back under the job's task id, and the worker that ends the job calls commitByTaskId or
-- rollbackByTaskId; expireStaleHolds, which a cron job calls, rolls back what was left open. A plan
-- fills the credits up per cycle: getBalance refills on reading, and so does a cron job. Subscriptions
-- give the plan. SubscriptionService makes, upgrades, cancels and grants them; a payment provider
-- reports payments by webhooks, which WebhookController stores once per idempotency key and which
-- WebhookProcessingService then turns into changes of subscriptions, payments and credits.
--
-- A user's notes lie in folders that have parents. NoteService deletes a folder with all that lies
-- below it, into the trash or for good, restores it from there, pages through lists by a cursor, and a
-- cron job has it empty the trash. NoteRepositoryMongo issues the statements on the two collections, a
-- transaction holds those of one tree together, withRetry repeats what fails, and the nodes that the
-- knowledge graph made of the notes are deleted and restored with them. SyncService takes the changes
-- that a client made to notes and folders while it was away, in one transaction, and hands out what
-- has changed since a date.
--
-- The files, with the code that they model:
--   Common        shared names, tests on numbers, integers, texts
--   Billing       src/config/billing.config.ts and the enums of src/core/types/persistence
--   Store         the tables and rows (prisma/schema.prisma), the effects of a database call, JSON
--   Credit        src/infra/repositories/CreditRepositoryPrisma.ts (Credit/Repository) and
--                 src/core/services/CreditService.ts (Credit/Service); the other modules of Credit
--                 are named for what they prove
--   Subscription  src/infra/repositories/SubscriptionRepository.ts, PaymentHistoryRepository.ts and
--                 WebhookEventRepository.ts (Subscription/Repository), and
--                 src/core/services/SubscriptionService.ts (Subscription/Service)
--   Webhook       src/infra/payment/webhookEventResolver.ts (Webhook/Resolver),
--                 src/core/services/WebhookProcessingService.ts (Webhook/Payload, Webhook/Processing)
--                 and src/app/controllers/WebhookController.ts (Webhook/Controller)
--   Usage         src/infra/repositories/DailyUsageRepositoryPrisma.ts (Usage/Repository) and
--                 src/core/services/DailyUsageService.ts (Usage/Service): the daily limit of chats
--   Notes         src/infra/repositories/NoteRepositoryMongo.ts (Notes/Repository, Notes/Folders,
--                 Notes/Descendants, Notes/Listing, Notes/Queries, on the driver's statements in
--                 Notes/Collections), src/core/services/NoteService.ts (Notes/Service for notes and
--                 single folders, Notes/Trees for whole trees and the cleanup, Notes/Documents for
--                 SyncService), src/shared/utils/retry.ts and the transactions (Notes/Effects); the
--                 other modules are named for what they prove
--   Sync          src/core/services/SyncService.ts for notes and folders (Sync/Service)
--   Tests         runs of the theorems on concrete data
-- A function keeps its name, in the spelling of this language: commitByTaskId is commit_by_task_id.
--
-- The model. A table is a list of rows, newest first, so that orderBy createdAt desc is the order of
-- the list; Database is the record of the tables. One statement or one prisma.$transaction is a Tx, a
-- function of the database that ends in a value or an error and is undone where it throws. A method is
-- an Action on a World: the database, and a list that says of each call still to come whether it
-- fails. A call that fails is taken to have had no effect: a theorem about every World is about every
-- pattern of such failures, not about a call that takes effect while its acknowledgement is lost. A
-- theorem about a calm World is about a run where no call fails. A method runs by itself between its calls
-- unless the theorem says otherwise; Credit/Workers takes the methods apart into their transactions
-- and lets those of many workers interleave. Credits and amounts are integers, dates are natural
-- numbers of milliseconds; JavaScript computes both exactly in the ranges that occur. Readings of the
-- clock, generated ids and random keys are arguments. Every loop is a structural recursion on a list,
-- so that no fuel is needed, but for the rounds that stand for $graphLookup, which are as many as
-- there are folders; each round takes a folder or is the last, so these are enough.
--
-- The collections of notes are a state of their own, Stores, with the faults of the calls to come and
-- the state of the graph store, which is a parameter with its two operations. A transaction undoes the
-- collections where its body throws. Where its commit fails, it has no effect or, with an unknown
-- result, has taken effect all the same, as a further entry of the faults says. The graph store stays
-- as it is then. Every statement inside a transaction has its session. The loop of the package
-- async-retry, which withRetry passes its options to, is written out as documented: a method is run up
-- to four times on the state that the last attempt left; waiting is left out. So is the documented
-- behaviour of $graphLookup, the ids that are reached along parentId.
--
-- Arguments that stand for code outside the repository: the cost table where a statement holds for
-- any price model, the payment provider's cancelSubscription and verifyWebhookSignature, JSON.parse,
-- and Number on a value that is no number. What is known of the database is written into the tables'
-- operations: unique keys refuse a second row, an update of a missing row throws. Dates are exact; the
-- columns of subscriptions keep whole seconds, so that of rows made within one second the database may
-- take another for the newest. Amounts have no bound; the insert of one that is no 32-bit integer would
-- throw.
--
-- Not modelled: logging; columns that are written and never read (ids of the credit tables, metadata,
-- descriptions, currencies, receipts); a payload whose userId is an object that the database client
-- would read as a filter; the regular expression of the search in NoteRepositoryMongo, which is a
-- parameter; the title that bulkCreateNotes makes of a text, which is a parameter; the label
-- TransientTransactionError of the database's errors, which are errors like others; keys that JavaScript objects inherit
-- from their prototype; and the parts of the server beside these (graphs, chats, agents, search,
-- files, the synchronisation of chats, authentication, workers and the clients of external services),
-- which are calls of other systems for the most part.
pub mod Common
pub mod Billing
pub mod Store
pub mod Credit
pub mod Subscription
pub mod Webhook
pub mod Usage
pub mod Notes
pub mod Sync
pub mod Tests
