-- ===== src/Lib.antt =====
-- Verification of the CV Agent App backend: the synchronisation of a user's data between devices, the
-- application tracker, the login and its sessions, and the plans of users.
--
-- A device pushes a batch of operations (internal/modules/sync/push.go). Each runs in a transaction of
-- its own: its request hash is compared with the stored operation of its identifier, or the handler
-- that is registered for its entity type runs on the business tables, and its result is stored in the
-- same transaction (internal/modules/sync/postgres). The handler of the tracker
-- (internal/modules/tracker/syncadapter) decodes the payload, calls a command of
-- internal/modules/tracker/application on the tables of internal/modules/tracker/postgres, and turns
-- its outcome into a result. Commands append to the change log (internal/modules/sync/recorder.go),
-- which devices read in pages.
--
-- A login (internal/modules/identity/application/email_login.go) counts the request in Redis, sends a code
-- and keeps its hash as a challenge; a right code consumes the challenge and finds or creates the user
-- (internal/modules/identity/postgres/challenge_repo.go), the provisioner ensures a subscription
-- (internal/modules/entitlement/postgres/provisioner.go), and a session is issued for the device
-- (internal/modules/identity/application/session_service.go). These are calls of a connection pool, which
-- can fail one by one and between which other calls run.
--
-- Base, Base/*        Boolean tests, lists, 64-bit integers, texts and their bytes.
-- Db, Db/*            a transaction: the tables, and a budget of the statements that still succeed.
--                     A refused statement empties it, as PostgreSQL aborts the transaction; every
--                     other budget is a connection that is lost there. Rules for failed and for
--                     successful runs.
-- Platform/Id         internal/platform/id/uuid.go: NewV7, String and Valid on bytes.
-- Platform/Idempotency  internal/platform/idempotency/store.go: Reserve on the rows of its keys.
-- Sync/Types          push_types.go and entity_types.go.
-- Sync/Operations     sync_operations: Find, Save and hashOperation.
-- Sync/Handlers       CommandHandler and the registry of NewPushService.
-- Sync/Push           Push and applyOne with what the environment does meanwhile (`Attempt`): whether
--                     the transaction begins, how many statements succeed, and how the commit ends,
--                     with the case that it is durable and the answer is lost.
-- Sync/Changes        sync_changes: Record, ListAfter and HighWatermark.
-- Sync/Feed           feed.go and projectors.go: what a page is made of, and the projector registry.
-- Sync/Cursor         cursor.go: signed cursors; JSON, base64 and HMAC are the record CursorCodec.
-- Sync/Pull           pull.go: Pull, hydrate and collapse; Pages and Drain follow its pages. A limit is a natural number, as the HTTP
--                     layer lets through.
-- Sync/Bootstrap      bootstrap.go: the pages that carry all of a user's entities.
-- Tracker/Domain      the types of internal/modules/tracker/domain.
-- Tracker/StateMachine  CanTransition and the board as a relation.
-- Tracker/Validate    the Validate methods of the writes.
-- Tracker/Store       the tables and the statements on applications and status events.
-- Tracker/Cascade     the deletion of the children of an application.
-- Tracker/Application CreateInTx, UpdateInTx, DeleteInTx and TransitionInTx.
-- Tracker/Children    CreateInTx, ReplaceInTx and DeleteInTx of the services of interview rounds, notes
--                     and reminders, once over the interface `Kind`; Kinds are its three values,
--                     Validate the validation of their writes, Checks the constraints of the tables.
-- Tracker/Calls       every command of the tracker as one type, and what they keep of the tables: the
--                     links of notes and reminders, the keys of rounds, the constraints of columns.
-- Tracker/Services    the methods of the services that begin a transaction of their own, with the
--                     idempotency keys of Create; Retried is about a create that is sent again.
-- Tracker/SyncAdapter the handler for applications, with Payloads for what goes over the wire, and
--                     Children with ChildPayloads for the other three.
-- Db/Pool             calls of a connection pool: a transaction with its commit, or one statement, each
--                     with what the environment does to it (`Fate`). Rules for what they leave.
-- Identity/Domain     internal/modules/identity/domain.
-- Identity/Store      the tables of the identity module and the counters in Redis.
-- Identity/Challenges challenge_repo.go: Create, MarkDelivery and VerifyAndResolveUser.
-- Identity/Sessions   session_service.go, session_repo.go and device_repo.go. Identity/Sessions/Book is
--                     what they promise: a map from token hashes to what they stand for.
-- Identity/Codes      generateCode on the numbers that are drawn, and digits.
-- Identity/Limiter    redis/rate_limiter.go: the script and Allow.
-- Identity/EmailLogin email_login.go: Request and Verify, with the provisioner as an argument.
-- Identity/PasswordLogin  login_dev.go and user_repo.go; Identity/Fallback is device_fallback.go.
-- Entitlement         internal/modules/entitlement: the provisioner and the summary of a plan.
-- Tests               concrete runs.
--
-- Times are natural numbers of nanoseconds, with 0 for the zero time; versions are 64-bit integers with
-- their wrap-around. Loops are structural, so no fuel is used; `drain` counts the pages that a device
-- asks for, one more than the rows after its position being enough. generateCode is a recursion on the
-- numbers that are drawn. The clock, new identifiers, the
-- titles of assets, JSON, SHA-256 and the formatting of times are parameters. A uuid column holds its
-- text as PostgreSQL returns it, and callers are taken to send that text; where the program compares
-- such texts itself, in a repeated transition, the text that comes back is a parameter (`uuid_text`).
-- A column keeps an instant as it is given, which holds of whole microseconds, and the stored entity of
-- an operation comes back as it was saved, where the program takes it through JSON. Advisory locks and FOR
-- UPDATE change no table; one transaction runs at a time.
--
-- Not modelled: HTTP, configuration and start-up; the modules experience, jd, resume and profile; the
-- hashing of passwords; the lists of the tracker, which are queries that change nothing.
pub mod Base
pub mod Db
pub mod Entitlement
pub mod Identity
pub mod Platform
pub mod Sync
pub mod Tests
pub mod Tracker
