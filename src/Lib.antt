-- ===== src/Lib.antt =====
-- Billing API: fiscal documents for Costa Rica's Hacienda, and their submission and delivery.
--
-- A request to issue a document is validated, reserved under an idempotency key, given the next
-- number of a sequence, a consecutive number and a key (`clave`), and stored with its totals. A
-- submission then goes to Hacienda, and a delivery mails the document to its receiver; a state machine
-- and a retry classifier are written for each of the two. The jobs of the submission worker claim a
-- submission, take an access token for the company's connection, ask Hacienda's reception service and
-- apply its answer, without the classifier; requests and Hacienda's callback queue jobs. Queries of
-- taxpayers, exchange rates and CABYS codes go to Hacienda through a circuit breaker. Requests carry
-- an API key, which is validated first; administrators log in and refresh a session.
--
-- The files, and the code they model (paths from the repository's root):
--   Common and its children: Boolean tests, texts, integers and results over the native numbers.
--   Money: src/modules/fiscal-documents/domain/scaled-decimal.ts. A `ScaledDecimal` is its `units`.
--   FiscalDocument/Key: domain/fiscal-key.generator.ts, fiscal-identification.mapper.ts,
--     fiscal-cabys-classifier.ts and fiscal.constants.ts of the same module.
--   FiscalDocument/Validation, Totals, Store, Profile, Idempotency, Creation, Administration:
--     application/fiscal-document.service.ts, with domain/fiscal-catalogs.ts. A function keeps the
--     name of its method; `create_document` is a transaction on the tables of Store, and an error
--     leaves them as they were. Numbering has the invariant of the sequences.
--   Submission/StateMachine, RetryClassifier: domain/submission.
--   Submission/Provider: infrastructure/submission/hacienda-recepcion-status.table.ts and
--     hacienda-recepcion.adapter.ts, from the answer of Hacienda to a result. Submission/State:
--     application/submission/fiscal-submission-state.service.ts on the tables of one document.
--     Submission/Worker: application/submission/workers/fiscal-submission-worker.service.ts.
--     Submission/Requests: the other services of application/submission. Submission/Runs has the
--     runs of all of these as a relation, each job interrupted by runs of the others.
--   Delivery/StateMachine, RetryClassifier: domain/delivery. Delivery/Worker:
--     application/delivery/delivery-worker.service.ts, one run of the job.
--   Breaker: src/infrastructure/integrations/hacienda/hacienda-circuit-breaker.service.ts.
--   Connection: src/modules/hacienda-connection, the entity, its handlers, the save of the repository
--     and the token cache, with accessToken of the submission worker.
--   Identity: src/modules/identity, login, the rotation of refresh tokens and their durations.
--   ApiKeys: src/modules/api-keys, the entity and the handlers validate-api-key and revoke-api-key.
--     ApiKeys/Guard: src/api/guards/api-key-auth.guard.ts and scope.guard.ts.
--   Companies: src/modules/companies, fiscal profiles and economic activities.
-- The files Tests run the theorems at concrete data.
--
-- Bounds and fuel: amounts are integers without bound, as `bigint` is, and sequence values and
-- counters natural numbers; a document's number is checked against 9999999999 where the code does.
-- The limiter of the breaker has fuel for one more round than it has requests recorded, and a call
-- for one more attempt than both retry counts; both are enough by theorems on the breaker. All other
-- loops are recursions on lists.
--
-- Parameters: Unicode's cases, the SHA-256 hashes, argon2, the signature of access tokens, base64,
-- random numbers, identifiers and clocks, and the answers of Hacienda, of its identity provider, of
-- the storage and of the mail service. Concurrency is modelled where the code handles it: what other
-- processes do to the tables between two accesses of a job or a request is an argument, and a
-- transaction may meet other rows than the lookups before it.
--
-- Not modelled: controllers, modules and configuration; rendering, signing and storing of XML and
-- PDF; mail texts and attachments; the audit module beyond the events that modelled code records;
-- clients of external services, with the diagnostics that the reception adapter keeps for operators;
-- the queue of jobs, with its delays and singleton keys; the creation of tenants, users and
-- companies, the verification of taxpayers, and onboarding.
pub mod Common
pub mod Money
pub mod FiscalDocument
pub mod Submission
pub mod Delivery
pub mod Breaker
pub mod Connection
pub mod ApiKeys
pub mod Identity
pub mod Companies
