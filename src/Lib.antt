-- ===== src/Lib.antt =====
-- LoveChapter, a wedding-planning service: its domain rules, its authentication and its mail worker.
--
-- Parts and files. Prelude and Text are the JavaScript values that the code uses: numbers as the guards
-- of the code see them (Prelude/Number), optional properties (Prelude/Optional), computations that
-- throw (Prelude/Result, for packages/domain/src/errors.ts), and strings as lists of UTF-16 code units
-- (Text). Domain holds the input rules of packages/domain/src: planning.ts (Calendar, Validation,
-- Planning), wedding-operations.ts (Money, Operations), rsvp.ts (Rsvp) and envelope-printing.ts
-- (Envelope), RunSheet for the entries of the run sheet, and service.ts: Guests, Requests and Cursor (with
-- cursor.ts) are its normalisers, Domain/Service its methods, each up to the one repository call that it ends
-- in, with Service/Requests for the requests of these methods and Service/Answers for what each asks. Countries is the list of packages/contracts/src/standard-codes.ts.
-- Each `normalize…` or `validate…` function is one function into `Result`.
-- Auth/Types is packages/auth/src/types.ts; Auth/Tables has the tables of
-- packages/database/src/schema.ts that authentication uses and the SQL clauses of the statements.
-- Auth/Store has the statements of packages/database/src/auth-queries.ts in the transactions of
-- auth-repository.ts: RateLimits, Sessions (accounts, tokens, sessions), Issues (registration and the
-- queueing of mail) and EmailJobs (the outbox). Auth/Email is packages/auth/src/email.ts, and Auth/Service
-- is packages/auth/src/service.ts over that store; Auth/Semaphore is `FifoSemaphore` of
-- packages/auth/src/password.ts as a machine of events between its awaits. In Auth/Service,
-- Handlers and SignIn have one function per method.
-- Database has packages/database/src: Rows the tables of a wedding, Operations the methods of
-- wedding-operations-repository.ts (Budget, Costs, RunSheet, Seating), Operations/Changes any sequence of
-- its changing calls by any users, and Planning planning-repository.ts with planning-queries.ts.
-- Jobs is apps/jobs/src/processor.ts: Processor has `processJob` over the outbox, Loop has
-- `runJobLoop` and `runAdmittedBatch`. The worker and the service meet only in the tables.
--
-- Correspondence. A statement is a function on the database; a transaction gives `none` when it fails and
-- then leaves the database as it was. A handler of the service keeps the effects of the statements before
-- an error. Identifiers, hashes and keys, which are only compared, are numbers; dates are milliseconds.
-- The service and the repositories have types of their own for the same input: texts there, numbers here.
-- What a call draws at random is an argument (`Draw`).
--
-- Bounds. `roll_forward` carries a day into later months with fuel 4: a day of two digits passes at most
-- three months. The delays of the worker are exact; a power of two beyond a double only meets the cap.
--
-- The pages of a list are followed with fuel above the number of tasks: each page but the last shows one.
--
-- Parameters: Unicode tables, Intl data, what `Date`, `btoa` and JSON print and read, SQL's `lower`, the
-- password hasher, the codec of action tokens, keyed hashes and the mail provider. Not modelled: rows locked
-- by other transactions, the repositories of guests, invitations, templates and imports, the lists of
-- the wedding operations, the methods of the service for profiles, public invitations, previews of imports
-- and the export,
-- local times of weddings, the formats of password envelopes and action tokens, the three workers of a mail
-- batch, the API and web applications, release tooling, and the operations of the outbox that delete
-- expired rows.
pub mod Prelude
pub mod Text
pub mod Domain
pub mod Auth
pub mod Database
pub mod Jobs
