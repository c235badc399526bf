-- ===== src/Lib.antt =====
-- The verification library of service-genai: models of the Go code that submits, checks and settles
-- generations, with the theorems about them.
--
-- The service takes a request for a provider's paid call, records it as a generation, sends the
-- call, and later asks the provider until it can settle the generation. No process owns a
-- generation: a submit, a poll and a sweep each run a check of it, and every write is one
-- conditional statement.
--
-- The parts, with the files that model them:
-- - internal/dao: Dao.Rows has the rows of pg.generation.go, pg.generationAttempt.go and
--   pg.generationUsage.go, with the CHECK constraints of internal/models/migrations; Dao.Lifecycle
--   the statements pg.generationSettle, pg.generationRecordProviderCall and
--   pg.generationRequestCancel; Dao.Submit pg.generationSubmit; Dao.Reads pg.generationGet, Sweep,
--   CountLive, AttemptList and UsageSum; Dao.Records pg.generationAttemptInsert and
--   pg.generationUsageInsert; Dao.Answers common.go; Dao.SweepLock pg.generationSweepLock,
--   pg.generationSweepUnlock and discard of common.go. A function `settle`, `submit`, `get`, … is
--   the Exec of its struct, over a state of three tables and a clock, or, for the sweep lock, over
--   any state with sessions. Dao.Consistency, Steps, Updates, Fencing, Replay, Pages, Listing,
--   Kept, History, Recorded, InFlight and SweepLock.Leader are proofs; Dao.History has the moves of
--   a row as a relation.
-- - internal/lib/connectors: Connectors has connector.go, Connectors.OpenAi the connector of
--   openai.go, in Classify (the classify functions), Response (providerCallOf), Operations (Start,
--   Get, Cancel, holdStream and asyncEnvelope, with the same names) and Stream (Stream,
--   yieldEvents, streamEventOf, streamOptions, callPath and NewOpenAI, with NewRegistry of
--   connector.go).
-- - internal/core: Core.Check is generationCheck.go, with a function for each method: Commit has
--   recordUsage, recordAttempt, commit, settle and settleFailure; Observe ask and observe;
--   RecordCall recordCall and stopOrphan; Start start, failStart and resolveStart; Exec the Exec.
--   Core.Submit is generationSubmit.go, in Request, Key (requestKey and canonicalPayload), Admit
--   (admit and windowRefusal) and Exec. Core.Cancel is generationCancel.go, Core.Get
--   generationGet.go, Core.Stream generationStream.go, Core.Usage usageSummary.go, Core.Queue
--   generationQueueDepth.go with pg.generationQueueDepth, Core.Sweep generationSweep.go,
--   Core.Generation generation.go. Core.Sweep.Overlap is sweepBatch again as a state machine: the
--   loop dispatch, the goroutines of its checks and the channel slots, one constructor for each
--   step. Core.System runs submits, reads, cancels and sweeps one after another over the tables,
--   and Core.System.Sent over the tables with a log of the starts that checks are given and a count
--   of those that providers are asked for, with GenerationCheck.Exec itself as the check in
--   Core.System.Priced; Core.System.Over has the services over the queries as cmd builds them,
--   Core.System.Along what each service does to any state, and Core.System.Capped the concurrency
--   cap over their calls. Core.Check.Once counts the starts that a provider is asked for.
-- - internal/handlers: Handlers.Generation is grpc.generation.go, Read grpc.generationGet.go and
--   grpc.generationCancel.go, Submit grpc.generationSubmit.go, Stream grpc.generationStream.go,
--   Usage grpc.usageSummary.go, and Status grpc.status.go, rest.health.go, rest.ping.go,
--   rest.generationSweep.go and grpc.serviceToken.go. A handler takes its service as a function and
--   answers a message, a status or a fault. Handlers.Hidden, Wire and Delivery are proofs.
-- - internal/config: Config has App.Validate, sweepConcurrency, exportsOTLP and newOtelPreset,
--   Config.Env the variables of env/env.go with its defaults and functions, and Config.Preset
--   AppPresetDefault and NewPostgresPreset.
-- - cmd: Commands has sweepRun of cmd/sweep/main.go and newServer of cmd/grpc/main.go; the services
--   as both build them are over_tables of Core.Check.Atomic, get_over, cancel_over, submit_over and
--   sweep_over of Core.System, their likes of Core.System.Sent, and summary_over of
--   Core.Usage.Room.
-- - Prelude has the lists, the tests and the integers that these share; Errors the errors, as far
--   as the program tests them; Action the calls that return a value or an error and change a state.
--
-- How they meet: a check takes a record of the queries, the connectors, the transaction, the clock
-- and the logs (Core.Check.Deps), over any state. Core.Check.Atomic fills it with the queries of
-- Dao, Core.Check.Recorded has the rows that a commit is to leave, and Core.Check.Reach relates a
-- check to the statements of Dao.Steps. A connector fills the records `Async` and `Streaming` of
-- Connectors. A submit, a read, a cancel and a sweep take a check as a function, and Core.System
-- fills the rest of what they take with the queries of Dao. A sequence of events (`iter.Seq2`) is a
-- function of its loop's body, which runs over the caller's variables and the world.
--
-- What is a parameter: PostgreSQL's transactions and sessions, the connection pools, the HTTP
-- client of the OpenAI SDK, the JSON package, SHA-256, uuid.Parse, the struct validation, the clock
-- and the pauses, the stream of a caller, and golib's LoadEnv, server configurations and parsers.
-- Times and durations are nanoseconds, and a subtraction of times stops at 0 where an age below 0
-- passes the same tests as 0.
--
-- Fuel: the loop that writes a call's id takes 481 rounds, one for each pause of 250 ms in the two
-- minutes of patience and one more. A sweep takes its number of batches: each batch but the last
-- has at least one generation, so one more than the unsettled generations is enough.
--
-- Not modelled: a statement of another process inside a transaction (a commit is one step); the
-- deadlines of contexts (a call that runs out of time is a dependency that answers with an error),
-- spans and trace links; what overlapping checks of a sweep do to the rows they share with each
-- other's statements, beyond the sequences of statements of Dao.Steps; the texts of a cap's refusal
-- and the values of a request inside the texts of errors; rounding of times to PostgreSQL's
-- microseconds; sums of usage from 2^63 on, which the cast to bigint refuses; a variable that does
-- not parse, which stops the start; what the purge deletes; the HTTP transport of the connector
-- (healthCheckedClient, capResponse), which configures the SDK; the gRPC server's options and
-- interceptors, the wiring of the commands in cmd, the client in pkg/go, which dials and gives the
-- generated stubs, and the generated code, which are I/O and glue.
pub mod Prelude
pub mod Errors
pub mod Action
pub mod Connectors
pub mod Dao
pub mod Core
pub mod Handlers
pub mod Config
pub mod Commands
