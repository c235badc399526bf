-- ===== src/Core/Check/Deps.antt =====
-- What a check is given: the interfaces that `NewGenerationCheck` takes, over any state `S`. The
-- state is that of the world outside: the database, the providers, the clock and the logs.
use service_genai.Prelude.{ℕ, Bool, Option}
use service_genai.Errors.{Err, Bytes}
use service_genai.Action.{Action}
use service_genai.Connectors.{Registry}
use service_genai.Dao.Rows.{Generation, GenerationAttempt, GenerationUsage}
use service_genai.Dao.Lifecycle.{GenerationSettleRequest, GenerationRecordProviderCallRequest}
use service_genai.Dao.Reads.{GenerationGetRequest}
use service_genai.Dao.Records.{GenerationAttemptInsertRequest, GenerationUsageInsertRequest}
use service_genai.Core.Check.Outcome.{Log}

-- The variables that the `accepted` callback of a start assigns.
pub record Captured : Type 0 where
  pub recorded : Option Generation
  pub record_err : Option Err

-- `now` is the process clock, and `wait` the select on a timer and the end of the context: false
-- when the context ended first. `within_tx` runs a function in a transaction: the result of the
-- function is what it assigned, which its caller reads only when the transaction returned no error. `St` is the type of the streaming connectors, which no check uses.
pub record CheckDeps (S St : Type 0) : Type 0 where
  pub dao_record : GenerationRecordProviderCallRequest → Action S Generation
  pub dao_settle : GenerationSettleRequest → Action S Generation
  pub dao_attempt : GenerationAttemptInsertRequest → Action S GenerationAttempt
  pub dao_usage : GenerationUsageInsertRequest → Action S GenerationUsage
  pub dao_get : GenerationGetRequest → Action S Generation
  pub registry : Registry S Captured St
  pub within_tx : Action S Generation → Action S Generation
  pub log : Log → S → S
  pub now : S → ℕ
  pub wait : ℕ → S → Bool × S
  pub retention : ℕ

-- `GenerationCheckStart`
pub record CheckStart : Type 0 where
  pub payload : Bytes
  pub intent_at : ℕ

-- `GenerationCheckRequest`
pub record CheckRequest : Type 0 where
  pub generation : Generation
  pub start : Option CheckStart
