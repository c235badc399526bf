-- ===== src/Core/Check/Outcome.antt =====
-- The constants and the pure functions of internal/core/generationCheck.go. Durations are in
-- nanoseconds.
use service_genai.Prelude.{ℕ, ◌*◌, ◌+◌, String, Option, none, some, if◌then◌else◌, str_eq}
use service_genai.Connectors.{Call, CallState}
use service_genai.Dao.Rows.{Generation, GenerationStatus}

abbrev pub second : ℕ
second = 1000000000

abbrev pub minute : ℕ
minute = 60 * second

abbrev pub start_timeout : ℕ
start_timeout = 20 * second

abbrev pub persistence_timeout : ℕ
persistence_timeout = 4 * second

abbrev pub stream_start_timeout : ℕ
stream_start_timeout = 30 * second

abbrev pub stream_queued_ceiling : ℕ
stream_queued_ceiling = 5 * minute

abbrev pub record_patience : ℕ
record_patience = 2 * minute

abbrev pub record_pause : ℕ
record_pause = 250000000

abbrev pub record_pause_ceiling : ℕ
record_pause_ceiling = 5 * second

abbrev pub start_outcome_unknown_after : ℕ
start_outcome_unknown_after = 3 * minute

abbrev pub check_timeout : ℕ
check_timeout = minute

abbrev pub start_check_timeout : ℕ
start_check_timeout = record_patience + check_timeout

abbrev pub stop_retry_window : ℕ
stop_retry_window = 10 * minute

abbrev pub run_ceiling : ℕ
run_ceiling = 120 * minute

abbrev pub generation_cancelled_reason : String
generation_cancelled_reason = "generation cancelled"

abbrev pub failure_outcome_unknown : String
failure_outcome_unknown = "the provider may have accepted the call, but its outcome is unknown"

abbrev pub failure_result_lost : String
failure_result_lost = "the provider no longer holds the result"

abbrev pub failure_start_failed : String
failure_start_failed = "the provider call could not be started"

abbrev pub failure_call_failed : String
failure_call_failed = "the provider failed the call"

abbrev pub failure_rejected : String
failure_rejected = "the provider rejected the request"

abbrev pub failure_provider_unavailable : String
failure_provider_unavailable = "no connector serves the generation's provider"

abbrev pub failure_overdue : String
failure_overdue = "the provider did not finish the call in time, so it was stopped"

abbrev pub failure_not_stopped : String
failure_not_stopped = "the call could not be stopped, and the provider may still run it"

abbrev pub failure_response_too_large : String
failure_response_too_large = "the provider's response is larger than the 24 MiB this service reads"

abbrev pub failure_not_recorded : String
failure_not_recorded = "the provider's answer could not be recorded"

-- A server log line: a failure with its reason, or the failed stop of an orphaned call.
pub data Log : Type 0 where
  failure : ℕ → String → Log
  orphan : ℕ → String → String → Log

-- `failureLog`
unfoldable pub failure_log : Generation → String → Log
failure_log g reason =
    Log.failure g.id (if str_eq reason "" then "provider returned no failure reason" else reason)

abbrev cancelled_outcome : Option ℕ → GenerationStatus × Option String
cancelled_outcome none = (GenerationStatus.failed, some failure_overdue)
cancelled_outcome (some at) = (GenerationStatus.cancelled, some generation_cancelled_reason)

abbrev outcome : CallState → Generation → GenerationStatus × Option String
outcome CallState.succeeded g = (GenerationStatus.succeeded, none)
outcome CallState.cancelled g = cancelled_outcome g.cancel_requested_at
outcome _ g = (GenerationStatus.failed, some failure_call_failed)

-- `settleOutcomeOf`
unfoldable pub settle_outcome_of : Generation → Call → GenerationStatus × Option String
settle_outcome_of g call = outcome call.state g

-- The text of a `CallState`.
abbrev pub state_name : CallState → String
state_name CallState.queued = "queued"
state_name CallState.running = "running"
state_name CallState.succeeded = "succeeded"
state_name CallState.failed = "failed"
state_name CallState.cancelled = "cancelled"
state_name CallState.other = ""
