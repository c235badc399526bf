-- ===== src/Core/Check/Commit.antt =====
-- `recordUsage`, `recordAttempt`, `commit`, `settle` and `settleFailure` of
-- internal/core/generationCheck.go.
use service_genai.Prelude.{
  ℕ, String, Bool, true, false, Option, none, some, if◌then◌else◌, get_or, str_eq,
}
use service_genai.Errors.{Bytes, wraps, usage_exists, prefixed}
use service_genai.Action.{Action, Res, ok, err, pure, ◌>>=◌, ◌>>◌}
use service_genai.Connectors.{Call, CallState, Usage, zero_call}
use service_genai.Dao.Rows.{
  Generation, GenerationAttempt, GenerationUsage, GenerationStatus, GenerationFailure, is_failed,
}
use service_genai.Dao.Lifecycle.{GenerationSettleRequest}
use service_genai.Dao.Records.{GenerationUsageInsertRequest}
use service_genai.Core.Check.Outcome.{settle_outcome_of, failure_log}
use service_genai.Core.Check.Deps.{CheckDeps}

-- `lo.EmptyableToPtr`
abbrev non_empty : String → Option String
non_empty t = if str_eq t "" then none else some t

-- The zero time that stands for a missing start is written 0.
unfoldable pub usage_request : Generation → Call → Usage → GenerationUsageInsertRequest
usage_request g call u = record {
  generation_id = g.id;
  owner_id = g.owner_id;
  purpose = g.purpose;
  provider = g.provider;
  model = call.model;
  class = call.class;
  tier = non_empty call.tier;
  input_tokens = u.input_tokens;
  cached_input_tokens = u.cached_input_tokens;
  cache_write_tokens = u.cache_write_tokens;
  output_tokens = u.output_tokens;
  reasoning_tokens = u.reasoning_tokens;
  started_at = get_or (get_or 0 g.start_requested_at) call.started_at;
  completed_at = call.completed_at;
}

abbrev is_outcome_unknown : Option GenerationFailure → Bool
is_outcome_unknown (some GenerationFailure.outcome_unknown) = true
is_outcome_unknown _ = false

unfoldable pub settle_request :
    ℕ
    → Generation
    → GenerationStatus
    → Option String
    → Option GenerationFailure
    → GenerationSettleRequest
settle_request retention g status message class = record {
  id = g.id;
  start_requested_at = g.start_requested_at;
  provider_call_id = g.provider_call_id;
  status = status;
  error = message;
  failure = class;
  retention = retention;
  outcome_unknown = is_outcome_unknown class;
}

abbrev pub is_call_failed : CallState → Bool
is_call_failed CallState.failed = true
is_call_failed _ = false

module _ {S St : Type 0} (d : CheckDeps S St) where
  abbrev usage_result : Res GenerationUsage × S → Res (Unit {0}) × S
  usage_result (ok row, s) = (ok tt, s)
  usage_result (err e, s) =
      (if wraps usage_exists e then ok tt else err (prefixed "record usage: " e), s)

  unfoldable pub record_usage : Generation → Call → Action S (Unit {0})
  record_usage g call s = elim call.usage [
    | none ↦ (ok tt, s)
    | some u ↦ usage_result (d.dao_usage (usage_request g call u) s)
  ]

  abbrev attempt_result : Res GenerationAttempt × S → Res (Unit {0}) × S
  attempt_result (ok row, s) = (ok tt, s)
  attempt_result (err e, s) = (err (prefixed "record attempt: " e), s)

  unfoldable pub record_attempt : Generation → Option Bytes → Action S (Unit {0})
  record_attempt g response s = elim response [
    | none ↦ (ok tt, s)
    | some body ↦
        attempt_result (d.dao_attempt (record { generation_id = g.id; response = body }) s)
  ]

  abbrev settle_result : Res Generation × S → Res Generation × S
  settle_result (ok g, s) = (ok g, s)
  settle_result (err e, s) = (err (prefixed "settle generation: " e), s)

  -- The function that `commit` runs in its transaction: the settle, the answer and the usage.
  unfoldable pub commit_tx : GenerationSettleRequest → Generation → Call → Action S Generation
  commit_tx request g call = do
    settled ← λ s. settle_result (d.dao_settle request s)
    record_attempt g call.response
    record_usage g call
    pure settled

  unfoldable pub commit :
      Generation
      → GenerationStatus
      → Option String
      → Option GenerationFailure
      → Call
      → Action S Generation
  commit g status message class call =
      d.within_tx (commit_tx (settle_request d.retention g status message class) g call)

  -- `settle`: the outcome of a terminal call. A failure of the call is the provider's.
  unfoldable pub settle : Generation → Call → Action S Generation
  settle g call s =
      let (status, message) = settle_outcome_of g call in
      if is_failed status
      then commit g status message (some GenerationFailure.provider_failed) call (
          d.log
            (failure_log g (if is_call_failed call.state then call.reason else get_or "" message))
            s)
      else commit g status message none call s

  unfoldable pub settle_failure :
      Generation → String → GenerationFailure → String → Option Bytes → Action S Generation
  settle_failure g message class cause response s =
      commit g GenerationStatus.failed (some message) (some class)
        (record zero_call { response = response }) (d.log (failure_log g cause) s)
