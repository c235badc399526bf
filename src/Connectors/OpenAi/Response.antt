-- ===== src/Connectors/OpenAi/Response.antt =====
-- `providerCallOf` of openai.go: a call, read off an object of the Responses API.
use service_genai.Prelude.{ℕ, String, Option, none, some, if◌then◌else◌, ltb, str_eq}
use service_genai.Errors.{Bytes, prefixed}
use service_genai.Action.{Res, ok, err}
use service_genai.Connectors.{Call, CallState, Usage, zero_call, terminal}

-- `responses.ResponseStatus`; `unknown` is any other text.
pub data ResponseStatus : Type 0 where
  completed incomplete failed cancelled queued in_progress unknown : ResponseStatus

-- `openAIResponse`, with its times in nanoseconds and `total_tokens` by its presence. A time that is
-- not positive is 0.
pub record OpenAiResponse : Type 0 where
  pub id : String
  pub status : ResponseStatus
  pub error_message : String
  pub model : String
  pub effort : String
  pub service_tier : String
  pub created_at : ℕ
  pub completed_at : Option ℕ
  pub usage : Usage
  pub total_tokens : Option ℕ

abbrev pub state_of : ResponseStatus → CallState
state_of ResponseStatus.completed = CallState.succeeded
state_of ResponseStatus.incomplete = CallState.succeeded
state_of ResponseStatus.failed = CallState.failed
state_of ResponseStatus.cancelled = CallState.cancelled
state_of ResponseStatus.queued = CallState.queued
state_of _ = CallState.running

abbrev reason_of : ResponseStatus → String → String
reason_of ResponseStatus.failed message = message
reason_of _ message = ""

-- A time that the provider reports, when it is positive.
abbrev reported : ℕ → Option ℕ
reported t = if ltb 0 t then some t else none

abbrev reported_end : Option ℕ → Option ℕ
reported_end none = none
reported_end (some t) = reported t

abbrev usage_of : Option ℕ → Usage → Option Usage
usage_of none u = none
usage_of (some n) u = some u

-- `cmp.Or(effort, "none")`: a model that does not reason reports no effort.
unfoldable pub class_of : String → String
class_of effort = if str_eq effort "" then "none" else effort

-- The call of a decoded response.
unfoldable pub call_of : Bytes → OpenAiResponse → Call
call_of raw r =
    let call : Call = record zero_call {
      id = r.id;
      state = state_of r.status;
      reason = reason_of r.status r.error_message;
    } in
    if terminal call.state
    then record call {
      response = some raw;
      model = r.model;
      class = class_of r.effort;
      tier = r.service_tier;
      started_at = reported r.created_at;
      completed_at = reported_end r.completed_at;
      usage = usage_of r.total_tokens r.usage;
    }
    else call

-- `providerCallOf`, with the JSON decoder.
unfoldable pub provider_call_of : (Bytes → Res OpenAiResponse) → Bytes → Res Call
provider_call_of decode raw = elim (decode raw) [
  | err e ↦ err (prefixed "decode response: " e)
  | ok r ↦ ok (call_of raw r)
]
