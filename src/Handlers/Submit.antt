-- ===== src/Handlers/Submit.antt =====
-- `GrpcGenerationSubmit`: grpc.generationSubmit.go.
use service_genai.Prelude.{
  ℕ, ◌+◌, ◌*◌, String, Bool, Option, none, some, List, [], ◌∷◌, map, if◌then◌else◌, ltb,
}
use service_genai.Prelude.Int.{ℤ}
use service_genai.Errors.{
  Bytes, Limit, UsageCapError, wraps, invalid_request, usage_cap_reached, mode_unsupported,
}
use service_genai.Action.{Action, Res, ok, err}
use service_genai.Core.Generation.{payload_size_ceiling}
use service_genai.Core.Submit.Request.{GenerationCaps, GenerationCapWindow, GenerationSubmitRequest}
use service_genai.Core.Submit.Admit.{cap_error}
use service_genai.Core.Submit.Exec.{SubmitResult}
use service_genai.Handlers.{Code, Reply, answered, status, internal_error}
use service_genai.Handlers.Generation.{WireGeneration, new_grpc_generation}
use service_genai.Handlers.Read.{Ids}

-- `GrpcMaxReceiveBytes`
abbrev pub grpc_max_receive_bytes : ℕ
grpc_max_receive_bytes = payload_size_ceiling + 64 * 1024

pub record WireCapWindow : Type 0 where
  pub duration : ℕ
  pub input_tokens : Option ℤ
  pub output_tokens : Option ℤ

pub record WireCaps : Type 0 where
  pub concurrency : Option ℕ
  pub windows : List WireCapWindow

pub record WireSubmit : Type 0 where
  pub owner_id : String
  pub purpose : String
  pub provider : String
  pub payload : Bytes
  pub variant : ℕ
  pub stream : Bool
  pub caps : Option WireCaps

pub record WireSubmitted : Type 0 where
  pub generation : WireGeneration
  pub created : Bool

abbrev cap_window : WireCapWindow → GenerationCapWindow
cap_window w = record {
  duration = w.duration;
  input_tokens = w.input_tokens;
  output_tokens = w.output_tokens;
}

-- `newCoreGenerationCaps`
unfoldable pub new_core_generation_caps : Option WireCaps → Option GenerationCaps
new_core_generation_caps none = none
new_core_generation_caps (some caps) =
    some (record { concurrency = caps.concurrency; windows = map cap_window caps.windows })

-- The details of a refusal: a QuotaFailure, and a RetryInfo.
pub data Detail : Type 0 where
  quota_failure : String → Limit → Detail
  retry_info : ℕ → Detail

-- What the handler answers: a reply, or a refusal by a cap with its details.
pub data SubmitReply : Type 0 where
  plain : Reply WireSubmitted → SubmitReply
  detailed : Code → String → List Detail → SubmitReply

-- `newGrpcUsageCapStatus`, of a refusal with its message.
unfoldable pub new_grpc_usage_cap_status : String → UsageCapError → SubmitReply
new_grpc_usage_cap_status text refusal = detailed Code.resource_exhausted text (
    quota_failure refusal.purpose refusal.limit
    ∷ (if ltb 0 refusal.retry_after then retry_info refusal.retry_after ∷ [] else []))

-- What follows the service.
unfoldable pub submit_reply : Ids → Res SubmitResult → SubmitReply
submit_reply ids (ok r) = plain (
    answered
      (record { generation = new_grpc_generation ids.text r.generation; created = r.created }))
submit_reply ids (err e) =
    if wraps invalid_request e
    then plain (status Code.invalid_argument e.text)
    else elim e.refusal [
      | some refusal ↦ new_grpc_usage_cap_status (cap_error refusal).text refusal
      | none ↦
          if wraps usage_cap_reached e
          then plain (status Code.resource_exhausted e.text)
          else if wraps mode_unsupported e
          then plain (status Code.unimplemented "the provider does not support the requested mode")
          else plain (internal_error e)
    ]

abbrev submitted : {S : Type 0} → Ids → Res SubmitResult × S → SubmitReply × S
submitted ids (r, s) = (submit_reply ids r, s)

-- The request of the service; the bytes are those of the owner and of the texts.
unfoldable pub core_request :
    (ℕ → Bytes) → (String → Bytes) → WireSubmit → ℕ → GenerationSubmitRequest
core_request id_bytes text_bytes r owner = record {
  owner_id = owner;
  owner_bytes = id_bytes owner;
  purpose = r.purpose;
  purpose_bytes = text_bytes r.purpose;
  provider = r.provider;
  provider_bytes = text_bytes r.provider;
  payload = r.payload;
  variant = r.variant;
  stream = r.stream;
  caps = new_core_generation_caps r.caps;
}

-- `GenerationSubmit`
unfoldable pub generation_submit :
    {S : Type 0}
    → Ids
    → (ℕ → Bytes)
    → (String → Bytes)
    → (GenerationSubmitRequest → Action S SubmitResult)
    → WireSubmit
    → S
    → SubmitReply × S
generation_submit ids id_bytes text_bytes service r s = elim (ids.parse r.owner_id) [
  | none ↦ (plain (status Code.invalid_argument "invalid owner id"), s)
  | some owner ↦ submitted ids (service (core_request id_bytes text_bytes r owner) s)
]
