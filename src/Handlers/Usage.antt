-- ===== src/Handlers/Usage.antt =====
-- `GrpcUsageSummary`: grpc.usageSummary.go.
use service_genai.Prelude.{ℕ, String, none, some, List, map, if◌then◌else◌}
use service_genai.Prelude.Int.{ℤ}
use service_genai.Errors.{wraps, invalid_request}
use service_genai.Action.{Action, Res, ok, err}
use service_genai.Core.Usage.{UsageSummaryRequest, UsageSummaryResult, UsageSummaryWindow}
use service_genai.Handlers.{Code, Reply, answered, status, internal_error}
use service_genai.Handlers.Read.{Ids}

-- `UsageSummaryResponse` and its windows.
pub record WireWindow : Type 0 where
  pub duration : ℕ
  pub input_tokens : ℤ
  pub output_tokens : ℤ

pub record WireSummary : Type 0 where
  pub live : ℕ
  pub windows : List WireWindow

abbrev wire_window : UsageSummaryWindow → WireWindow
wire_window w = record {
  duration = w.duration;
  input_tokens = w.input_tokens;
  output_tokens = w.output_tokens;
}

unfoldable pub summary_reply : Res UsageSummaryResult → Reply WireSummary
summary_reply (ok r) = answered (record { live = r.live; windows = map wire_window r.windows })
summary_reply (err e) =
    if wraps invalid_request e then status Code.invalid_argument e.text else internal_error e

abbrev summarized : {S : Type 0} → Res UsageSummaryResult × S → Reply WireSummary × S
summarized (r, s) = (summary_reply r, s)

-- `UsageSummary`
unfoldable pub usage_summary :
    {S : Type 0}
    → Ids
    → (UsageSummaryRequest → Action S UsageSummaryResult)
    → String
    → String
    → List ℕ
    → S
    → Reply WireSummary × S
usage_summary ids service owner_id purpose windows s = elim (ids.parse owner_id) [
  | none ↦ (status Code.invalid_argument "invalid owner id", s)
  | some owner ↦
      summarized (service (record { owner_id = owner; purpose = purpose; windows = windows }) s)
]
