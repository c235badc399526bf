-- ===== src/Core/Usage.antt =====
-- `UsageSummary`, internal/core/usageSummary.go. Durations are in nanoseconds; the struct validation
-- refuses one that is not positive, so the model has none.
pub mod Windows
pub mod Room
mod Tests
use service_genai.Prelude.{
  ℕ, String, not, Option, none, some, List, [], ◌∷◌, if◌then◌else◌, any, str_eq,
}
use service_genai.Prelude.Int.{ℤ}
use service_genai.Errors.{Err, sentinel, plain, join, prefixed, invalid_request}
use service_genai.Action.{Action, Res, ok, err}
use service_genai.Dao.Reads.{
  GenerationCountLiveRequest, GenerationUsageSumRequest, GenerationUsageTotals,
}
use service_genai.Core.Submit.Admit.{unknown_outcome_hold}
use service_genai.Core.Submit.Exec.{invalid}

pub record UsageSummaryRequest : Type 0 where
  pub owner_id : ℕ
  pub purpose : String
  pub windows : List ℕ

pub record UsageSummaryWindow : Type 0 where
  pub duration : ℕ
  pub input_tokens : ℤ
  pub output_tokens : ℤ

pub record UsageSummaryResult : Type 0 where
  pub live : ℕ
  pub windows : List UsageSummaryWindow

-- What `NewUsageSummary` takes, with the struct validation.
pub record UsageDeps (S : Type 0) : Type 0 where
  pub dao_count_live : GenerationCountLiveRequest → Action S ℕ
  pub dao_usage_sum : GenerationUsageSumRequest → Action S (List GenerationUsageTotals)
  pub purposes : List String
  pub validate : UsageSummaryRequest → Option Err

-- The loop over the windows; a missing total panics.
unfoldable pub window_totals : List ℕ → List GenerationUsageTotals → Res (List UsageSummaryWindow)
window_totals [] used = ok []
window_totals (w ∷ ws) [] = err (plain "runtime error: index out of range")
window_totals (w ∷ ws) (u ∷ us) =
    let rest = window_totals ws us in
    elim rest [
      | err e ↦ err e
      | ok others ↦ ok (
          record { duration = w; input_tokens = u.input_tokens; output_tokens = u.output_tokens }
          ∷ others)
    ]

abbrev summary : ℕ → Res (List UsageSummaryWindow) → Res UsageSummaryResult
summary live (ok windows) = ok (record { live = live; windows = windows })
summary live (err e) = err e

module _ {S : Type 0} (d : UsageDeps S) where
  abbrev summed : ℕ → List ℕ → Res (List GenerationUsageTotals) × S → Res UsageSummaryResult × S
  summed live windows (err e, s) = (err (prefixed "sum usage: " e), s)
  summed live windows (ok used, s) = (summary live (window_totals windows used), s)

  abbrev counted : UsageSummaryRequest → Res ℕ × S → Res UsageSummaryResult × S
  counted r (err e, s) = (err (prefixed "count live generations: " e), s)
  counted r (ok live, s) = elim r.windows [
    | [] ↦ (ok (record { live = live; windows = [] }), s)
    | w ∷ ws ↦ summed live (w ∷ ws) (
        d.dao_usage_sum (record { owner_id = r.owner_id; purpose = r.purpose; windows = w ∷ ws }) s)
  ]

  unfoldable pub exec : UsageSummaryRequest → Action S UsageSummaryResult
  exec r s = elim (d.validate r) [
    | some e ↦ (err (join "\n" e (sentinel "invalid request" invalid_request)), s)
    | none ↦
        if not (any (λ p. str_eq p r.purpose) d.purposes)
        then (err (invalid "purpose is not declared"), s)
        else counted r (
            d.dao_count_live
              (record {
                owner_id = r.owner_id;
                purpose = r.purpose;
                unknown_outcome_window = unknown_outcome_hold;
              })
              s)
  ]
