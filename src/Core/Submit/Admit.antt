-- ===== src/Core/Submit/Admit.antt =====
-- `admit`, `windowRefusal` and `reached` of internal/core/generationSubmit.go.
use service_genai.Prelude.{
  ℕ, ◌+◌, ◌-◌, String, Bool, false, Option, none, some, List, [], ◌∷◌, map, if◌then◌else◌, ltb, leb,
}
use service_genai.Prelude.Int.{ℤ, leb_ℤ}
use service_genai.Errors.{
  Err, Limit, UsageCapError, concurrency, input_tokens, output_tokens, usage_cap_reached, plain,
  prefixed,
}
use service_genai.Action.{Action, Res, ok, err}
use service_genai.Dao.Reads.{GenerationUsageTotals}
use service_genai.Core.Submit.Request.{
  GenerationCapWindow, GenerationCaps, GenerationSubmitRequest, SubmitDeps,
}

-- `config.UnknownOutcomeHold`: 15 minutes.
abbrev pub unknown_outcome_hold : ℕ
unknown_outcome_hold = 900000000000

-- A `UsageCapError`, which wraps `ErrUsageCapReached`.
abbrev pub cap_error : UsageCapError → Err
cap_error refusal = record {
  text = "usage cap reached";
  sentinels = usage_cap_reached ∷ [];
  rejection = none;
  refusal = some refusal;
}

-- `reached`
unfoldable pub reached : Option ℤ → ℤ → Bool
reached none used = false
reached (some limit) used = leb_ℤ limit used

-- The tokens that refuse, input first.
unfoldable pub refusing : GenerationCapWindow → GenerationUsageTotals → Option Limit
refusing w used =
    if reached w.input_tokens used.input_tokens
    then some (input_tokens w.duration)
    else if reached w.output_tokens used.output_tokens
    then some (output_tokens w.duration)
    else none

-- The window frees usage once its oldest record leaves it.
unfoldable pub retry_after : ℕ → ℕ → Option ℕ → ℕ
retry_after now duration none = 0
retry_after now duration (some oldest) = oldest + duration - now

-- `windowRefusal`
unfoldable pub window_refusal :
    ℕ → String → GenerationCapWindow → GenerationUsageTotals → Option UsageCapError
window_refusal now purpose w used = elim (refusing w used) [
  | none ↦ none
  | some limit ↦ some (record {
    purpose = purpose;
    limit = limit;
    retry_after = retry_after now w.duration used.oldest_at;
  })
]

-- `slices.SortedFunc` by duration. The struct validation refuses two windows of one duration.
unfoldable pub insert_window :
    GenerationCapWindow → List GenerationCapWindow → List GenerationCapWindow
insert_window w [] = w ∷ []
insert_window w (v ∷ vs) = if leb w.duration v.duration then w ∷ v ∷ vs else v ∷ insert_window w vs

unfoldable pub sort_windows : List GenerationCapWindow → List GenerationCapWindow
sort_windows [] = []
sort_windows (w ∷ ws) = insert_window w (sort_windows ws)

-- The loop over the windows and their totals; a missing total panics.
unfoldable pub first_refusal :
    ℕ → String → List GenerationCapWindow → List GenerationUsageTotals → Res (Unit {0})
first_refusal now purpose [] used = ok tt
first_refusal now purpose (w ∷ ws) [] = err (plain "runtime error: index out of range")
first_refusal now purpose (w ∷ ws) (u ∷ us) =
    let rest = first_refusal now purpose ws us in
    elim (window_refusal now purpose w u) [ some refusal ↦ err (cap_error refusal) | none ↦ rest ]

abbrev no_caps : GenerationCaps
no_caps = record { concurrency = none; windows = [] }

-- `lo.FromPtr(request.Caps)`
abbrev pub caps_of : Option GenerationCaps → GenerationCaps
caps_of none = no_caps
caps_of (some caps) = caps

module _ {S St : Type 0} (d : SubmitDeps S St) where
  abbrev live_result : String → ℕ → Res ℕ × S → Res (Unit {0}) × S
  live_result purpose cap (err e, s) = (err (prefixed "count live generations: " e), s)
  -- The count includes the generation that this submit just created.
  live_result purpose cap (ok live, s) = (
    if ltb cap live
        then err (
            cap_error
              (record { purpose = purpose; limit = concurrency cap (live - 1); retry_after = 0 }))
        else ok tt,
    s,
  )

  unfoldable pub admit_concurrency : GenerationSubmitRequest → Action S (Unit {0})
  admit_concurrency r s = elim (caps_of r.caps).concurrency [
    | none ↦ (ok tt, s)
    | some cap ↦ live_result r.purpose cap (
        d.dao_count_live
          (record {
            owner_id = r.owner_id;
            purpose = r.purpose;
            unknown_outcome_window = unknown_outcome_hold;
          })
          s)
  ]

  abbrev duration_of : GenerationCapWindow → ℕ
  duration_of w = w.duration

  abbrev windows_result :
      String → List GenerationCapWindow → Res (List GenerationUsageTotals) × S → Res (Unit {0}) × S
  windows_result purpose windows (err e, s) = (err (prefixed "sum usage: " e), s)
  windows_result purpose windows (ok used, s) = (first_refusal (d.now s) purpose windows used, s)

  abbrev sum_windows : GenerationSubmitRequest → List GenerationCapWindow → Action S (Unit {0})
  sum_windows r windows s = windows_result r.purpose windows (
      d.dao_usage_sum
        (record { owner_id = r.owner_id; purpose = r.purpose; windows = map duration_of windows })
        s)

  unfoldable pub admit_windows : GenerationSubmitRequest → Action S (Unit {0})
  admit_windows r s = elim (caps_of r.caps).windows [
    | [] ↦ (ok tt, s)
    | w ∷ ws ↦ sum_windows r (sort_windows (w ∷ ws)) s
  ]

  -- `admit`
  unfoldable pub admit : GenerationSubmitRequest → Action S (Unit {0})
  admit r s =
      let (counted, s') = admit_concurrency r s in
      elim counted [ err e ↦ (err e, s') | ok u ↦ admit_windows r s' ]
