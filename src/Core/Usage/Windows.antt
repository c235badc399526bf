-- ===== src/Core/Usage/Windows.antt =====
-- The windows of a summary and of an admission, over the same totals.
use service_genai.Prelude.{
  ℕ, ◌≡◌, refl, ap, ◌∙◌, String, Bool, true, false, not, ◌&&◌, Option, none, some, List, [], ◌∷◌,
  map, arith, ltb,
}
use service_genai.Prelude.Int.{ℤ, leb_ℤ}
use service_genai.Action.{Res, ok, err}
use service_genai.Dao.Reads.{GenerationUsageTotals}
use service_genai.Core.Submit.Request.{GenerationCapWindow}
use service_genai.Core.Submit.Admit.{
  reached, refusing, window_refusal, first_refusal, insert_window, sort_windows,
}
use service_genai.Core.Usage.{UsageSummaryWindow, window_totals}

-- What a caller tests: one more generation in flight, and tokens left in every window.
abbrev pub one_more_fits : Option ℕ → ℕ → Bool
one_more_fits none live = true
one_more_fits (some cap) live = ltb live cap

abbrev pub below : Option ℤ → ℤ → Bool
below none used = true
below (some limit) used = not (leb_ℤ limit used)

abbrev pub all_below : List GenerationCapWindow → List UsageSummaryWindow → Bool
all_below (w ∷ ws) (u ∷ us) =
    below w.input_tokens u.input_tokens && below w.output_tokens u.output_tokens && all_below ws us
all_below _ _ = true

abbrev pub durations : List GenerationCapWindow → List ℕ
durations = map (λ w. w.duration)

abbrev pub is_ok : {A : Type 0} → Res A → Bool
is_ok (ok a) = true
is_ok (err e) = false

module _ (total : ℕ → GenerationUsageTotals) where
  abbrev pub roomy : GenerationCapWindow → Bool
  roomy w =
      below w.input_tokens (total w.duration).input_tokens
      && below w.output_tokens (total w.duration).output_tokens

  abbrev pub all_roomy : List GenerationCapWindow → Bool
  all_roomy [] = true
  all_roomy (w ∷ ws) = roomy w && all_roomy ws

  pub first_refusal-all_roomy :
      (now : ℕ) (purpose : String) (ws : List GenerationCapWindow)
      → is_ok (first_refusal now purpose ws (map total (durations ws))) ≡ all_roomy ws
  unfolding first_refusal window_refusal refusing reached
  first_refusal-all_roomy now purpose [] = refl
  first_refusal-all_roomy now purpose (w ∷ ws) =
      ground (arith, first_refusal-all_roomy now purpose ws)

  all_roomy-insert_window :
      (w : GenerationCapWindow) (ws : List GenerationCapWindow)
      → all_roomy (insert_window w ws) ≡ all_roomy (w ∷ ws)
  unfolding insert_window
  all_roomy-insert_window w [] = refl
  all_roomy-insert_window w (v ∷ vs) = ground (arith, all_roomy-insert_window w vs)

  pub all_roomy-sort_windows :
      (ws : List GenerationCapWindow) → all_roomy (sort_windows ws) ≡ all_roomy ws
  unfolding sort_windows
  all_roomy-sort_windows [] = refl
  all_roomy-sort_windows (w ∷ ws) =
      all_roomy-insert_window w (sort_windows ws)
      ∙ ap (λ b. roomy w && b) (all_roomy-sort_windows ws)

  abbrev pub reported : List GenerationCapWindow → List UsageSummaryWindow
  reported [] = []
  reported (w ∷ ws) =
      record {
        duration = w.duration;
        input_tokens = (total w.duration).input_tokens;
        output_tokens = (total w.duration).output_tokens;
      }
      ∷ reported ws

  pub window_totals-reported :
      (ws : List GenerationCapWindow)
      → window_totals (durations ws) (map total (durations ws)) ≡ ok (reported ws)
  unfolding window_totals
  window_totals-reported [] = refl
  window_totals-reported (w ∷ ws) = ground (arith, window_totals-reported ws)

  pub all_below-reported :
      (ws : List GenerationCapWindow) → all_below ws (reported ws) ≡ all_roomy ws
  all_below-reported [] = refl
  all_below-reported (w ∷ ws) = ground (arith, all_below-reported ws)
