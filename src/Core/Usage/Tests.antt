-- ===== src/Core/Usage/Tests.antt =====
-- The summary and the admission at concrete tables.
use service_genai.Prelude.{◌≡◌, refl, none, some, [], ◌∷◌, true}
use service_genai.Prelude.Int.{pos}
use service_genai.Dao.Rows.{checks}
use service_genai.Dao.Submit.{new_row}
use service_genai.Dao.Reads.{count_live, counts_live, usage_sum, totals}
use service_genai.Core.Submit.Request.{GenerationSubmitRequest}
use service_genai.Core.Submit.Exec.{submission, submit_tx}
use service_genai.Core.Submit.Scenario.{request, no_rows, submit_deps}
use service_genai.Core.Usage.{exec, window_totals}
use service_genai.Core.Usage.Windows.{is_ok}
use service_genai.Core.Usage.Room.{counted_over, submit_tx-summary}

-- One generation at a time, and a day of 1,000 input tokens.
abbrev capped : GenerationSubmitRequest
capped = record request {
  caps = some (record {
    concurrency = some 1;
    windows =
        record { duration = 86400000000000; input_tokens = some (pos 1000); output_tokens = none }
        ∷ [];
  });
}

submit_tx-summary_example :
    is_ok
      (submit_tx
        (counted_over submit_deps)
        capped
        (submission (counted_over submit_deps) capped 1 (1 ∷ []) none)
        no_rows).0.1
    ≡ true
unfolding checks new_row submission exec count_live counts_live usage_sum window_totals totals
submit_tx-summary_example =
    submit_tx-summary submit_deps capped 1 (1 ∷ []) none ("ab" ∷ []) (λ q. none) no_rows no_rows
      (record {
        live = 0;
        windows =
            record { duration = 86400000000000; input_tokens = pos 0; output_tokens = pos 0 } ∷ [];
      })
      refl refl refl refl
