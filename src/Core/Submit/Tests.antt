-- ===== src/Core/Submit/Tests.antt =====
-- The theorems of a submit at concrete requests and windows.
use service_genai.Errors.{Err, Limit, wraps}
use service_genai.Action.{ok, err}
use service_genai.Dao.Rows.{Generation, GenerationAttempt, GenerationStatus, Tables, checks}
use service_genai.Dao.Submit.{submit, submit_statement, new_row}
use service_genai.Dao.Reads.{count_live, counts_live}
use service_genai.Core.Submit.Admit.{cap_error, admit, admit_concurrency}
use service_genai.Core.Submit.Exec.{submission, submit_tx, exec_keyed}
use service_genai.Core.Submit.Admission.{AllOrNothing, exec_keyed-AllOrNothing, exec_keyed-refused}
use service_genai.Prelude.{ℕ, ◌⊎◌, ◌≡◌, refl, none, some, [], ◌∷◌, arith}
use service_genai.Prelude.Int.{pos}
use service_genai.Errors.{Bytes}
use service_genai.Dao.Reads.{GenerationUsageTotals}
use service_genai.Core.Submit.Request.{GenerationCapWindow, GenerationSubmitRequest}
use service_genai.Core.Submit.Key.{fields}
use service_genai.Core.Submit.Admit.{first_refusal}
use service_genai.Core.Submit.Identity.{IsSized, key_bytes_identify}
use service_genai.Core.Submit.Limits.{Judged, first_refusal-Judged}
use service_genai.Core.Check.Scenario.{running_row}
use service_genai.Core.Submit.Replay.{recorded_over, replayed, exec_keyed-replays}
use service_genai.Core.Submit.Scenario.{request, no_rows, submit_deps, rolled_back-Ends}

abbrev capped : GenerationSubmitRequest
capped = record request { caps = some (record { concurrency = some 1; windows = [] }) }

abbrev payload : Bytes
payload = 123 ∷ 125 ∷ []

request-IsSized : IsSized request payload
request-IsSized = record {
  owner = omega arith;
  purpose = omega arith;
  provider = omega arith;
  payload_fits = omega arith;
  variant = omega arith;
}

capped-IsSized : IsSized capped payload
capped-IsSized = record {
  owner = omega arith;
  purpose = omega arith;
  provider = omega arith;
  payload_fits = omega arith;
  variant = omega arith;
}

key_bytes_identify_example :
    (request.owner_bytes ≡ capped.owner_bytes)
    × (request.purpose_bytes ≡ capped.purpose_bytes)
    × (request.provider_bytes ≡ capped.provider_bytes)
    × (request.stream ≡ capped.stream)
    × (payload ≡ payload)
    × (request.variant ≡ capped.variant)
unfolding fields
key_bytes_identify_example =
    key_bytes_identify request capped payload payload request-IsSized capped-IsSized refl

-- A day of 1,000 input tokens, and an hour of 100 output tokens.
abbrev day : GenerationCapWindow
day = record { duration = 86400000000000; input_tokens = some (pos 1000); output_tokens = none }

abbrev hour : GenerationCapWindow
hour = record { duration = 3600000000000; input_tokens = none; output_tokens = some (pos 100) }

abbrev used : GenerationUsageTotals
used = record { input_tokens = pos 1000; output_tokens = pos 20; oldest_at = some 50 }

first_refusal-Judged_example :
    Judged 100 "summary"
      (hour ∷ day ∷ [])
      (used ∷ used ∷ [])
      (first_refusal 100 "summary" (hour ∷ day ∷ []) (used ∷ used ∷ []))
first_refusal-Judged_example =
    first_refusal-Judged 100 "summary" (hour ∷ day ∷ []) (used ∷ used ∷ [])

exec_keyed-AllOrNothing_example :
    AllOrNothing submit_deps
      (λ f t. rolled_back-Ends (f t) t)
      request
      (submission submit_deps request 1 (1 ∷ []) none)
      100
      no_rows
      (exec_keyed submit_deps request (1 ∷ []) no_rows)
exec_keyed-AllOrNothing_example =
    exec_keyed-AllOrNothing submit_deps (λ f t. rolled_back-Ends (f t) t) request (1 ∷ []) no_rows

-- A request whose concurrency is none.
abbrev stopped : GenerationSubmitRequest
stopped = record request { caps = some (record { concurrency = some 0; windows = [] }) }

abbrev full : Err
full = cap_error (record { purpose = "ab"; limit = Limit.concurrency 0 0; retry_after = 0 })

exec_keyed-refused_example : exec_keyed submit_deps stopped (1 ∷ []) no_rows ≡ (err full, no_rows)
unfolding submit_tx submission submit submit_statement new_row checks admit admit_concurrency
    count_live counts_live wraps
exec_keyed-refused_example =
    exec_keyed-refused submit_deps (λ f t. rolled_back-Ends (f t) t) stopped (1 ∷ []) no_rows
      (submit_tx submit_deps stopped (submission submit_deps stopped 1 (1 ∷ []) none) no_rows).1
      full refl refl

-- The generation of an earlier submit has settled. Its second attempt stands before its first.
abbrev held_row : Generation
held_row = record running_row {
  id = 5;
  request_key = 1 ∷ [];
  status = GenerationStatus.succeeded;
  settled_at = some 90;
  expires_at = some 190;
}

abbrev answered : ℕ → GenerationAttempt
answered n = record { generation_id = 5; attempt = n; response = 123 ∷ 125 ∷ []; created_at = 90 }

abbrev held_tables : Tables
held_tables = record no_rows {
  generations = held_row ∷ [];
  attempts = answered 2 ∷ answered 1 ∷ [];
}

exec_keyed-replays_example :
    (exec_keyed (recorded_over submit_deps) request (1 ∷ []) held_tables
      ≡ (ok (replayed held_row held_tables), held_tables))
    ⊎ ((e : Err) × (exec_keyed (recorded_over submit_deps) request (1 ∷ []) held_tables
          ≡ (err e, held_tables)))
unfolding checks new_row submission
exec_keyed-replays_example =
    exec_keyed-replays submit_deps request (λ f t. rolled_back-Ends (f t) t) (1 ∷ []) 1 held_tables
      held_row refl refl refl refl
