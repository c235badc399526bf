-- ===== src/Core/Cancel/Tests.antt =====
-- The theorems of a cancel at a concrete generation.
use service_genai.Prelude.{ℕ, ◌≡◌, refl, false, none, some, [], ◌∷◌}
use service_genai.Errors.{plain}
use service_genai.Action.{Action, ok, err}
use service_genai.Dao.Rows.{Generation, GenerationAttempt, GenerationStatus, Tables, checks}
use service_genai.Dao.Reads.{attempts_of, sort_by_attempt, insert_by_attempt}
use service_genai.Dao.Consistency.{IsConsistent}
use service_genai.Core.Generation.{new_generation}
use service_genai.Core.Check.Deps.{CheckRequest}
use service_genai.Core.Cancel.{exec}
use service_genai.Core.Cancel.Settled.{over_tables, exec-settled}

abbrev settled_row : Generation
settled_row = record {
  id = 1;
  owner_id = 7;
  purpose = "summary";
  provider = "openai";
  request_key = 10 ∷ 20 ∷ [];
  error = none;
  failure = none;
  status = GenerationStatus.succeeded;
  start_requested_at = some 50;
  provider_call_id = some "resp_1";
  cancel_requested_at = none;
  read_at = 0;
  traceparent = none;
  outcome_unknown_at = none;
  streamed = false;
  created_at = 50;
  updated_at = 90;
  settled_at = some 90;
  expires_at = some 190;
}

abbrev answered : ℕ → GenerationAttempt
answered n = record { generation_id = 1; attempt = n; response = 123 ∷ 125 ∷ []; created_at = 90 }

-- The second attempt stands before the first.
abbrev tables : Tables
tables = record {
  generations = settled_row ∷ [];
  attempts = answered 2 ∷ answered 1 ∷ [];
  usage = [];
  clock = 100;
}

settled-IsConsistent : IsConsistent tables
unfolding checks
settled-IsConsistent = record { checked = (refl, tt); ids = (refl, tt); keys = (refl, tt) }

abbrev check : CheckRequest → Action Tables Generation
check r t = (err (plain "not reached"), t)

exec-settled_example :
    exec (over_tables check 100) (record { id = 1; owner_id = 7 }) tables
    ≡ (ok (new_generation settled_row (answered 1 ∷ answered 2 ∷ [])), tables)
unfolding attempts_of sort_by_attempt insert_by_attempt
exec-settled_example =
    exec-settled check 100 (record { id = 1; owner_id = 7 }) tables settled_row settled-IsConsistent
      refl refl refl
