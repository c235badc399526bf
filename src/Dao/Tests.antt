-- ===== src/Dao/Tests.antt =====
-- The theorems of internal/dao at concrete tables.
use service_genai.Prelude.{◌≡◌, ◌≢◌, refl, true, false, none, some, List, [], ◌∷◌, arith, ℕ}
use service_genai.Errors.{wraps, generation_changed}
use service_genai.Action.{ok}
use service_genai.Dao.Rows.{Generation, GenerationAttempt, GenerationStatus, Tables, checks}
use service_genai.Dao.Lifecycle.{GenerationSettleRequest, settle, settle_set}
use service_genai.Dao.Submit.{GenerationSubmitRequest, submit}
use service_genai.Dao.Consistency.{IsConsistent, row_of}
use service_genai.Dao.Steps.{
  Reach, Reach-IsConsistent, Reach-keeps_settled, settling, submitting, metering, here, next,
}
use service_genai.Prelude.Int.{pos}
use service_genai.Dao.Records.{GenerationUsageInsertRequest, usage_insert, usage_row}
use service_genai.Dao.Recorded.{IsRecorded, usage_rows, Reach-meters_once}
use service_genai.Dao.History.Moves.{IsLater}
use service_genai.Dao.History.{Reach-IsLater}
use service_genai.Dao.Reads.{attempt_list, attempts_of, sort_by_attempt, insert_by_attempt}
use service_genai.Dao.Listing.{IsListing, attempt_list-IsListing}
use service_genai.Dao.Fencing.{Refuses, settle_fenced, settle_applies}

abbrev running_row : Generation
running_row = record {
  id = 1;
  owner_id = 7;
  purpose = "summary";
  provider = "openai";
  request_key = 10 ∷ 20 ∷ [];
  error = none;
  failure = none;
  status = GenerationStatus.running;
  start_requested_at = some 50;
  provider_call_id = some "resp_1";
  cancel_requested_at = none;
  read_at = 0;
  traceparent = none;
  outcome_unknown_at = none;
  streamed = false;
  created_at = 50;
  updated_at = 60;
  settled_at = none;
  expires_at = none;
}

abbrev settled_row : Generation
settled_row = record running_row {
  status = GenerationStatus.succeeded;
  settled_at = some 90;
  expires_at = some 190;
}

abbrev failed_row : Generation
failed_row = record settled_row { status = GenerationStatus.failed; error = some "it failed" }

abbrev tables : Generation → Tables
tables g = record { generations = g ∷ []; attempts = []; usage = []; clock = 100 }

abbrev settle_request : GenerationSettleRequest
settle_request = record {
  id = 1;
  start_requested_at = some 50;
  provider_call_id = some "resp_1";
  status = GenerationStatus.succeeded;
  error = none;
  failure = none;
  retention = 100;
  outcome_unknown = false;
}

-- A check that read the row before its call was recorded.
abbrev stale_request : GenerationSettleRequest
stale_request = record settle_request { provider_call_id = none }

abbrev submit_request : GenerationSubmitRequest
submit_request = record {
  id = 2;
  owner_id = 7;
  purpose = "summary";
  provider = "openai";
  request_key = 10 ∷ 20 ∷ [];
  traceparent = none;
  streamed = false;
}

running-IsConsistent : IsConsistent (tables running_row)
unfolding checks
running-IsConsistent = record { checked = (refl, tt); ids = (refl, tt); keys = (refl, tt) }

failed-IsConsistent : IsConsistent (tables failed_row)
unfolding checks
failed-IsConsistent = record { checked = (refl, tt); ids = (refl, tt); keys = (refl, tt) }

-- A settle, and a resend of the settled request.
abbrev settled_tables : Tables
settled_tables = (settle settle_request (tables running_row)).1

abbrev resent : Reach (tables running_row) (submit submit_request settled_tables).1
resent =
    next (next here (settling settle_request (tables running_row)))
      (submitting submit_request settled_tables)

Reach-IsConsistent_example : IsConsistent (submit submit_request settled_tables).1
Reach-IsConsistent_example = Reach-IsConsistent resent running-IsConsistent

Reach-keeps_settled_example :
    row_of 1 (settle settle_request (tables settled_row)).1.generations ≡ some settled_row
Reach-keeps_settled_example =
    Reach-keeps_settled 1 settled_row (next here (settling settle_request (tables settled_row)))
      refl refl

settle_fenced_example :
    Refuses
      (settle stale_request (tables running_row))
      (λ e. wraps generation_changed e ≡ true)
      (tables running_row)
settle_fenced_example =
    settle_fenced stale_request (tables running_row) running_row running-IsConsistent refl refl

settle_applies_example :
    ((settle settle_request (tables running_row)).0
      ≡ ok (settle_set settle_request 100 running_row))
    × (row_of 1 (settle settle_request (tables running_row)).1.generations
        ≡ some (settle_set settle_request 100 running_row))
    × ((other : ℕ)
        → other ≢ 1
        → row_of other (settle settle_request (tables running_row)).1.generations
          ≡ row_of other (running_row ∷ []))
unfolding checks settle_set
settle_applies_example =
    settle_applies settle_request (tables running_row) running_row refl refl refl

Reach-IsLater_example :
    (h : Generation) × (row_of 1 (submit submit_request settled_tables).1.generations ≡ some h)
    × IsLater running_row h
Reach-IsLater_example = Reach-IsLater 1 running_row resent running-IsConsistent refl

-- The usage of the call, and the tables once it is recorded.
abbrev usage_insert_request : GenerationUsageInsertRequest
usage_insert_request = record {
  generation_id = 1;
  owner_id = 7;
  purpose = "summary";
  provider = "openai";
  model = "m";
  class = "default";
  tier = none;
  input_tokens = pos 10;
  cached_input_tokens = pos 0;
  cache_write_tokens = pos 0;
  output_tokens = pos 5;
  reasoning_tokens = pos 0;
  started_at = 50;
  completed_at = some 90;
}

abbrev metered : Tables
metered = record (tables running_row) { usage = usage_row usage_insert_request 100 ∷ [] }

metered-IsRecorded : IsRecorded metered
metered-IsRecorded = record {
  usage = record { firsts = (refl, tt); once = λ id. ground arith };
  answers = record { firsts = tt; once = λ id. ground arith };
}

Reach-meters_once_example :
    IsRecorded (usage_insert usage_insert_request metered).1
    × (usage_rows 1 (usage_insert usage_insert_request metered).1.usage
        ≡ usage_row usage_insert_request 100 ∷ [])
Reach-meters_once_example =
    Reach-meters_once 1 (usage_row usage_insert_request 100)
      (next here (metering usage_insert_request metered)) metered-IsRecorded refl

abbrev answered : ℕ → GenerationAttempt
answered n = record { generation_id = 1; attempt = n; response = 123 ∷ 125 ∷ []; created_at = 90 }

-- The second attempt stands before the first.
abbrev answered_twice : Tables
answered_twice = record (tables settled_row) { attempts = answered 2 ∷ answered 1 ∷ [] }

attempt_list_in_order :
    attempt_list 1 answered_twice ≡ (ok (answered 1 ∷ answered 2 ∷ []), answered_twice)
unfolding attempt_list attempts_of sort_by_attempt insert_by_attempt
attempt_list_in_order = refl

attempt_list-IsListing_example :
    (page : List GenerationAttempt) × (attempt_list 1 answered_twice ≡ (ok page, answered_twice))
    × IsListing 1 answered_twice.attempts page
attempt_list-IsListing_example = attempt_list-IsListing 1 answered_twice
