-- ===== src/Core/Submit/Scenario.antt =====
-- A request, and a submit over tables, for the tests.
use service_genai.Action.{ok, err}
use service_genai.Dao.Rows.{Tables}
use service_genai.Dao.Submit.{submit}
use service_genai.Dao.Reads.{attempt_list, usage_sum, count_live}
use service_genai.Core.Submit.Request.{SubmitDeps}
use service_genai.Core.Submit.Admission.{Outcome, Ends}
use service_genai.Prelude.{refl, true, none, [], ◌∷◌}
use service_genai.Core.Submit.Request.{GenerationSubmitRequest}

-- One request, without caps.
abbrev pub request : GenerationSubmitRequest
request = record {
  owner_id = 7;
  owner_bytes = 7 ∷ [];
  purpose = "ab";
  purpose_bytes = 97 ∷ 98 ∷ [];
  provider = "c";
  provider_bytes = 99 ∷ [];
  payload = 123 ∷ 125 ∷ [];
  variant = 3;
  stream = true;
  caps = none;
}

-- No generation at all, and a transaction that rolls back when its function fails.
abbrev pub no_rows : Tables
no_rows = record { generations = []; attempts = []; usage = []; clock = 100 }

abbrev pub rolled_back : Tables → Outcome × Tables → Outcome × Tables
rolled_back t ((refusal, ok result), t') = ((refusal, ok result), t')
rolled_back t ((refusal, err e), t') = ((refusal, err e), t)

abbrev pub submit_deps : SubmitDeps Tables (Unit {0})
submit_deps = record {
  dao = submit;
  dao_attempt_list = attempt_list;
  dao_usage_sum = usage_sum;
  dao_count_live = count_live;
  service_check = λ r t. (ok r.generation, t);
  registry = [];
  within_tx = λ f t. rolled_back t (f t);
  purposes = "ab" ∷ [];
  validate = λ r. none;
  codec = record {
    is_object = λ b. true;
    decode = λ b. ok [];
    format = λ b. ok b;
    encode = λ ms. ok [];
    sha256 = λ b. b;
  };
  now = λ t. t.clock;
  new_id = λ t. (1, t);
  traceparent = λ t. none;
}

pub rolled_back-Ends : (inner : Outcome × Tables) (t : Tables) → Ends inner t (rolled_back t inner)
rolled_back-Ends ((refusal, ok result), t') t = refl
rolled_back-Ends ((refusal, err e), t') t = (refl, refl)
