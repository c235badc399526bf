-- ===== src/Core/System/Tests.antt =====
-- A cancel, a submit and the passing of time, over concrete tables.
use service_genai.Prelude.{◌≡◌, ◌+◌, refl, none, some, [], ◌∷◌}
use service_genai.Action.{Action, ok}
use service_genai.Dao.Rows.{Tables, Generation, GenerationStatus, checks}
use service_genai.Dao.Consistency.{IsConsistent, row_of}
use service_genai.Dao.Steps.{Reach, here}
use service_genai.Core.Check.Deps.{CheckRequest}
use service_genai.Core.Check.Scenario.{running_row, stubborn}
use service_genai.Core.Cancel
use service_genai.Core.Submit.Request.{SubmitDeps}
use service_genai.Core.Submit.Exec.{exec}
use service_genai.Core.Submit.Scenario.{request, submit_deps, rolled_back-Ends}
use service_genai.Core.System.{none_yet, one_more, cancels, submits, passes, Rpcs-safe}
use service_genai.Core.System.Over.{cancel_over, submit_over}
use service_genai.Core.System.Submitter.{IsSubmitter}

abbrev settled_row : Generation
settled_row = record running_row {
  status = GenerationStatus.succeeded;
  settled_at = some 90;
  expires_at = some 190;
}

abbrev tables : Tables
tables = record {
  generations = settled_row ∷ record running_row { id = 2; request_key = 30 ∷ [] } ∷ [];
  attempts = [];
  usage = [];
  clock = 100;
}

tables-IsConsistent : IsConsistent tables
unfolding checks
tables-IsConsistent = record {
  checked = (refl, (refl, tt));
  ids = (refl, (refl, tt));
  keys = (refl, (refl, tt));
}

-- A provider whose calls go on.
abbrev check : CheckRequest → Action Tables Generation
check r t = (ok r.generation, t)

check-Runs : (r : CheckRequest) (t : Tables) → Reach t (check r t).1
check-Runs r t = here

abbrev deps : SubmitDeps Tables (Unit {0})
deps = record submit_deps {
  registry = ("c", record { async_mode = some stubborn; streaming_mode = some tt }) ∷ [];
  new_id = λ t. (3, t);
}

deps-IsSubmitter : IsSubmitter check check-Runs deps
deps-IsSubmitter = record { ends = λ f t. rolled_back-Ends (f t) t; ids = λ t. here }

abbrev asked : Tables
asked =
    (Cancel.exec (cancel_over check (λ r. none) 1000) (record { id = 2; owner_id = 7 }) tables).1

abbrev submitted : Tables
submitted = (exec (submit_over check deps) request asked).1

Rpcs-safe_example :
    IsConsistent (record submitted { clock = submitted.clock + 5 })
    × (row_of 1 submitted.generations ≡ some settled_row)
Rpcs-safe_example =
    Rpcs-safe check check-Runs 1 settled_row
      (one_more
        (one_more
          (one_more none_yet (cancels (λ r. none) 1000 (record { id = 2; owner_id = 7 }) tables))
          (submits deps deps-IsSubmitter request asked))
        (passes 5 submitted))
      tables-IsConsistent refl refl
