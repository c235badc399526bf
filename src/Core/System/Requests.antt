-- ===== src/Core/System/Requests.antt =====
-- What the services of a read and of a cancel do to the tables.
use service_genai.Prelude.{ℕ, Option, none}
use service_genai.Errors.{Err}
use service_genai.Action.{Action}
use service_genai.Dao.Rows
use service_genai.Dao.Rows.{Tables, GenerationAttempt, is_live}
use service_genai.Dao.Reads.{attempt_list}
use service_genai.Dao.Steps.{Reach, here, next, cancelling}
use service_genai.Core.Check.Deps.{CheckRequest}
use service_genai.Core.Check.Reach.Tables.{Reach-trans, get-Reach}
use service_genai.Core.System.Over.{get_over, cancel_over}
use service_genai.Core.System.Along.{IsOrder, Runs, get-along, cancel-along}
use service_genai.Core.Get.{GetDeps}
use service_genai.Core.Get
use service_genai.Core.Cancel.{CancelDeps}
use service_genai.Core.Cancel

pub Reach-IsOrder : IsOrder Reach
Reach-IsOrder = record { stays = λ t. here; goes_on = Reach-trans }

pub attempt_list-Runs : (id : ℕ) → Runs Reach (attempt_list id)
unfolding attempt_list
attempt_list-Runs id t = here

-- A check over the tables, which every service shares.
module _ (check : CheckRequest → Action Tables Rows.Generation)
    (checks : (r : CheckRequest) → Runs Reach (check r)) where
  pub get-Runs :
      (validate : Get.GenerationGetRequest → Option Err) (r : Get.GenerationGetRequest)
      → Runs Reach (Get.exec (get_over check validate) r)
  get-Runs validate = get-along Reach-IsOrder (get_over check validate) (record {
    gets = get-Reach;
    lists = attempt_list-Runs;
    checks = λ g. checks (record { generation = g; start = none });
  })

  pub cancel-Runs :
      (validate : Cancel.GenerationCancelRequest → Option Err) (retention : ℕ)
      (r : Cancel.GenerationCancelRequest)
      → Runs Reach (Cancel.exec (cancel_over check validate retention) r)
  cancel-Runs validate retention =
      cancel-along Reach-IsOrder (cancel_over check validate retention) (record {
        cancels = λ r t. next here (cancelling r t);
        gets = get-Reach;
        lists = attempt_list-Runs;
        checks = λ g. checks (record { generation = g; start = none });
      })
