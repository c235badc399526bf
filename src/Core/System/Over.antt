-- ===== src/Core/System/Over.antt =====
-- The services over the queries of internal/dao, as cmd/grpc/main.go and cmd/sweep/main.go build them,
-- over the check that they share.
use service_genai.Prelude.{ℕ, Option}
use service_genai.Errors.{Err}
use service_genai.Action.{Action}
use service_genai.Dao.Rows
use service_genai.Dao.Rows.{Tables}
use service_genai.Dao.Lifecycle.{request_cancel}
use service_genai.Dao.Reads.{get, attempt_list, sweep, usage_sum, count_live}
use service_genai.Dao.Submit.{submit}
use service_genai.Core.Check.Deps.{CheckRequest}
use service_genai.Core.Get.{GetDeps}
use service_genai.Core.Get
use service_genai.Core.Cancel.{CancelDeps}
use service_genai.Core.Cancel
use service_genai.Core.Submit.Request.{SubmitDeps}
use service_genai.Core.Sweep.{SweepDeps}

module _ (check : CheckRequest → Action Tables Rows.Generation) where
  abbrev pub get_over : (Get.GenerationGetRequest → Option Err) → GetDeps Tables
  get_over validate = record {
    dao = get;
    dao_attempt_list = attempt_list;
    service_check = check;
    validate = validate;
  }

  abbrev pub cancel_over : (Cancel.GenerationCancelRequest → Option Err) → ℕ → CancelDeps Tables
  cancel_over validate retention = record {
    dao = request_cancel;
    dao_get = get;
    dao_attempt_list = attempt_list;
    service_check = check;
    retention = retention;
    validate = validate;
  }

  abbrev pub submit_over : {St : Type 0} → SubmitDeps Tables St → SubmitDeps Tables St
  submit_over d = record d {
    dao = submit;
    dao_attempt_list = attempt_list;
    dao_usage_sum = usage_sum;
    dao_count_live = count_live;
    service_check = check;
  }

  -- A check's result is dropped.
  abbrev pub sweep_over : {L : Type 0} → SweepDeps Tables L → SweepDeps Tables L
  sweep_over d = record d { dao = sweep; service_check = λ r t. (check r t).1 }
