-- ===== src/Core/System.antt =====
-- The services of a generation over the tables, one call after another: what the callers, the scheduler
-- and the sweep do to the rows.
pub mod Along
pub mod Over
pub mod Requests
pub mod Submitter
pub mod Sweeper
pub mod Sent
pub mod Paid
pub mod Priced
pub mod Capped
mod Tests
use service_genai.Prelude.{
  ℕ, zero, suc, ◌+◌, length, String, ◌≡◌, sym, subst, Bool, not, ◌||◌, Option, none, some, List, [],
  ◌∷◌, arith, Option-cases, Bool-cases, inl, inr, false, true,
}
use service_genai.Errors.{Err, Bytes, wraps, usage_cap_reached}
use service_genai.Action.{Action, Res, Res-cases, ok, err, wrapped, ◌>>=◌}
use service_genai.Dao.Rows
use service_genai.Dao.Rows.{Tables, GenerationAttempt, is_live}
use service_genai.Dao.Lifecycle.{request_cancel, GenerationRequestCancelRequest}
use service_genai.Dao.Reads.{get, sweep, attempt_list, usage_sum, count_live}
use service_genai.Dao.Reads
use service_genai.Dao.Submit.{submit, GenerationSubmitResult}
use service_genai.Dao.Submit
use service_genai.Dao.Consistency.{IsConsistent, row_of}
use service_genai.Dao.Steps.{
  Reach, here, next, cancelling, submitting, ticking, Reach-IsConsistent, Reach-keeps_settled,
}
use service_genai.Core.Generation.{Generation, view}
use service_genai.Core.Check.Deps.{CheckRequest}
use service_genai.Core.Check.Outcome.{generation_cancelled_reason}
use service_genai.Core.Check.Reach.Tables.{Reach-trans, get-Reach}
use service_genai.Core.Get.{GetDeps}
use service_genai.Core.Get
use service_genai.Core.Cancel.{CancelDeps}
use service_genai.Core.Cancel
use service_genai.Core.Submit.Request.{GenerationSubmitRequest, SubmitDeps}
use service_genai.Core.Submit.Admit.{admit, admit_concurrency, admit_windows}
use service_genai.Core.Submit.Exec.{
  submission, submit_tx, send_call, answer, after_tx, exec_keyed, exec, validate_request,
}
use service_genai.Core.Submit.Key.{request_key}
use service_genai.Core.Sweep.{
  SweepDeps, dispatch, sweep_batch, sweep_loop, last_id, last_start_of, may_start,
}
use service_genai.Core.Sweep
use service_genai.Core.Submit.Admission.{Outcome, Ends}
use service_genai.Core.System.Over.{get_over, cancel_over, submit_over, sweep_over}
use service_genai.Core.System.Along.{Runs}
use service_genai.Core.System.Requests.{get-Runs, cancel-Runs}
use service_genai.Core.System.Submitter.{IsSubmitter, submit-Runs}
use service_genai.Core.System.Sweeper.{IsSweeper, sweep-Runs}

module _ (check : CheckRequest → Action Tables Rows.Generation)
    (checks : (r : CheckRequest) → Runs Reach (check r)) where
  -- One call of a service, or the passing of time.
  pub data Rpc : Tables → Tables → Type 1 where
    gets :
        (validate : Get.GenerationGetRequest → Option Err) (r : Get.GenerationGetRequest)
        (t : Tables)
        → Rpc t (Get.exec (get_over check validate) r t).1
    cancels :
        (validate : Cancel.GenerationCancelRequest → Option Err) (retention : ℕ)
        (r : Cancel.GenerationCancelRequest) (t : Tables)
        → Rpc t (Cancel.exec (cancel_over check validate retention) r t).1
    submits :
        {St : Type 0} (d : SubmitDeps Tables St) (w : IsSubmitter check checks d)
        (r : GenerationSubmitRequest) (t : Tables)
        → Rpc t (exec (submit_over check d) r t).1
    sweeps :
        {L : Type 0} (d : SweepDeps Tables L) (w : IsSweeper check checks d) (fuel : ℕ)
        (deadline : Option ℕ) (t : Tables)
        → Rpc t (Sweep.exec (sweep_over check d) fuel deadline t).1
    passes : (n : ℕ) (t : Tables) → Rpc t (record t { clock = t.clock + n })

  pub data Rpcs (t : Tables) : Tables → Type 1 where
    none_yet : Rpcs t t
    one_more : {u v : Tables} → Rpcs t u → Rpc u v → Rpcs t v

  Rpc-Reach : {t u : Tables} → Rpc t u → Reach t u
  Rpc-Reach (gets validate r t) = get-Runs check checks validate r t
  Rpc-Reach (cancels validate retention r t) = cancel-Runs check checks validate retention r t
  Rpc-Reach (submits d w r t) = submit-Runs check checks d w r t
  Rpc-Reach (sweeps d w fuel deadline t) = sweep-Runs check checks d w fuel deadline t
  Rpc-Reach (passes n t) = next here (ticking n t)

  Rpcs-Reach : {t u : Tables} → Rpcs t u → Reach t u
  Rpcs-Reach none_yet = here
  Rpcs-Reach (one_more r q) = Reach-trans (Rpcs-Reach r) (Rpc-Reach q)

  -- Where a check only runs statements of internal/dao, transactions keep PostgreSQL's promise, and
  -- identifiers, the sweep's role and its slots cost the rows nothing: from consistent tables with a
  -- settled generation, after any sequence of reads, cancels, submits and sweeps, whatever they answer,
  -- the tables are consistent and the row of that generation is the same in every column.
  pub Rpcs-safe :
      {t u : Tables} (id : ℕ) (g : Rows.Generation)
      → Rpcs t u
      → IsConsistent t
      → row_of id t.generations ≡ some g
      → is_live g.status ≡ false
      → IsConsistent u × (row_of id u.generations ≡ some g)
  Rpcs-safe id g r c e settled =
      (Reach-IsConsistent (Rpcs-Reach r) c, Reach-keeps_settled id g (Rpcs-Reach r) e settled)
