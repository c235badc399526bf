-- ===== src/Core/System/Paid.antt =====
-- The calls of the services, and the starts that they give to their checks.
pub mod Submitter
use service_genai.Prelude.{
  ℕ, ◌≡◌, refl, sym, subst, ap, ◌∙◌, Bool, true, false, Option, some, arith, Option-cases, inl, inr,
}
use service_genai.Errors.{Err, Bytes}
use service_genai.Action.{Action, Res, Res-cases, ok}
use service_genai.Dao.Rows
use service_genai.Dao.Rows.{Tables}
use service_genai.Dao.Lifecycle.{request_cancel}
use service_genai.Dao.Reads.{
  GenerationSweepRequest, get, attempt_list, sweep, usage_sum, count_live,
}
use service_genai.Dao.Submit.{GenerationSubmitResult, submit}
use service_genai.Dao.Submit
use service_genai.Dao.Consistency.{has_id}
use service_genai.Dao.Steps.{Reach, here, next, cancelling, submitting}
use service_genai.Dao.Kept.{submit-created, Reach-has_id}
use service_genai.Core.Check.Deps.{CheckRequest}
use service_genai.Core.Check.Reach.Tables.{get-Reach, Reach-trans}
use service_genai.Core.Get
use service_genai.Core.Cancel
use service_genai.Core.Submit.Request.{GenerationSubmitRequest, SubmitDeps}
use service_genai.Core.Submit.Admit.{admit, admit_concurrency, admit_windows}
use service_genai.Core.Submit.Exec.{
  submission, send_call, answer, exec_keyed, exec, validate_request, SubmitResult,
}
use service_genai.Core.Submit.Key.{request_key}
use service_genai.Core.Submit.Admission.{
  Outcome, Ends, Admitted, AllOrNothing, exec_keyed-AllOrNothing,
}
use service_genai.Core.Sweep.{SweepDeps}
use service_genai.Core.Sweep
use service_genai.Core.System.Along.{Runs, get-along, cancel-along, sweep-along}
use service_genai.Core.System.Requests.{attempt_list-Runs}
use service_genai.Core.System.Sent.{
  Counted, IsPriced, World, on_tables, Quiet, Quiet-IsOrder, IsPaidOnce, Quiet-IsPaidOnce,
  sent-IsPaidOnce, check_sent, check_sent-Quiet, get_sent, cancel_sent, sweep_sent, submit_sent,
}
use service_genai.Core.System.Paid.Submitter.{read-Quiet, IsSubmitter, submit-IsPaidOnce}

-- A check over the tables, which every service shares.
module _ (check : CheckRequest → Action Counted Rows.Generation) (priced : IsPriced check) where
  get-Quiet :
      (validate : Get.GenerationGetRequest → Option Err) (r : Get.GenerationGetRequest)
      → Runs Quiet (Get.exec (get_sent check validate) r)
  get-Quiet validate = get-along Quiet-IsOrder (get_sent check validate) (record {
    gets = λ r. read-Quiet (get r) (get-Reach r);
    lists = λ id. read-Quiet (attempt_list id) (attempt_list-Runs id);
    checks = check_sent-Quiet check priced;
  })

  cancel-Quiet :
      (validate : Cancel.GenerationCancelRequest → Option Err) (retention : ℕ)
      (r : Cancel.GenerationCancelRequest)
      → Runs Quiet (Cancel.exec (cancel_sent check validate retention) r)
  cancel-Quiet validate retention =
      cancel-along Quiet-IsOrder (cancel_sent check validate retention) (record {
        cancels = λ r. read-Quiet (request_cancel r) (λ t. next here (cancelling r t));
        gets = λ r. read-Quiet (get r) (get-Reach r);
        lists = λ id. read-Quiet (attempt_list id) (attempt_list-Runs id);
        checks = check_sent-Quiet check priced;
      })

  pages-Runs : (r : GenerationSweepRequest) → Runs Reach (sweep r)
  unfolding sweep
  pages-Runs r t = here

  -- What a sweep relies on: the role and the slots run statements at most, and start nothing.
  pub record IsSweeper {L : Type 0} (d : SweepDeps World L) : Type 0 where
    pub locks : Runs Quiet d.dao_lock
    pub unlocks : (role : L) (w : World) → Quiet w (d.dao_unlock role w)
    pub slots : (w : World) → Quiet w (d.slot w).1
    pub releases : (w : World) → Quiet w (d.release w)

  sweep-Quiet :
      {L : Type 0} (d : SweepDeps World L) (i : IsSweeper d) (fuel : ℕ) (deadline : Option ℕ)
      → Runs Quiet (Sweep.exec (sweep_sent check d) fuel deadline)
  sweep-Quiet d i = sweep-along Quiet-IsOrder (sweep_sent check d) (record {
    pages = λ r. read-Quiet (sweep r) (pages-Runs r);
    locks = i.locks;
    unlocks = i.unlocks;
    checks = check_sent-Quiet check priced;
    slots = i.slots;
    releases = i.releases;
  })

  -- One call of a service, or statements of other processes and the passing of time.
  pub data ServiceCall : World → World → Type 1 where
    gets :
        (validate : Get.GenerationGetRequest → Option Err) (r : Get.GenerationGetRequest)
        (w : World)
        → ServiceCall w (Get.exec (get_sent check validate) r w).1
    cancels :
        (validate : Cancel.GenerationCancelRequest → Option Err) (retention : ℕ)
        (r : Cancel.GenerationCancelRequest) (w : World)
        → ServiceCall w (Cancel.exec (cancel_sent check validate retention) r w).1
    submits :
        {St : Type 0} (d : SubmitDeps World St) (i : IsSubmitter check priced d)
        (r : GenerationSubmitRequest) (w : World)
        → ServiceCall w (exec (submit_sent check d) r w).1
    sweeps :
        {L : Type 0} (d : SweepDeps World L) (i : IsSweeper d) (fuel : ℕ) (deadline : Option ℕ)
        (w : World)
        → ServiceCall w (Sweep.exec (sweep_sent check d) fuel deadline w).1
    others : {t : Tables} (w : World) → Reach w.tables t → ServiceCall w (record w { tables = t })

  pub data ServiceCalls (w : World) : World → Type 1 where
    none_yet : ServiceCalls w w
    one_more : {u v : World} → ServiceCalls w u → ServiceCall u v → ServiceCalls w v

  ServiceCall-IsPaidOnce : {w v : World} → ServiceCall w v → IsPaidOnce w → IsPaidOnce v
  ServiceCall-IsPaidOnce (gets validate r w) p = Quiet-IsPaidOnce (get-Quiet validate r w) p
  ServiceCall-IsPaidOnce (cancels validate retention r w) p =
      Quiet-IsPaidOnce (cancel-Quiet validate retention r w) p
  ServiceCall-IsPaidOnce (submits d i r w) p = submit-IsPaidOnce check priced d i r w p
  ServiceCall-IsPaidOnce (sweeps d i fuel deadline w) p =
      Quiet-IsPaidOnce (sweep-Quiet d i fuel deadline w) p
  ServiceCall-IsPaidOnce (others w r) p =
      Quiet-IsPaidOnce (record { runs = r; same_sent = refl; same_starts = refl }) p

  -- Where a check only runs statements of internal/dao, transactions keep PostgreSQL's promise, no row
  -- has the identifier that a submit mints, and the sweep's role and slots start nothing: from a state
  -- in which each generation's check was given a start once at most, as before any call, that holds
  -- after any sequence of reads, cancels, submits and sweeps, whatever they answer and whatever
  -- statements other processes run between them, and each generation that was given one has its row.
  pub ServiceCalls-IsPaidOnce : {w v : World} → ServiceCalls w v → IsPaidOnce w → IsPaidOnce v
  ServiceCalls-IsPaidOnce none_yet p = p
  ServiceCalls-IsPaidOnce (one_more r c) p = ServiceCall-IsPaidOnce c (ServiceCalls-IsPaidOnce r p)
