-- ===== src/Core/System/Capped.antt =====
-- The concurrency cap of the submits, over the calls of the services.
pub mod Cap
pub mod Submitter
mod Tests
use service_genai.Prelude.{
  ℕ, ◌+◌, ◌≤◌, ◌≡◌, refl, sym, subst, ap, ◌∙◌, String, Bool, true, false, ◌&&◌, Bool-cases, Option,
  none, some, arith, ◌==◌, ==_iff, str_eq, eq_iff, Option-cases, inl, inr,
}
use service_genai.Errors.{Err, Bytes}
use service_genai.Action.{Action, Res, Res-cases, ok, err}
use service_genai.Connectors.{Registry}
use service_genai.Dao.Rows
use service_genai.Dao.Rows.{Tables}
use service_genai.Dao.Reads.{
  GenerationGetRequest, GenerationSweepRequest, GenerationCountLiveRequest, get, attempt_list,
  sweep, usage_sum, count_live,
}
use service_genai.Dao.Records.{
  attempt_insert, usage_insert, attempt_statement, usage_statement, GenerationAttemptInsertRequest,
  GenerationUsageInsertRequest,
}
use service_genai.Dao.Lifecycle.{
  GenerationRequestCancelRequest, request_cancel, record_provider_call, settle,
}
use service_genai.Dao.Submit.{GenerationSubmitResult, submit}
use service_genai.Dao.Submit
use service_genai.Dao.InFlight.{
  in_flight, counted-later, in_flight-settle, in_flight-record, in_flight-cancel, in_flight-submit,
  submit-replayed,
}
use service_genai.Core.Check.Deps.{CheckRequest, Captured}
use service_genai.Core.Check.Exec as Check
use service_genai.Core.Check.Atomic.{over_tables}
use service_genai.Core.Check.Reach.Tables.{IsStated, IsWorld, exec_over-along}
use service_genai.Core.Get
use service_genai.Core.Cancel
use service_genai.Core.Submit.Request.{GenerationSubmitRequest, SubmitDeps}
use service_genai.Core.Submit.Admit.{
  admit, admit_concurrency, admit_windows, caps_of, unknown_outcome_hold,
}
use service_genai.Core.Submit.Exec.{
  SubmitResult, submission, send_call, answer, exec_keyed, exec, validate_request,
}
use service_genai.Core.Submit.Key.{request_key}
use service_genai.Core.Submit.Admission.{
  Outcome, Ends, Admitted, AllOrNothing, exec_keyed-AllOrNothing,
}
use service_genai.Core.Sweep.{SweepDeps}
use service_genai.Core.Sweep
use service_genai.Core.System.Along.{IsOrder, Runs, get-along, cancel-along, sweep-along}
use service_genai.Core.System.Over.{get_over, cancel_over, submit_over, sweep_over}
use service_genai.Core.System.Capped.Cap.{
  IsWithin, Keeps, fewer-Keeps, Keeps-IsOrder, Keeps-IsStated, get-Keeps, list-Keeps, sweep-Keeps,
  IsCapped, quota,
}
use service_genai.Core.System.Capped.Submitter.{IsCappedSubmitter, submit-Keeps}

module _ (owner_id : ℕ) (purpose : String) (cap : ℕ)
    (check : CheckRequest → Action Tables Rows.Generation)
    (keeps : (r : CheckRequest) → Runs (Keeps owner_id purpose cap) (check r)) where
  -- What a sweep relies on: the role and the slots, and other processes meanwhile.
  pub record IsCappedSweeper {L : Type 0} (d : SweepDeps Tables L) : Type 0 where
    pub locks : Runs (Keeps owner_id purpose cap) d.dao_lock
    pub unlocks : (role : L) (t : Tables) → Keeps owner_id purpose cap t (d.dao_unlock role t)
    pub slots : (t : Tables) → Keeps owner_id purpose cap t (d.slot t).1
    pub releases : (t : Tables) → Keeps owner_id purpose cap t (d.release t)

  -- One call of a service, of any process, or the passing of time.
  pub data CappedCall : Tables → Tables → Type 1 where
    gets :
        (validate : Get.GenerationGetRequest → Option Err) (r : Get.GenerationGetRequest)
        (t : Tables)
        → CappedCall t (Get.exec (get_over check validate) r t).1
    cancels :
        (validate : Cancel.GenerationCancelRequest → Option Err) (retention : ℕ)
        (r : Cancel.GenerationCancelRequest) (t : Tables)
        → CappedCall t (Cancel.exec (cancel_over check validate retention) r t).1
    submits :
        {St : Type 0} (d : SubmitDeps Tables St)
        (i : IsCappedSubmitter owner_id purpose cap check keeps d) (r : GenerationSubmitRequest)
        (capped : IsCapped owner_id purpose cap r) (t : Tables)
        → CappedCall t (exec (submit_over check d) r t).1
    sweeps :
        {L : Type 0} (d : SweepDeps Tables L) (i : IsCappedSweeper d) (fuel : ℕ)
        (deadline : Option ℕ) (t : Tables)
        → CappedCall t (Sweep.exec (sweep_over check d) fuel deadline t).1
    passes : (n : ℕ) (t : Tables) → CappedCall t (record t { clock = t.clock + n })

  pub data CappedCalls (t : Tables) : Tables → Type 1 where
    none_yet : CappedCalls t t
    one_more : {u v : Tables} → CappedCalls t u → CappedCall u v → CappedCalls t v

  CappedCall-Keeps : {t u : Tables} → CappedCall t u → Keeps owner_id purpose cap t u
  CappedCall-Keeps (gets validate r t) p =
      get-along (Keeps-IsOrder owner_id purpose cap) (get_over check validate)
        (record {
          gets = get-Keeps owner_id purpose cap;
          lists = list-Keeps owner_id purpose cap;
          checks = λ g. keeps (record { generation = g; start = none });
        })
        r t p
  CappedCall-Keeps (cancels validate retention r t) p =
      cancel-along (Keeps-IsOrder owner_id purpose cap) (cancel_over check validate retention)
        (record {
          cancels = λ r t.
              fewer-Keeps owner_id purpose cap t (request_cancel r t).1
                (in_flight-cancel (quota owner_id purpose) r t);
          gets = get-Keeps owner_id purpose cap;
          lists = list-Keeps owner_id purpose cap;
          checks = λ g. keeps (record { generation = g; start = none });
        })
        r t p
  CappedCall-Keeps (submits d i r capped t) p =
      submit-Keeps owner_id purpose cap check keeps d i r capped t p
  CappedCall-Keeps (sweeps d i fuel deadline t) p =
      sweep-along (Keeps-IsOrder owner_id purpose cap) (sweep_over check d)
        (record {
          pages = sweep-Keeps owner_id purpose cap;
          locks = i.locks;
          unlocks = i.unlocks;
          checks = λ g. keeps (record { generation = g; start = none });
          slots = i.slots;
          releases = i.releases;
        })
        fuel deadline t p
  CappedCall-Keeps (passes n t) p =
      omega (arith, counted-later (quota owner_id purpose) t.clock n t.generations, p)

  CappedCalls-Keeps : {t u : Tables} → CappedCalls t u → Keeps owner_id purpose cap t u
  CappedCalls-Keeps none_yet p = p
  CappedCalls-Keeps (one_more r c) p = CappedCall-Keeps c (CappedCalls-Keeps r p)

module _ (owner_id : ℕ) (purpose : String) (cap : ℕ) {St : Type 0}
    (within_tx : Action Tables Rows.Generation → Action Tables Rows.Generation)
    (registry : Registry Tables Captured St) (now : Tables → ℕ) (wait : ℕ → Tables → Bool × Tables)
    (retention : ℕ) (world : IsWorld (Keeps owner_id purpose cap) within_tx registry wait) where
  abbrev pub check_over : CheckRequest → Action Tables Rows.Generation
  check_over = Check.exec (over_tables within_tx registry now wait retention)

  abbrev pub check_over-Keeps :
      (r : CheckRequest) → Runs (Keeps owner_id purpose cap) (check_over r)
  check_over-Keeps r t =
      exec_over-along (Keeps-IsStated owner_id purpose cap) within_tx registry now wait retention r
        t world

  -- Where each submit of an owner for a purpose sends a concurrency of at most `cap`, transactions keep
  -- PostgreSQL's promise, and what other processes do during a check's pauses and calls keeps at most
  -- `cap` of the owner's generations in flight for the purpose: from at most `cap` in flight, after any sequence of reads, cancels, submits and
  -- sweeps, with the checks that they run and any time between them, at most `cap` are in flight, as
  -- admission counts them, with the generations whose call may still run untracked.
  pub CappedCalls-IsWithin :
      {t u : Tables}
      → CappedCalls owner_id purpose cap check_over check_over-Keeps t u
      → IsWithin owner_id purpose cap t
      → IsWithin owner_id purpose cap u
  CappedCalls-IsWithin = CappedCalls-Keeps owner_id purpose cap check_over check_over-Keeps
