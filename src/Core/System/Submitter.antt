-- ===== src/Core/System/Submitter.antt =====
-- What a submit does to the tables.
use service_genai.Prelude.{
  ℕ, ◌≡◌, sym, subst, Bool, Option, none, some, arith, Option-cases, inl, inr,
}
use service_genai.Errors.{Err, Bytes}
use service_genai.Action.{Action, Res, Res-cases, ok, err}
use service_genai.Dao.Rows
use service_genai.Dao.Rows.{Tables, GenerationAttempt, is_live}
use service_genai.Dao.Reads.{attempt_list, usage_sum, count_live}
use service_genai.Dao.Submit.{submit, GenerationSubmitResult}
use service_genai.Dao.Submit
use service_genai.Dao.Steps.{Reach, here, next, submitting}
use service_genai.Core.Check.Deps.{CheckRequest}
use service_genai.Core.Check.Reach.Tables.{Reach-trans}
use service_genai.Core.Submit.Request.{GenerationSubmitRequest, SubmitDeps}
use service_genai.Core.Submit.Admit.{admit, admit_concurrency, admit_windows}
use service_genai.Core.Submit.Exec.{
  submission, submit_tx, send_call, answer, after_tx, exec_keyed, exec, validate_request,
}
use service_genai.Core.Submit.Key.{request_key}
use service_genai.Core.Submit.Admission.{Outcome, Ends}
use service_genai.Core.System.Over.{submit_over}
use service_genai.Core.System.Along.{Runs}

-- A check over the tables, which every service shares.
module _ (check : CheckRequest → Action Tables Rows.Generation)
    (checks : (r : CheckRequest) → Runs Reach (check r)) where
  module _ {St : Type 0} (d : SubmitDeps Tables St) where
    admit_keeps :
        (r : GenerationSubmitRequest) (t : Tables) → (admit (submit_over check d) r t).1 ≡ t
    unfolding admit admit_concurrency admit_windows count_live usage_sum
    admit_keeps r t = ground arith

    submit_tx-Reach :
        (r : GenerationSubmitRequest) (request : Submit.GenerationSubmitRequest) (t : Tables)
        → Reach t (submit_tx (submit_over check d) r request t).1
    unfolding submit_tx
    submit_tx-Reach r request t =
        let step = next here (submitting request t) in
        ground (arith, step, admit_keeps r (submit request t).1)

    send_call-Reach :
        (r : GenerationSubmitRequest) (intent_at : ℕ) (result : GenerationSubmitResult) (t : Tables)
        → Reach t (send_call (submit_over check d) r intent_at result t).1
    unfolding send_call
    send_call-Reach r intent_at result t =
        let sent =
          checks
            (record {
              generation = result.generation;
              start = some (record { payload = r.payload; intent_at = intent_at });
            })
            t in
        let r' : Reach t t = here in ground (arith, sent, r')

    answer-Reach :
        (created : Bool) (x : Rows.Generation × Tables) (t : Tables)
        → Reach t x.1
        → Reach t (answer (submit_over check d) created x).1
    unfolding answer attempt_list
    answer-Reach created (g, u) t r = ground (arith, r)

    after_tx-Reach :
        (r : GenerationSubmitRequest) (intent_at : ℕ) (refusal : Option Err)
        (outcome : Res GenerationSubmitResult)
        → Runs Reach (after_tx (submit_over check d) r intent_at refusal outcome)
    unfolding after_tx
    after_tx-Reach r intent_at none (err e) t = here
    after_tx-Reach r intent_at none (ok result) t =
        answer-Reach result.created _ t (send_call-Reach r intent_at result t)
    after_tx-Reach r intent_at (some refusal) (err e) t =
        let r' : Reach t t = here in ground (arith, r')
    after_tx-Reach r intent_at (some refusal) (ok result) t =
        let r' : Reach t t = here in
        let sent =
          answer-Reach result.created (send_call (submit_over check d) r intent_at result t) t
            (send_call-Reach r intent_at result t) in
        ground (arith, r', sent)

    Ends-Reach :
        (inner outcome : Outcome × Tables) (t : Tables)
        → Reach t inner.1
        → Ends inner t outcome
        → Reach t outcome.1
    Ends-Reach inner ((refusal, ok result), u) t r e = subst (λ x. Reach t x.1) e r
    Ends-Reach inner ((refusal, err x), u) t r e = subst (λ x. Reach t x) (sym e.1) here

    -- What a submit relies on: PostgreSQL's transactions, and identifiers that cost the rows nothing.
    pub record IsSubmitter : Type 0 where
      pub ends : (f : Tables → Outcome × Tables) (t : Tables) → Ends (f t) t (d.within_tx f t)
      pub ids : (t : Tables) → Reach t (d.new_id t).1

    exec_keyed-Runs :
        (w : IsSubmitter) (r : GenerationSubmitRequest) (key : Bytes)
        → Runs Reach (exec_keyed (submit_over check d) r key)
    unfolding exec_keyed
    exec_keyed-Runs w r key t =
        let (id, t') = d.new_id t in
        let f =
          submit_tx (submit_over check d) r
            (submission (submit_over check d) r id key (d.traceparent t)) in
        let inner =
          submit_tx-Reach r (submission (submit_over check d) r id key (d.traceparent t)) t' in
        let outcome = d.within_tx f t' in
        Reach-trans (w.ids t) (
          Reach-trans (Ends-Reach (f t') outcome t' inner (w.ends f t'))
            (after_tx-Reach r (d.now t') outcome.0.0 outcome.0.1 outcome.1))

    pub submit-Runs :
        (w : IsSubmitter) (r : GenerationSubmitRequest) → Runs Reach (exec (submit_over check d) r)
    unfolding exec
    submit-Runs w r t = elim (Option-cases (validate_request (submit_over check d) r)) [
      | inr (x, e) ↦ let r' : Reach t t = here in ground (arith, e, r')
      | inl e ↦ elim (Res-cases (request_key d.codec r)) [
        | inl (key, f) ↦ let sent = exec_keyed-Runs w r key t in ground (arith, e, f, sent)
        | inr (x, f) ↦ let r' : Reach t t = here in ground (arith, e, f, r')
      ]
    ]
