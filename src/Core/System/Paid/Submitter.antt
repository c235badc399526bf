-- ===== src/Core/System/Paid/Submitter.antt =====
-- The start that a submit gives to its check.
use service_genai.Prelude.{
  ℕ, ◌≡◌, refl, sym, subst, ap, ◌∙◌, Bool, true, false, some, arith, Option-cases, inl, inr,
}
use service_genai.Errors.{Bytes}
use service_genai.Action.{Action, Res, Res-cases, ok}
use service_genai.Dao.Rows
use service_genai.Dao.Rows.{Tables}
use service_genai.Dao.Reads.{attempt_list, usage_sum, count_live}
use service_genai.Dao.Submit.{GenerationSubmitResult, submit}
use service_genai.Dao.Submit
use service_genai.Dao.Consistency.{has_id}
use service_genai.Dao.Steps.{Reach, here, next, submitting}
use service_genai.Dao.Kept.{submit-created, Reach-has_id}
use service_genai.Core.Check.Deps.{CheckRequest}
use service_genai.Core.Check.Reach.Tables.{Reach-trans}
use service_genai.Core.Submit.Request.{GenerationSubmitRequest, SubmitDeps}
use service_genai.Core.Submit.Admit.{admit, admit_concurrency, admit_windows}
use service_genai.Core.Submit.Exec.{
  submission, send_call, answer, exec_keyed, exec, validate_request, SubmitResult,
}
use service_genai.Core.Submit.Key.{request_key}
use service_genai.Core.Submit.Admission.{
  Outcome, Ends, Admitted, AllOrNothing, exec_keyed-AllOrNothing,
}
use service_genai.Core.System.Along.{Runs}
use service_genai.Core.System.Requests.{attempt_list-Runs}
use service_genai.Core.System.Sent.{
  Counted, IsPriced, World, on_tables, Quiet, Quiet-IsOrder, IsPaidOnce, Quiet-IsPaidOnce,
  sent-IsPaidOnce, check_sent, submit_sent,
}

pub read-Quiet : {A : Type 0} (m : Action Tables A) → Runs Reach m → Runs Quiet (on_tables m)
read-Quiet m r w = record { runs = r w.tables; same_sent = refl; same_starts = refl }

-- A check over the tables, which every service shares.
module _ (check : CheckRequest → Action Counted Rows.Generation) (priced : IsPriced check) where
  module _ {St : Type 0} (d : SubmitDeps World St) where
    -- What a submit relies on: PostgreSQL's transactions, and identifiers that no row has.
    pub record IsSubmitter : Type 0 where
      pub ends : (f : World → Outcome × World) (w : World) → Ends (f w) w (d.within_tx f w)
      pub ids : (w : World) → Quiet w (d.new_id w).1
      pub fresh : (w : World) → has_id (d.new_id w).0 (d.new_id w).1.tables.generations ≡ false

    abbrev over : SubmitDeps World St
    over = submit_sent check d

    admit_keeps : (r : GenerationSubmitRequest) (w : World) → (admit over r w).1 ≡ w
    unfolding admit admit_concurrency admit_windows count_live usage_sum
    admit_keeps r w = ground arith

    answer-Quiet :
        (created : Bool) (x : Rows.Generation × World) → Quiet x.1 (answer over created x).1
    unfolding answer
    answer-Quiet created (g, w) =
        let r = Quiet-IsOrder.stays w in
        let q = read-Quiet (attempt_list g.id) (attempt_list-Runs g.id) w in ground (arith, r, q)

    replayed-IsPaidOnce :
        (r : GenerationSubmitRequest) (intent_at : ℕ) (result : GenerationSubmitResult) (w : World)
        → result.created ≡ false
        → IsPaidOnce w
        → IsPaidOnce (send_call over r intent_at result w).1
    unfolding send_call
    replayed-IsPaidOnce r intent_at result w e p = rw e p

    abbrev start_request : GenerationSubmitRequest → ℕ → GenerationSubmitResult → CheckRequest
    start_request r intent_at result = record {
      generation = result.generation;
      start = some (record { payload = r.payload; intent_at = intent_at });
    }

    send_call-check :
        (r : GenerationSubmitRequest) (intent_at : ℕ) (result : GenerationSubmitResult) (w : World)
        → result.created ≡ true
        → (send_call over r intent_at result w).1
          ≡ (check_sent check (start_request r intent_at result) w).1
    unfolding send_call
    send_call-check r intent_at result w c = ground arith

    created-IsPaidOnce :
        (r : GenerationSubmitRequest) (request : Submit.GenerationSubmitRequest) (intent_at : ℕ)
        (result : GenerationSubmitResult) (w : World)
        → result.created ≡ true
        → has_id request.id w.tables.generations ≡ false
        → (submit request w.tables).0 ≡ ok result
        → IsPaidOnce w
        → IsPaidOnce
            (send_call over r intent_at result
              (record w { tables = (submit request w.tables).1 })).1
    unfolding check_sent
    created-IsPaidOnce r request intent_at result w c fresh e p =
        let (named, there) = submit-created request w.tables result fresh e c in
        let t = (submit request w.tables).1 in
        let run = priced.runs (start_request r intent_at result) (w.starts, t) in
        subst IsPaidOnce (sym (send_call-check r intent_at result (record w { tables = t }) c)) (
          sent-IsPaidOnce request.id (Reach-trans (next here (submitting request w.tables)) run)
            (cc named) (priced.one (start_request r intent_at result) (w.starts, t)) fresh
            (Reach-has_id request.id run there) p)

    Admitted-IsPaidOnce :
        (i : IsSubmitter) (r : GenerationSubmitRequest) (request : Submit.GenerationSubmitRequest)
        (intent_at : ℕ) (result : GenerationSubmitResult) (w v : World)
        → has_id request.id w.tables.generations ≡ false
        → Admitted over i.ends r request w result v
        → IsPaidOnce w
        → IsPaidOnce (send_call over r intent_at result v).1
    Admitted-IsPaidOnce i r request intent_at result w v fresh (inl (c, e)) p =
        let step : Quiet w (record w { tables = (submit request w.tables).1 }) =
          read-Quiet (submit request) (λ t. next here (submitting request t)) w in
        replayed-IsPaidOnce r intent_at result v c
          (Quiet-IsPaidOnce (subst (Quiet w) (ap (λ x. x.1) e) step) p)
    Admitted-IsPaidOnce i r request intent_at result w v fresh (inr (c, e, a)) p =
        let same =
          sym (admit_keeps r (record w { tables = (submit request w.tables).1 }))
          ∙ ap (λ x. x.1) a in
        subst (λ x. IsPaidOnce (send_call over r intent_at result x).1) same
          (created-IsPaidOnce r request intent_at result w c fresh e p)

    ended-IsPaidOnce :
        (i : IsSubmitter) (r : GenerationSubmitRequest) (request : Submit.GenerationSubmitRequest)
        (intent_at : ℕ) (w : World) (outcome : Res SubmitResult × World)
        → has_id request.id w.tables.generations ≡ false
        → AllOrNothing over i.ends r request intent_at w outcome
        → IsPaidOnce w
        → IsPaidOnce outcome.1
    ended-IsPaidOnce i r request intent_at w outcome fresh (inl (e, q)) p =
        subst (λ x. IsPaidOnce x.1) (sym q) p
    ended-IsPaidOnce i r request intent_at w outcome fresh (inr (result, v, a, q)) p =
        subst (λ x. IsPaidOnce x.1) (sym q)
          (Quiet-IsPaidOnce (answer-Quiet result.created (send_call over r intent_at result v))
            (Admitted-IsPaidOnce i r request intent_at result w v fresh a p))

    exec_keyed-IsPaidOnce :
        (i : IsSubmitter) (r : GenerationSubmitRequest) (key : Bytes) (w : World)
        → IsPaidOnce w
        → IsPaidOnce (exec_keyed over r key w).1
    unfolding submission
    exec_keyed-IsPaidOnce i r key w p =
        let (id, v) = d.new_id w in
        ended-IsPaidOnce i r (submission over r id key (d.traceparent w)) (d.now v) v _ (i.fresh w)
          (exec_keyed-AllOrNothing over i.ends r key w) (Quiet-IsPaidOnce (i.ids w) p)

    pub submit-IsPaidOnce :
        (i : IsSubmitter) (r : GenerationSubmitRequest) (w : World)
        → IsPaidOnce w
        → IsPaidOnce (exec over r w).1
    unfolding exec
    submit-IsPaidOnce i r w p = elim (Option-cases (validate_request over r)) [
      | inr (x, e) ↦ rw (exec, e) p
      | inl e ↦ elim (Res-cases (request_key d.codec r)) [
        | inl (key, f) ↦ rw (exec, e, f) (exec_keyed-IsPaidOnce i r key w p)
        | inr (x, f) ↦ rw (exec, e, f) p
      ]
    ]
