-- ===== src/Core/System/Capped/Submitter.antt =====
-- The cap over a submit.
use service_genai.Prelude.{
  ℕ, ◌≤◌, ◌≡◌, refl, sym, subst, ap, ◌∙◌, String, Bool, true, false, ◌&&◌, Bool-cases, some, arith,
  ◌==◌, ==_iff, str_eq, eq_iff, Option-cases, inl, inr,
}
use service_genai.Errors.{Bytes}
use service_genai.Action.{Action, Res, Res-cases, ok}
use service_genai.Dao.Rows
use service_genai.Dao.Rows.{Tables}
use service_genai.Dao.Reads.{attempt_list, usage_sum, count_live}
use service_genai.Dao.Submit.{GenerationSubmitResult, submit}
use service_genai.Dao.Submit
use service_genai.Dao.InFlight.{in_flight, in_flight-submit, submit-replayed}
use service_genai.Core.Check.Deps.{CheckRequest}
use service_genai.Core.Submit.Request.{GenerationSubmitRequest, SubmitDeps}
use service_genai.Core.Submit.Admit.{admit, admit_concurrency, admit_windows, caps_of}
use service_genai.Core.Submit.Exec.{
  SubmitResult, submission, send_call, answer, exec_keyed, exec, validate_request,
}
use service_genai.Core.Submit.Key.{request_key}
use service_genai.Core.Submit.Admission.{
  Outcome, Ends, Admitted, AllOrNothing, exec_keyed-AllOrNothing,
}
use service_genai.Core.System.Along.{Runs}
use service_genai.Core.System.Over.{submit_over}
use service_genai.Core.System.Capped.Cap.{quota, IsWithin, Keeps, fewer-Keeps, IsCapped}

module _ (owner_id : ℕ) (purpose : String) (cap : ℕ)
    (check : CheckRequest → Action Tables Rows.Generation)
    (keeps : (r : CheckRequest) → Runs (Keeps owner_id purpose cap) (check r)) where
  module _ {St : Type 0} (d : SubmitDeps Tables St) where
    -- What a submit relies on: PostgreSQL's transactions, and identifiers that cost the rows nothing.
    pub record IsCappedSubmitter : Type 0 where
      pub ends : (f : Tables → Outcome × Tables) (t : Tables) → Ends (f t) t (d.within_tx f t)
      pub ids : (t : Tables) → Keeps owner_id purpose cap t (d.new_id t).1

    admit_keeps :
        (r : GenerationSubmitRequest) (t : Tables) → (admit (submit_over check d) r t).1 ≡ t
    unfolding admit admit_concurrency admit_windows count_live usage_sum
    admit_keeps r t = ground arith

    -- Admission lets at most the request's concurrency in flight.
    admitted_lem :
        (r : GenerationSubmitRequest) (n : ℕ) (t : Tables)
        → (caps_of r.caps).concurrency ≡ some n
        → (admit (submit_over check d) r t).0 ≡ ok tt
        → in_flight (quota r.owner_id r.purpose) t ≤ n
    unfolding admit admit_concurrency count_live
    admitted_lem r n t c e = ground (arith, c, e)

    same_quota_lem :
        (r : GenerationSubmitRequest)
        → (r.owner_id == owner_id && str_eq r.purpose purpose) ≡ true
        → quota r.owner_id r.purpose ≡ quota owner_id purpose
    same_quota_lem r e =
        let o : (r.owner_id == owner_id) ≡ true = ground (arith, e) in
        let p : str_eq r.purpose purpose ≡ true = ground (arith, e) in
        cc ((==_iff r.owner_id owner_id).0 o, (eq_iff r.purpose purpose).0 p)

    created-Keeps :
        (r : GenerationSubmitRequest) (request : Submit.GenerationSubmitRequest) (t v : Tables)
        → request.owner_id ≡ r.owner_id
        → request.purpose ≡ r.purpose
        → IsCapped owner_id purpose cap r
        → admit (submit_over check d) r (submit request t).1 ≡ (ok tt, v)
        → Keeps owner_id purpose cap t v
    created-Keeps r request t v o q capped a p =
        let u = (submit request t).1 in
        let same : u ≡ v = sym (admit_keeps r u) ∙ ap (λ x. x.1) a in
        elim (Bool-cases (r.owner_id == owner_id && str_eq r.purpose purpose)) [
          | inl e ↦
              let (n, c, most) = capped e in
              let fits = admitted_lem r n u c (ap (λ x. x.0) a) in
              let counted = subst (λ k. in_flight k u ≤ n) (same_quota_lem r e) fits in
              subst (IsWithin owner_id purpose cap) same (omega (arith, counted, most))
          | inr e ↦
              let other =
                subst (λ m. (m == owner_id && str_eq request.purpose purpose) ≡ false) (sym o)
                  (subst (λ m. (r.owner_id == owner_id && str_eq m purpose) ≡ false) (sym q) e) in
              subst (IsWithin owner_id purpose cap) same (
                fewer-Keeps owner_id purpose cap t u
                  (in_flight-submit (quota owner_id purpose) request t other) p)
        ]

    Admitted-Keeps :
        (i : IsCappedSubmitter) (r : GenerationSubmitRequest)
        (request : Submit.GenerationSubmitRequest) (result : GenerationSubmitResult) (t v : Tables)
        → request.owner_id ≡ r.owner_id
        → request.purpose ≡ r.purpose
        → IsCapped owner_id purpose cap r
        → Admitted (submit_over check d) i.ends r request t result v
        → Keeps owner_id purpose cap t v
    Admitted-Keeps i r request result t v o q capped (inl (c, e)) p =
        subst (IsWithin owner_id purpose cap) (sym (submit-replayed request t v result e c)) p
    Admitted-Keeps i r request result t v o q capped (inr (c, e, a)) p =
        created-Keeps r request t v o q capped a p

    send_call-Keeps :
        (r : GenerationSubmitRequest) (intent_at : ℕ) (result : GenerationSubmitResult) (t : Tables)
        → Keeps owner_id purpose cap t (send_call (submit_over check d) r intent_at result t).1
    unfolding send_call
    send_call-Keeps r intent_at result t p =
        let sent =
          keeps
            (record {
              generation = result.generation;
              start = some (record { payload = r.payload; intent_at = intent_at });
            })
            t p in
        ground (arith, sent, p)

    answer-Keeps :
        (created : Bool) (x : Rows.Generation × Tables)
        → Keeps owner_id purpose cap x.1 (answer (submit_over check d) created x).1
    unfolding answer attempt_list
    answer-Keeps created (g, t) p = ground (arith, p)

    ended-Keeps :
        (i : IsCappedSubmitter) (r : GenerationSubmitRequest)
        (request : Submit.GenerationSubmitRequest) (intent_at : ℕ) (t : Tables)
        (outcome : Res SubmitResult × Tables)
        → request.owner_id ≡ r.owner_id
        → request.purpose ≡ r.purpose
        → IsCapped owner_id purpose cap r
        → AllOrNothing (submit_over check d) i.ends r request intent_at t outcome
        → Keeps owner_id purpose cap t outcome.1
    ended-Keeps i r request intent_at t outcome o q capped (inl (e, same)) p =
        subst (λ x. (IsWithin owner_id purpose cap) x.1) (sym same) p
    ended-Keeps i r request intent_at t outcome o q capped (inr (result, v, a, same)) p =
        subst (λ x. (IsWithin owner_id purpose cap) x.1) (sym same)
          (answer-Keeps result.created (send_call (submit_over check d) r intent_at result v) (
            send_call-Keeps r intent_at result v
              (Admitted-Keeps i r request result t v o q capped a p)))

    exec_keyed-Keeps :
        (i : IsCappedSubmitter) (r : GenerationSubmitRequest) (key : Bytes)
        → IsCapped owner_id purpose cap r
        → Runs (Keeps owner_id purpose cap) (exec_keyed (submit_over check d) r key)
    unfolding submission
    exec_keyed-Keeps i r key capped t p =
        let (id, u) = d.new_id t in
        ended-Keeps i r (submission (submit_over check d) r id key (d.traceparent t)) (d.now u) u
          (exec_keyed (submit_over check d) r key t) refl refl capped
          (exec_keyed-AllOrNothing (submit_over check d) i.ends r key t) (i.ids t p)

    pub submit-Keeps :
        (i : IsCappedSubmitter) (r : GenerationSubmitRequest)
        → IsCapped owner_id purpose cap r
        → Runs (Keeps owner_id purpose cap) (exec (submit_over check d) r)
    unfolding exec
    submit-Keeps i r capped t p = elim (Option-cases (validate_request (submit_over check d) r)) [
      | inr (x, e) ↦ rw (exec, e) p
      | inl e ↦ elim (Res-cases (request_key d.codec r)) [
        | inl (key, f) ↦ rw (exec, e, f) (exec_keyed-Keeps i r key capped t p)
        | inr (x, f) ↦ rw (exec, e, f) p
      ]
    ]
