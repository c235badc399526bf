-- ===== src/Core/Submit/Admission.antt =====
-- `GenerationSubmit.Exec`: recording and admission commit together, or the submit fails and sends
-- nothing.
use service_genai.Prelude.{
  subst, ℕ, ◌≡◌, ◌⊎◌, inl, inr, refl, true, false, Option, none, some, arith, Bool-cases,
}
use service_genai.Errors.{Err, Bytes, wraps, usage_cap_reached}
use service_genai.Action.{Res, ok, err}
use service_genai.Dao.Submit.{GenerationSubmitResult}
use service_genai.Dao.Submit
use service_genai.Core.Submit.Request.{GenerationSubmitRequest, SubmitDeps}
use service_genai.Core.Submit.Admit.{admit}
use service_genai.Core.Submit.Exec.{
  SubmitResult, submission, submit_tx, send_call, answer, after_tx, exec_keyed,
}

abbrev pub Outcome : Type 0
Outcome = Option Err × Res GenerationSubmitResult

-- What PostgreSQL promises of a transaction: it commits what its function did, or leaves the state as
-- it was. A commit may fail. The variable that the function assigned is the caller's.
abbrev pub Ends : {S : Type 0} → Outcome × S → S → Outcome × S → Type 0
Ends inner s ((refusal, ok result), s') = inner ≡ ((refusal, ok result), s')
Ends inner s ((refusal, err e), s') = (inner.0.0 ≡ refusal) × (s' ≡ s)

module _ {S St : Type 0} (d : SubmitDeps S St)
    (tx : (f : S → Outcome × S) (s : S) → Ends (f s) s (d.within_tx f s)) where
  -- A generation that is recorded, and admitted when the submit created it.
  abbrev pub Admitted :
      GenerationSubmitRequest
      → Submit.GenerationSubmitRequest
      → S
      → GenerationSubmitResult
      → S
      → Type 0
  Admitted r request s result s' =
      ((result.created ≡ false) × (d.dao request s ≡ (ok result, s')))
      ⊎ ((result.created ≡ true)
          × ((d.dao request s).0 ≡ ok result)
          × (admit d r (d.dao request s).1 ≡ (ok tt, s')))

  -- What a function of the transaction that returns no error has done.
  abbrev Passed :
      GenerationSubmitRequest → Submit.GenerationSubmitRequest → S → Outcome × S → Type 0
  Passed r request s ((refusal, err e), s') = Unit
  Passed r request s ((refusal, ok result), s') = (refusal ≡ none) × Admitted r request s result s'

  submit_tx-Passed :
      (r : GenerationSubmitRequest) (request : Submit.GenerationSubmitRequest) (s : S)
      → Passed r request s (submit_tx d r request s)
  unfolding submit_tx
  submit_tx-Passed r request s = ground arith

  -- The submit of a request with its key: it failed, or it went on with an admitted generation.
  abbrev pub AllOrNothing :
      GenerationSubmitRequest
      → Submit.GenerationSubmitRequest
      → ℕ
      → S
      → Res SubmitResult × S
      → Type 0
  AllOrNothing r request intent_at s outcome =
      ((e : Err) × (outcome ≡ (err e, s)))
      ⊎ ((result : GenerationSubmitResult) × (s' : S) × Admitted r request s result s'
          × (outcome ≡ answer d result.created (send_call d r intent_at result s')))

  after_tx-AllOrNothing :
      (r : GenerationSubmitRequest) (request : Submit.GenerationSubmitRequest) (intent_at : ℕ)
      (s : S) (inner outcome : Outcome × S)
      → Passed r request s inner
      → Ends inner s outcome
      → AllOrNothing r request intent_at s
          (after_tx d r intent_at outcome.0.0 outcome.0.1 outcome.1)
  unfolding after_tx
  after_tx-AllOrNothing r request intent_at s inner ((none, ok result), s') p e =
      inr (result, s', (subst (Passed r request s) e p).1, refl)
  after_tx-AllOrNothing r request intent_at s inner ((some refusal, ok result), s') p e =
      let passed = subst (Passed r request s) e p in absurd (cc passed.0)
  after_tx-AllOrNothing r request intent_at s inner ((none, err e'), s') p e = inl (e', cc e.1)
  after_tx-AllOrNothing r request intent_at s inner ((some refusal, err e'), s') p e =
      elim (Bool-cases (wraps usage_cap_reached refusal)) [
        | inl c ↦ rw c (inl (refusal, cc e.1))
        | inr c ↦ rw c (inl (e', cc e.1))
      ]

  -- Over transactions that keep PostgreSQL's promise, a submit fails and leaves the state as it was before the transaction, or its generation is
  -- recorded, and admitted if the submit created it, before its call goes out.
  pub exec_keyed-AllOrNothing :
      (r : GenerationSubmitRequest) (key : Bytes) (s : S)
      → let (id, s') = d.new_id s in
        AllOrNothing r
          (submission d r id key (d.traceparent s))
          (d.now s')
          s'
          (exec_keyed d r key s)
  unfolding exec_keyed
  exec_keyed-AllOrNothing r key s =
      let (id, s') = d.new_id s in
      let request = submission d r id key (d.traceparent s) in
      after_tx-AllOrNothing r request (d.now s') s' (submit_tx d r request s')
        (d.within_tx (submit_tx d r request) s') (submit_tx-Passed r request s')
        (tx (submit_tx d r request) s')

  -- Over such transactions, a refusal by a cap is the answer of the submit as admission wrote it, and leaves the state as it
  -- was before the transaction: the generation is not recorded, and nothing is sent.
  pub exec_keyed-refused :
      (r : GenerationSubmitRequest) (key : Bytes) (s s'' : S) (refusal : Err)
      → let (id, s') = d.new_id s in
        submit_tx d r (submission d r id key (d.traceparent s)) s'
          ≡ ((some refusal, err refusal), s'')
        → wraps usage_cap_reached refusal ≡ true
        → exec_keyed d r key s ≡ (err refusal, s')
  unfolding exec_keyed after_tx
  exec_keyed-refused r key s s'' refusal e c =
      let (id, s') = d.new_id s in
      let request = submission d r id key (d.traceparent s) in
      ground (arith, tx (submit_tx d r request) s')
