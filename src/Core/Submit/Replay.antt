-- ===== src/Core/Submit/Replay.antt =====
-- A request that is sent again while a generation holds its key.
use service_genai.Prelude.{
  ℕ, ◌≡◌, ◌⊎◌, inl, inr, true, false, none, some, [], arith, find, if◌then◌else◌, subst,
}
use service_genai.Errors.{Err, Bytes}
use service_genai.Action.{ok, err}
use service_genai.Dao.Rows.{Generation, Tables, checks}
use service_genai.Dao.Submit.{GenerationSubmitResult, submit, new_row, replays}
use service_genai.Dao.Submit
use service_genai.Dao.Reads.{attempt_list, attempts_of}
use service_genai.Dao.Consistency.{has_id}
use service_genai.Dao.Replay.{submit-replays}
use service_genai.Core.Generation.{new_generation, may_have_attempts}
use service_genai.Core.Submit.Request.{GenerationSubmitRequest, SubmitDeps}
use service_genai.Core.Submit.Admission.{Outcome, Ends}
use service_genai.Core.Submit.Exec.{
  SubmitResult, submission, submit_tx, send_call, answer, after_tx, exec_keyed,
}

-- A submit whose generations and answers are those of the tables, with any check and any counts.
abbrev pub recorded_over : {St : Type 0} → SubmitDeps Tables St → SubmitDeps Tables St
recorded_over d = record d { dao = submit; dao_attempt_list = attempt_list }

-- The generation that holds the key, as it stands, with its answers, in the order of the attempts,
-- once it is settled.
abbrev pub replayed : Generation → Tables → SubmitResult
replayed g t = record {
  generation = new_generation g (if may_have_attempts g then attempts_of g.id t.attempts else []);
  created = false;
}

module _ {St : Type 0} (d : SubmitDeps Tables St) (r : GenerationSubmitRequest) where
  abbrev stored : Generation → GenerationSubmitResult
  stored g = record { generation = g; created = false }

  submit_tx-replays :
      (request : Submit.GenerationSubmitRequest) (t : Tables) (g : Generation)
      → submit request t ≡ (ok (stored g), t)
      → submit_tx (recorded_over d) r request t ≡ ((none, ok (stored g)), t)
  unfolding submit_tx
  submit_tx-replays request t g e = ground (arith, e)

  answer-replayed :
      (g : Generation) (t : Tables) → answer (recorded_over d) false (g, t) ≡ (ok (replayed g t), t)
  unfolding answer attempt_list
  answer-replayed g t = ground arith

  -- The end of a submit, of a transaction of a stored generation that committed, or did not.
  after_tx-replays :
      (intent_at : ℕ) (g : Generation) (t : Tables) (outcome : Outcome × Tables)
      → Ends ((none, ok (stored g)), t) t outcome
      → let ended = after_tx (recorded_over d) r intent_at outcome.0.0 outcome.0.1 outcome.1 in
        (ended ≡ (ok (replayed g t), t)) ⊎ ((e : Err) × (ended ≡ (err e, t)))
  unfolding after_tx send_call
  after_tx-replays intent_at g t ((none, ok result), u) e = inl (
      subst
        (λ (x : Outcome × Tables).
          after_tx (recorded_over d) r intent_at x.0.0 x.0.1 x.1 ≡ (ok (replayed g t), t))
        e (answer-replayed g t))
  after_tx-replays intent_at g t ((some refusal, ok result), u) e = absurd (cc e)
  after_tx-replays intent_at g t ((none, err x), u) e = inr (x, ground (arith, e.1))
  after_tx-replays intent_at g t ((some refusal, err x), u) e = absurd (cc e.0)

  -- Over transactions that keep PostgreSQL's promise, and identifiers that cost the rows nothing: a submit
  -- with a fresh identifier and values that meet the CHECKs, while a generation holds its key, answers
  -- that generation with its answers, in the order of the attempts, and that nothing was created, or fails. Either way the tables are as
  -- they were, whatever a check would do to them.
  pub exec_keyed-replays :
      (tx : (f : Tables → Outcome × Tables) (t : Tables) → Ends (f t) t (d.within_tx f t))
      (key : Bytes) (id : ℕ) (t : Tables) (g : Generation)
      → let request = submission (recorded_over d) r id key (d.traceparent t) in
        d.new_id t ≡ (id, t)
        → checks (new_row request t.clock) ≡ true
        → has_id request.id t.generations ≡ false
        → find (replays request.request_key) t.generations ≡ some g
        → (exec_keyed (recorded_over d) r key t ≡ (ok (replayed g t), t))
          ⊎ ((e : Err) × (exec_keyed (recorded_over d) r key t ≡ (err e, t)))
  unfolding exec_keyed
  exec_keyed-replays tx key id t g fresh_id valid fresh held =
      let request = submission (recorded_over d) r id key (d.traceparent t) in
      let f = submit_tx (recorded_over d) r request in
      let inner = submit_tx-replays request t g (submit-replays request t g valid fresh held) in
      let ends : Ends ((none, ok (stored g)), t) t (d.within_tx f t) =
        subst (λ (x : Outcome × Tables). Ends x t (d.within_tx f t)) inner (tx f t) in
      rw fresh_id (after_tx-replays (d.now t) g t (d.within_tx f t) ends)
