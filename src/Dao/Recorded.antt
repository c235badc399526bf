-- ===== src/Dao/Recorded.antt =====
-- The tables `generation_usage` and `generation_attempts`, over any sequence of statements.
pub mod Once
use service_genai.Prelude.{
  ℕ, suc, ◌≤◌, ◌≡◌, refl, Bool, true, false, ◌&&◌, some, List, [], ◌∷◌, arith, ◌==◌, length, select,
  find, any, All, Bool-cases, inl, inr, ◌⊎◌, sym, ◌+◌, subst,
}
use service_genai.Dao.Rows.{Generation, GenerationAttempt, GenerationUsage, Tables}
use service_genai.Dao.Lifecycle.{
  settle, record_provider_call, request_cancel, update, update_rows, settle_match, settle_set,
  record_match, record_set, cancel_match, cancel_set,
}
use service_genai.Dao.Submit.{GenerationSubmitRequest, submit, submit_statement}
use service_genai.Dao.Records.{
  GenerationAttemptInsertRequest, GenerationUsageInsertRequest, attempt_insert, usage_insert,
  attempt_statement, usage_statement, usage_checks, usage_row,
}
use service_genai.Dao.Steps.{
  Step, Reach, here, next, settling, recording, cancelling, submitting, answering, metering,
  ticking,
}
use service_genai.Dao.Recorded.Once.{
  rows_of, IsOnce, Inserts, Inserts-IsOnce, Inserts-keeps, Inserts-refl,
}

abbrev pub usage_rows : ℕ → List GenerationUsage → List GenerationUsage
usage_rows = rows_of (λ u. u.generation_id) (λ u. u.attempt)

abbrev pub answer_rows : ℕ → List GenerationAttempt → List GenerationAttempt
answer_rows = rows_of (λ a. a.generation_id) (λ a. a.attempt)

-- The primary keys of the two tables, of which every row has attempt 1.
pub record IsRecorded (t : Tables) : Type 0 where
  pub usage : IsOnce (λ u. u.generation_id) (λ u. u.attempt) t.usage
  pub answers : IsOnce (λ a. a.generation_id) (λ a. a.attempt) t.attempts

abbrev Adds : Tables → Tables → Type 0
Adds t u =
    Inserts (λ u. u.generation_id) (λ u. u.attempt) t.usage u.usage
    × Inserts (λ a. a.generation_id) (λ a. a.attempt) t.attempts u.attempts

Same-Adds : (t u : Tables) → u.usage ≡ t.usage → u.attempts ≡ t.attempts → Adds t u
Same-Adds t u e f = (
  subst (λ x. Inserts (λ u. u.generation_id) (λ u. u.attempt) t.usage x) (sym e)
      (Inserts-refl (λ u. u.generation_id) (λ u. u.attempt) t.usage),
  subst (λ x. Inserts (λ a. a.generation_id) (λ a. a.attempt) t.attempts x) (sym f)
      (Inserts-refl (λ a. a.generation_id) (λ a. a.attempt) t.attempts),
)

update-Adds :
    (match : Generation → Bool) (change : Generation → Generation) (t : Tables)
    → Adds t (update match change t).1
unfolding update
update-Adds match change t = Same-Adds t (update match change t).1 (ground arith) (ground arith)

submit-Adds : (r : GenerationSubmitRequest) (t : Tables) → Adds t (submit r t).1
unfolding submit submit_statement
submit-Adds r t = Same-Adds t (submit r t).1 (ground arith) (ground arith)

usage_insert-Adds : (r : GenerationUsageInsertRequest) (t : Tables) → Adds t (usage_insert r t).1
unfolding usage_insert usage_statement
usage_insert-Adds r t =
    let same : Adds t t = Same-Adds t t refl refl in
    elim (Bool-cases (usage_checks (usage_row r t.clock))) [
      | inr c ↦ rw (usage_insert, usage_statement, c) same
      | inl c ↦
          elim (Bool-cases
            (any (λ u. u.generation_id == r.generation_id && u.attempt == 1) t.usage)) [
              | inl n ↦ rw (usage_insert, usage_statement, c, n) same
              | inr n ↦ rw (usage_insert, usage_statement, c, n) (inr (refl, refl, n), same.1)
            ]
    ]

attempt_insert-Adds :
    (r : GenerationAttemptInsertRequest) (t : Tables) → Adds t (attempt_insert r t).1
unfolding attempt_insert attempt_statement
attempt_insert-Adds r t =
    let same : Adds t t = Same-Adds t t refl refl in
    elim (Bool-cases (any (λ a. a.generation_id == r.generation_id && a.attempt == 1) t.attempts)) [
      | inl n ↦ rw (attempt_insert, attempt_statement, n) same
      | inr n ↦ elim (Bool-cases (any (λ g. g.id == r.generation_id) t.generations)) [
        | inr c ↦ rw (attempt_insert, attempt_statement, n, c) same
        | inl c ↦ rw (attempt_insert, attempt_statement, n, c) (same.0, inr (refl, refl, n))
      ]
    ]

Step-Adds : {t u : Tables} → Step t u → Adds t u
unfolding settle record_provider_call request_cancel
Step-Adds (settling r t) = update-Adds (settle_match r) (settle_set r t.clock) t
Step-Adds (recording r t) = update-Adds (record_match r) (record_set r t.clock) t
Step-Adds (cancelling r t) = update-Adds (cancel_match r) (cancel_set r t.clock) t
Step-Adds (submitting r t) = submit-Adds r t
Step-Adds (answering r t) = attempt_insert-Adds r t
Step-Adds (metering r t) = usage_insert-Adds r t
Step-Adds (ticking n t) = Same-Adds t (record t { clock = t.clock + n }) refl refl

Reach-IsRecorded : {t u : Tables} → Reach t u → IsRecorded t → IsRecorded u
Reach-IsRecorded here i = i
Reach-IsRecorded (next {u = v} {v = u} r s) i =
    let j = Reach-IsRecorded r i in
    record {
      usage = Inserts-IsOnce _ _ v.usage u.usage (Step-Adds s).0 j.usage;
      answers = Inserts-IsOnce _ _ v.attempts u.attempts (Step-Adds s).1 j.answers;
    }

Reach-keeps_usage :
    {t u : Tables} (id : ℕ) (x : GenerationUsage)
    → Reach t u
    → IsRecorded t
    → usage_rows id t.usage ≡ x ∷ []
    → usage_rows id u.usage ≡ x ∷ []
Reach-keeps_usage id x here i e = e
Reach-keeps_usage id x (next {u = v} {v = u} r s) i e =
    Inserts-keeps _ _ id x v.usage u.usage (Step-Adds s).0 (Reach-IsRecorded r i).usage
      (Reach-keeps_usage id x r i e)

-- Where each generation has one usage row at most and one answer at most, both of attempt 1, that holds
-- after any sequence of statements, and the usage of a generation that was metered is that same one row
-- from then on.
pub Reach-meters_once :
    {t u : Tables} (id : ℕ) (x : GenerationUsage)
    → Reach t u
    → IsRecorded t
    → usage_rows id t.usage ≡ x ∷ []
    → IsRecorded u × (usage_rows id u.usage ≡ x ∷ [])
Reach-meters_once id x r i e = (Reach-IsRecorded r i, Reach-keeps_usage id x r i e)
