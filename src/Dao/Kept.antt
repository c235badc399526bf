-- ===== src/Dao/Kept.antt =====
-- The identifiers of the table `generations`, over the statements of the program.
use service_genai.Prelude.{Option-cases, inl, inr, ==_refl, find, ℕ, ◌≡◌, Bool, true, false, arith}
use service_genai.Action.{ok}
use service_genai.Dao.Rows.{Generation, Tables}
use service_genai.Dao.Lifecycle.{settle, record_provider_call, request_cancel, update}
use service_genai.Dao.Submit.{
  GenerationSubmitRequest, GenerationSubmitResult, submit, submit_statement, new_row, replays,
}
use service_genai.Dao.Consistency.{
  has_id, IsTame, settle-IsTame, record-IsTame, cancel-IsTame, has_id-updated, generations-update,
}
use service_genai.Dao.Replay.{has_id-found}
use service_genai.Dao.Steps.{
  Step, Reach, here, next, settling, recording, cancelling, submitting, answering, metering,
  ticking, attempt_insert_keeps, usage_insert_keeps,
}

update-has_id :
    {match : Generation → Bool} {change : Generation → Generation} (tame : IsTame match change)
    (id : ℕ) (t : Tables)
    → has_id id t.generations ≡ true
    → has_id id (update match change t).1.generations ≡ true
update-has_id tame id t e = rw (generations-update tame t, has_id-updated tame id t.generations) e

submit-has_id :
    (id : ℕ) (r : GenerationSubmitRequest) (t : Tables)
    → has_id id t.generations ≡ true
    → has_id id (submit r t).1.generations ≡ true
unfolding submit submit_statement new_row
submit-has_id id r t e = ground arith

Step-has_id :
    {t u : Tables} (id : ℕ)
    → Step t u
    → has_id id t.generations ≡ true
    → has_id id u.generations ≡ true
unfolding settle record_provider_call request_cancel
Step-has_id id (settling r t) e = update-has_id (settle-IsTame r t.clock) id t e
Step-has_id id (recording r t) e = update-has_id (record-IsTame r t.clock) id t e
Step-has_id id (cancelling r t) e = update-has_id (cancel-IsTame r t.clock) id t e
Step-has_id id (submitting r t) e = submit-has_id id r t e
Step-has_id id (answering r t) e = rw (attempt_insert_keeps r t) e
Step-has_id id (metering r t) e = rw (usage_insert_keeps r t) e
Step-has_id id (ticking n t) e = e

pub Reach-has_id :
    {t u : Tables} (id : ℕ)
    → Reach t u
    → has_id id t.generations ≡ true
    → has_id id u.generations ≡ true
Reach-has_id id here e = e
Reach-has_id id (next r s) e = Step-has_id id s (Reach-has_id id r e)

-- A submit under a fresh identifier that reports its generation as created has inserted it.
pub submit-created :
    (r : GenerationSubmitRequest) (t : Tables) (result : GenerationSubmitResult)
    → has_id r.id t.generations ≡ false
    → (submit r t).0 ≡ ok result
    → result.created ≡ true
    → (result.generation.id ≡ r.id) × (has_id r.id (submit r t).1.generations ≡ true)
unfolding submit submit_statement new_row
submit-created r t result fresh e c =
    elim (Option-cases (find (replays r.request_key) t.generations)) [
      | inl n ↦ ground (arith, ==_refl r.id)
      | inr (g, f) ↦
          let found = has_id-found (replays r.request_key) t.generations g f in
          ground (arith, found)
    ]
