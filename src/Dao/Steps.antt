-- ===== src/Dao/Steps.antt =====
-- Every sequence of statements that the program sends to the table of generations, from any number
-- of processes: PostgreSQL runs each statement as one step. The purge, which only deletes expired
-- rows, is not among them.
use service_genai.Prelude.{ℕ, ◌+◌, ◌≡◌, false, some, arith}
use service_genai.Dao.Rows.{Generation, Tables, is_live}
use service_genai.Dao.Lifecycle.{
  GenerationSettleRequest, GenerationRecordProviderCallRequest, GenerationRequestCancelRequest,
  settle, record_provider_call, request_cancel,
}
use service_genai.Dao.Submit.{GenerationSubmitRequest, submit}
use service_genai.Dao.Records.{
  GenerationAttemptInsertRequest, GenerationUsageInsertRequest, attempt_insert, usage_insert,
  attempt_statement, usage_statement,
}
use service_genai.Dao.Consistency.{
  IsConsistent, row_of, update-IsConsistent, row_of-update, settle-IsTame, record-IsTame,
  cancel-IsTame, submit-IsConsistent, row_of-submit,
}

-- One statement, or the passing of time.
pub data Step : Tables → Tables → Type 0 where
  settling : (r : GenerationSettleRequest) (t : Tables) → Step t (settle r t).1
  recording :
      (r : GenerationRecordProviderCallRequest) (t : Tables) → Step t (record_provider_call r t).1
  cancelling : (r : GenerationRequestCancelRequest) (t : Tables) → Step t (request_cancel r t).1
  submitting : (r : GenerationSubmitRequest) (t : Tables) → Step t (submit r t).1
  answering : (r : GenerationAttemptInsertRequest) (t : Tables) → Step t (attempt_insert r t).1
  metering : (r : GenerationUsageInsertRequest) (t : Tables) → Step t (usage_insert r t).1
  ticking : (n : ℕ) (t : Tables) → Step t (record t { clock = t.clock + n })

pub data Reach (t : Tables) : Tables → Type 0 where
  here : Reach t t
  next : {u v : Tables} → Reach t u → Step u v → Reach t v

pub attempt_insert_keeps :
    (r : GenerationAttemptInsertRequest) (t : Tables)
    → (attempt_insert r t).1.generations ≡ t.generations
unfolding attempt_insert attempt_statement
attempt_insert_keeps r t = ground arith

pub usage_insert_keeps :
    (r : GenerationUsageInsertRequest) (t : Tables)
    → (usage_insert r t).1.generations ≡ t.generations
unfolding usage_insert usage_statement
usage_insert_keeps r t = ground arith

IsConsistent-generations :
    {t u : Tables} → u.generations ≡ t.generations → IsConsistent t → IsConsistent u
IsConsistent-generations e c = record {
  checked = rw e c.checked;
  ids = rw e c.ids;
  keys = rw e c.keys;
}

Step-IsConsistent : {t u : Tables} → Step t u → IsConsistent t → IsConsistent u
unfolding settle record_provider_call request_cancel
Step-IsConsistent (settling r t) c = update-IsConsistent (settle-IsTame r t.clock) c
Step-IsConsistent (recording r t) c = update-IsConsistent (record-IsTame r t.clock) c
Step-IsConsistent (cancelling r t) c = update-IsConsistent (cancel-IsTame r t.clock) c
Step-IsConsistent (submitting r t) c = submit-IsConsistent r c
Step-IsConsistent (answering r t) c = IsConsistent-generations (attempt_insert_keeps r t) c
Step-IsConsistent (metering r t) c = IsConsistent-generations (usage_insert_keeps r t) c
Step-IsConsistent (ticking n t) c = record { checked = c.checked; ids = c.ids; keys = c.keys }

-- Whatever statements run, in whatever order, the table stays consistent: every row meets its CHECK
-- constraints, no identifier stands twice, and no request key is held by two rows that are pending,
-- running or succeeded.
pub Reach-IsConsistent : {t u : Tables} → Reach t u → IsConsistent t → IsConsistent u
Reach-IsConsistent here c = c
Reach-IsConsistent (next r st) c = Step-IsConsistent st (Reach-IsConsistent r c)

Step-keeps_settled :
    {t u : Tables}
    → Step t u
    → (id : ℕ) (g : Generation) → row_of id t.generations ≡ some g
    → is_live g.status ≡ false
    → row_of id u.generations ≡ some g
unfolding settle record_provider_call request_cancel
Step-keeps_settled (settling r t) id g e dead = row_of-update (settle-IsTame r t.clock) id t e dead
Step-keeps_settled (recording r t) id g e dead = row_of-update (record-IsTame r t.clock) id t e dead
Step-keeps_settled (cancelling r t) id g e dead =
    row_of-update (cancel-IsTame r t.clock) id t e dead
Step-keeps_settled (submitting r t) id g e dead = row_of-submit id r t e
Step-keeps_settled (answering r t) id g e dead = rw (attempt_insert_keeps r t) e
Step-keeps_settled (metering r t) id g e dead = rw (usage_insert_keeps r t) e
Step-keeps_settled (ticking n t) id g e dead = e

-- A settled generation is final: whatever statements run afterwards, in whatever order, its row is
-- the same in every column.
pub Reach-keeps_settled :
    {t u : Tables} (id : ℕ) (g : Generation)
    → Reach t u
    → row_of id t.generations ≡ some g
    → is_live g.status ≡ false
    → row_of id u.generations ≡ some g
Reach-keeps_settled id g here e dead = e
Reach-keeps_settled id g (next r st) e dead =
    Step-keeps_settled st id g (Reach-keeps_settled id g r e dead) dead
