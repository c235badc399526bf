-- ===== src/Core/Queue.antt =====
-- `GenerationQueueDepth`, internal/core/generationQueueDepth.go, with pg.generationQueueDepth. The age
-- is in nanoseconds throughout: the floating-point seconds between the two are left out.
use service_genai.Prelude.{ℕ, ◌-◌, min, Option, none, some, List, [], ◌∷◌, length, select}
use service_genai.Action.{Action, ok, wrapped}
use service_genai.Dao.Rows.{Generation, Tables, is_pending}

pub record GenerationQueueDepth : Type 0 where
  pub pending : ℕ
  pub oldest_pending_age : ℕ

-- `min(created_at)`
unfoldable pub oldest_created : List Generation → Option ℕ
oldest_created [] = none
oldest_created (g ∷ gs) =
    some (elim (oldest_created gs) [ none ↦ g.created_at | some b ↦ min b g.created_at ])

abbrev age : ℕ → Option ℕ → ℕ
age now none = 0
age now (some created) = now - created

-- `PgGenerationQueueDepth.Exec`: an age below 0 is 0, and so is that of an empty queue.
unfoldable pub queue_depth : Action Tables GenerationQueueDepth
queue_depth t =
    let waiting = select (λ (g : Generation). is_pending g.status) t.generations in
    (
      ok (record {
        pending = length waiting;
        oldest_pending_age = age t.clock (oldest_created waiting);
      }),
      t,
    )

-- `GenerationQueueDepth.Exec`
unfoldable pub exec : {S : Type 0} → Action S GenerationQueueDepth → Action S GenerationQueueDepth
exec dao s = wrapped "read queue depth: " (dao s)
