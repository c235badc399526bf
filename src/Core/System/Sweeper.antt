-- ===== src/Core/System/Sweeper.antt =====
-- What a sweep does to the tables.
use service_genai.Prelude.{ℕ, Option, none}
use service_genai.Action.{Action}
use service_genai.Dao.Rows
use service_genai.Dao.Rows.{Tables, GenerationAttempt, is_live}
use service_genai.Dao.Reads.{GenerationSweepRequest, sweep}
use service_genai.Dao.Steps.{Reach, here}
use service_genai.Core.Check.Deps.{CheckRequest}
use service_genai.Core.Sweep.{
  SweepDeps, dispatch, sweep_batch, sweep_loop, last_id, last_start_of, may_start,
}
use service_genai.Core.Sweep
use service_genai.Core.System.Over.{sweep_over}
use service_genai.Core.System.Along.{Runs, sweep-along}
use service_genai.Core.System.Requests.{Reach-IsOrder}

-- A check over the tables, which every service shares.
module _ (check : CheckRequest → Action Tables Rows.Generation)
    (checks : (r : CheckRequest) → Runs Reach (check r)) where
  module _ {L : Type 0} (d : SweepDeps Tables L) where
    -- What a sweep relies on: the role and the slots cost the rows nothing of their own.
    pub record IsSweeper : Type 0 where
      pub locks : (t : Tables) → Reach t (d.dao_lock t).1
      pub unlocks : (role : L) (t : Tables) → Reach t (d.dao_unlock role t)
      pub slots : (t : Tables) → Reach t (d.slot t).1
      pub releases : (t : Tables) → Reach t (d.release t)

    pages-Runs : (r : GenerationSweepRequest) → Runs Reach (sweep r)
    unfolding sweep
    pages-Runs r t = here

    pub sweep-Runs :
        (w : IsSweeper) (fuel : ℕ) (deadline : Option ℕ)
        → Runs Reach (Sweep.exec (sweep_over check d) fuel deadline)
    sweep-Runs w = sweep-along Reach-IsOrder (sweep_over check d) (record {
      pages = pages-Runs;
      locks = w.locks;
      unlocks = w.unlocks;
      checks = λ g. checks (record { generation = g; start = none });
      slots = w.slots;
      releases = w.releases;
    })
