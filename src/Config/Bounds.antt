-- ===== src/Config/Bounds.antt =====
-- What a validated configuration holds, and how many checks a sweep runs at once.
use service_genai.Prelude.{◌≡◌, ◌↔◌, none, arith}
use service_genai.Prelude.Int.{ℤ, pos, ◌≤ℤ◌, ◌+ℤ◌}
use service_genai.Config.{
  App, validate, sweep_concurrency, unknown_outcome_hold, sweep_interval_ceiling,
}

-- A configuration passes exactly when the retention outlasts the hold of an unknown outcome, the sweep
-- runs at least every five minutes and not continuously, a batch holds 1 to 100 generations, and at
-- least one check runs at once.
pub validate-none :
    (app : App)
    → (validate app ≡ none) ↔ (
        (unknown_outcome_hold ≤ℤ app.retention)
        × (pos 1 ≤ℤ app.sweep_interval)
        × (app.sweep_interval ≤ℤ sweep_interval_ceiling)
        × (pos 1 ≤ℤ app.sweep_batch_size)
        × (app.sweep_batch_size ≤ℤ pos 100)
        × (pos 1 ≤ℤ app.sweep_concurrency))
unfolding validate
validate-none app = (λ h. ground arith, λ h. ground arith)

-- Whatever the size of the connection pool, a sweep runs 1 to 8 checks at once, and it leaves a
-- connection free in a pool of two or more.
pub sweep_concurrency_bounds :
    (conns : ℤ)
    → (pos 1 ≤ℤ sweep_concurrency conns)
      × (sweep_concurrency conns ≤ℤ pos 8)
      × (pos 2 ≤ℤ conns → sweep_concurrency conns +ℤ pos 1 ≤ℤ conns)
unfolding sweep_concurrency ◌+ℤ◌
sweep_concurrency_bounds conns = ground arith
