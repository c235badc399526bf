-- ===== src/Core/Sweep.antt =====
-- `GenerationSweep`, internal/core/generationSweep.go. The checks of a batch run one after another
-- here; in the program up to `Concurrency` of them overlap.
pub mod Order
pub mod Steady
pub mod Complete
pub mod Deadline
pub mod Slots
pub mod Overlap
mod Tests
use service_genai.Prelude.{
  ℕ, zero, suc, ◌+◌, ◌-◌, Bool, true, not, ◌||◌, Option, none, some, List, [], ◌∷◌, if◌then◌else◌,
  ltb, length,
}
use service_genai.Errors.{wraps, sentinel, plain, prefixed, sweep_locked, deadline_too_short}
use service_genai.Action.{Action, Res, ok, err}
use service_genai.Dao.Rows.{Generation}
use service_genai.Dao.Reads.{GenerationSweepRequest}
use service_genai.Core.Check.Deps.{CheckRequest}
use service_genai.Core.Check.Outcome.{check_timeout}

-- What `NewGenerationSweep` takes, over a state `S`, with a lock of type `L`. `ended` is
-- `ctx.Err() != nil`, and `slot` the select on a free slot and the end of the context: false when
-- the context ended first. A check's result and its panic are dropped.
pub record SweepDeps (S L : Type 0) : Type 0 where
  pub dao : GenerationSweepRequest → Action S (List Generation)
  pub dao_lock : Action S L
  pub dao_unlock : L → S → S
  pub service_check : CheckRequest → S → S
  pub batch_size : ℕ
  pub now : S → ℕ
  pub ended : S → Bool
  pub slot : S → Bool × S
  pub release : S → S

-- `mayStart`; `none` is the zero time, which sets no bound.
unfoldable pub may_start : Option ℕ → ℕ → Bool
may_start none now = true
may_start (some last_start) now = ltb now last_start

-- The time past which no check starts, from the deadline of the call's context.
unfoldable pub last_start_of : Option ℕ → Option ℕ
last_start_of none = none
last_start_of (some deadline) = some (deadline - check_timeout)

-- The last item of a page that follows `after`.
unfoldable pub last_id : ℕ → List Generation → ℕ
last_id after [] = after
last_id after (g ∷ gs) = last_id g.id gs

module _ {S L : Type 0} (d : SweepDeps S L) where
  -- `checkOne`, and the slot given back at its end.
  abbrev check_one : Generation → S → S
  check_one g s = d.release (d.service_check (record { generation = g; start = none }) s)

  -- The loop `dispatch`: each generation waits for a slot, and the loop stops once the context ends
  -- or no check may start any more.
  unfoldable pub dispatch : Option ℕ → List Generation → S → S
  dispatch last_start [] s = s
  dispatch last_start (g ∷ gs) s =
      let (got, s') = d.slot s in
      let rest = dispatch last_start gs (check_one g s') in
      if not got
      then s'
      else if d.ended s' || not (may_start last_start (d.now s'))
      then d.release s'
      else rest

  abbrev checked_batch : Option ℕ → Res (List Generation) × S → Res (List Generation) × S
  checked_batch last_start (ok page, s) = (ok page, dispatch last_start page s)
  checked_batch last_start (err e, s) =
      (if d.ended s then ok [] else err (prefixed "sweep generations: " e), s)

  -- `sweepBatch`
  unfoldable pub sweep_batch : Option ℕ → ℕ → Action S (List Generation)
  sweep_batch last_start after s =
      checked_batch last_start (d.dao (record { after = after; limit = d.batch_size }) s)

  -- The loop of `Exec`, with fuel: batch after batch while each comes back full.
  unfoldable pub sweep_loop : ℕ → Option ℕ → ℕ → ℕ → Action S ℕ
  sweep_loop zero last_start after checked s = (err (plain "the sweep has not ended"), s)
  sweep_loop (suc fuel) last_start after checked s =
      let (page, s') = sweep_batch last_start after s in
      let go_on = λ (gs : List Generation).
        sweep_loop fuel last_start (last_id after gs) (checked + length gs) s' in
      if d.ended s || not (may_start last_start (d.now s)) then (ok checked, s) else elim page [
        | err e ↦ (err e, s')
        | ok gs ↦ if ltb (length gs) d.batch_size then (ok (checked + length gs), s') else go_on gs
      ]

  -- The leader's run: the lock is released whatever the run returns.
  abbrev lead : ℕ → Option ℕ → L → Action S ℕ
  lead fuel last_start lock s =
      let (r, s') = sweep_loop fuel last_start 0 0 s in (r, d.dao_unlock lock s')

  -- `Exec`, with the deadline of its context: the number of generations read.
  unfoldable pub exec : ℕ → Option ℕ → Action S ℕ
  exec fuel deadline s =
      if not (may_start (last_start_of deadline) (d.now s))
      then (err (sentinel "deadline too short for a sweep" deadline_too_short), s)
      else let (locked, s') = d.dao_lock s in
        elim locked [
          | err e ↦
              (if wraps sweep_locked e then ok 0 else err (prefixed "take the leader role: " e), s')
          | ok lock ↦ lead fuel (last_start_of deadline) lock s'
        ]
