-- ===== src/Core/Check/RecordCall.antt =====
-- `recordCall` and `stopOrphan` of internal/core/generationCheck.go: the patient write of an
-- accepted call's id.
use service_genai.Prelude.{
  ℕ, zero, suc, ◌+◌, min, String, Bool, true, false, not, ◌&&◌, if◌then◌else◌, ltb, get_or, str_eq,
}
use service_genai.Errors.{Err, wraps, plain, join, generation_changed}
use service_genai.Action.{Action, Res, ok, err}
use service_genai.Connectors.{Async}
use service_genai.Dao.Rows.{Generation}
use service_genai.Core.Check.Outcome.{Log, record_patience, record_pause, record_pause_ceiling}
use service_genai.Core.Check.Deps.{CheckDeps, Captured}
use service_genai.Core.Check.Commit.{record_usage}

-- How the loop of writes ends: the last write's answer, the end of the context during a pause, or,
-- in the model alone, no fuel.
pub data Ending : Type 0 where
  written : Res Generation → Ending
  interrupted : Err → Ending
  exhausted : Ending

module _ {S St : Type 0} (d : CheckDeps S St) where
  unfoldable pub write : ℕ → String → Action S Generation
  write id call_id = d.dao_record (record { id = id; provider_call_id = call_id })

  -- The condition of the loop, after a write that failed with `e`.
  unfoldable pub tries_again : Err → ℕ → ℕ → S → Bool
  tries_again e pause deadline s =
      not (wraps generation_changed e) && ltb (d.now s + pause) deadline

  -- `for err != nil && … { select …; recorded, err = write(); pause = … }`, with fuel. `r` is the
  -- answer of the last write.
  unfoldable pub record_loop : ℕ → Action S Generation → ℕ → ℕ → Res Generation → S → Ending × S
  record_loop zero writes deadline pause r s = (exhausted, s)
  record_loop (suc fuel) writes deadline pause (ok g) s = (written (ok g), s)
  record_loop (suc fuel) writes deadline pause (err e) s =
      let (elapsed, s') = d.wait pause s in
      let next = writes s' in
      let rest =
        record_loop fuel writes deadline (min (pause + pause) record_pause_ceiling) next.0 next.1 in
      if tries_again e pause deadline s
      then if elapsed
        then rest
        else (interrupted (join "\n" e (plain "context deadline exceeded")), s')
      else (written (err e), s)

  -- `stopOrphan`: best effort, a failure is logged.
  unfoldable pub stop_orphan : Async S Captured → Generation → String → S → S
  stop_orphan connector g call_id s =
      let (answer, s') = connector.cancel call_id s in
      elim answer [
        | err e ↦ d.log (Log.orphan g.id call_id e.text) s'
        | ok call ↦
            let (r, s'') = record_usage d g call s' in
            elim r [ ok u ↦ s'' | err e ↦ d.log (Log.orphan g.id call_id e.text) s'' ]
      ]

  -- What follows the last failed write. `moved_on` tells that the first write found the generation
  -- changed, so no write of this call can have landed.
  unfoldable pub give_up : Async S Captured → Generation → String → Bool → Err → Action S Generation
  give_up connector g call_id true e s = (err e, stop_orphan connector g call_id s)
  give_up connector g call_id false e s =
      let (r, s') = d.dao_get (record { id = g.id; owner_id = g.owner_id }) s in
      elim r [
        | err unread ↦ (err e, s')
        | ok current ↦
            if str_eq (get_or "" current.provider_call_id) call_id
            then (ok current, s')
            else (err e, stop_orphan connector g call_id s')
      ]

  abbrev pub moved : Res Generation → Bool
  moved (ok g) = false
  moved (err e) = wraps generation_changed e

  abbrev pub after_loop :
      Async S Captured → Generation → String → Bool → Ending × S → Res Generation × S
  after_loop connector g call_id moved_on (written (ok recorded), s) = (ok recorded, s)
  after_loop connector g call_id moved_on (written (err e), s) =
      give_up connector g call_id moved_on e s
  after_loop connector g call_id moved_on (interrupted e, s) = (err e, s)
  after_loop connector g call_id moved_on (exhausted, s) = (err (plain "the loop has not ended"), s)

  -- `recordCall`, with the fuel of its loop.
  unfoldable pub record_call : ℕ → Async S Captured → Generation → ℕ → String → Action S Generation
  record_call fuel connector g intent_at call_id s =
      let (r, s') = write g.id call_id s in
      after_loop connector g call_id (moved r)
        (record_loop fuel (write g.id call_id) (intent_at + record_patience) record_pause r s')
