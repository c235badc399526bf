-- ===== src/Core/Check/Exec.antt =====
-- `GenerationCheck.Exec` of internal/core/generationCheck.go.
use service_genai.Prelude.{ℕ, Option, none, some, if◌then◌else◌}
use service_genai.Errors.{wraps, generation_changed}
use service_genai.Action.{Action, Res, ok, err}
use service_genai.Connectors.{CallState, zero_call}
use service_genai.Dao.Rows.{Generation, GenerationFailure}
use service_genai.Core.Check.Outcome.{failure_start_failed}
use service_genai.Core.Check.Deps.{CheckDeps, CheckStart, CheckRequest}
use service_genai.Core.Check.Commit.{settle, settle_failure}
use service_genai.Core.Check.Observe.{observe}
use service_genai.Core.Check.Start.{start, resolve_start}

-- The transition that is due, as the switch of `Exec` chooses it.
pub data Due : Type 0 where
  already_settled : Due
  to_observe : Due
  to_start : CheckStart → Due
  to_resolve : Due
  to_cancel : Due
  to_fail : Due

abbrev due_unstarted : Option ℕ → Due
due_unstarted (some at) = to_cancel
due_unstarted none = to_fail

abbrev due_intent : Option CheckStart → Due
due_intent (some st) = to_start st
due_intent none = to_resolve

unfoldable pub due : Generation → Option CheckStart → Due
due g st = elim g.settled_at [
  | some at ↦ already_settled
  | none ↦ elim g.provider_call_id [
    | some id ↦ to_observe
    | none ↦ elim g.start_requested_at [
      | some at ↦ due_intent st
      | none ↦ due_unstarted g.cancel_requested_at
    ]
  ]
]

module _ {S St : Type 0} (d : CheckDeps S St) where
  -- The call that the switch makes.
  unfoldable pub apply : Due → Generation → Action S Generation
  apply already_settled g s = (ok g, s)
  apply to_observe g s = observe d g s
  apply (to_start st) g s = start d g st s
  apply to_resolve g s = resolve_start d g s
  apply to_cancel g s = settle d g (record zero_call { state = CallState.cancelled }) s
  apply to_fail g s =
      settle_failure d g failure_start_failed GenerationFailure.not_started
        "no start intent to send" none s

  -- Another check committed first: its result is the answer.
  abbrev pub reread : Generation → Res Generation × S → Res Generation × S
  reread g (ok checked, s) = (ok checked, s)
  reread g (err e, s) =
      if wraps generation_changed e
      then d.dao_get (record { id = g.id; owner_id = g.owner_id }) s
      else (err e, s)

  unfoldable pub exec : CheckRequest → Action S Generation
  exec r s = reread r.generation (apply (due r.generation r.start) r.generation s)
