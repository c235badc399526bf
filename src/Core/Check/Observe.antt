-- ===== src/Core/Check/Observe.antt =====
-- `ask` and `observe` of internal/core/generationCheck.go: what a check does with a known provider
-- call.
use service_genai.Prelude.{
  ℕ, ◌+◌, ◌-◌, String, concat, Bool, true, false, not, ◌&&◌, ◌||◌, Option, none, some,
  if◌then◌else◌, ltb, leb, is_some,
}
use service_genai.Errors.{Err, wraps, plain, prefixed, response_too_large, retryable, refused}
use service_genai.Action.{Action, Res, ok, err, ◌>>=◌}
use service_genai.Connectors.{Async, Call, CallState, terminal, async}
use service_genai.Dao.Rows.{Generation, GenerationFailure}
use service_genai.Core.Check.Outcome.{
  run_ceiling, stream_queued_ceiling, stop_retry_window, failure_result_lost, failure_not_stopped,
  failure_response_too_large, failure_provider_unavailable, failure_not_recorded, state_name,
}
use service_genai.Core.Check.Deps.{CheckDeps, Captured}
use service_genai.Core.Check.Commit.{settle, settle_failure}

-- When a stop of the call was first wanted: when its owner asked, or at the run ceiling once the
-- call is that old, whichever came first. `-` stops at 0, and an age below 0 passes no test either.
unfoldable pub stop_since : ℕ → ℕ → Option ℕ → Option ℕ
stop_since start read_at asked =
    if leb run_ceiling (read_at - start)
    then elim asked [
      | none ↦ some (start + run_ceiling)
      | some at ↦ if ltb (start + run_ceiling) at then some (start + run_ceiling) else some at
    ]
    else asked

abbrev is_queued : CallState → Bool
is_queued CallState.queued = true
is_queued _ = false

abbrev is_cancelled : CallState → Bool
is_cancelled CallState.cancelled = true
is_cancelled _ = false

-- A nil dereference. It ends the check with an error that nothing tests.
abbrev pub panic : Err
panic = plain "runtime error: invalid memory address or nil pointer dereference"

module _ {S : Type 0} (connector : Async S Captured) where
  -- The stop of the call `id`, wanted since the given time.
  abbrev stop : String → ℕ → S → (Res Call × Option ℕ) × S
  stop id since s = let (answer, s') = connector.cancel id s in ((answer, some since), s')

  -- The read of the call `id`, followed by the stop of a streamed call queued for too long.
  unfoldable pub read_call : String → Bool → ℕ → ℕ → S → (Res Call × Option ℕ) × S
  read_call id streamed start age s =
      let (answer, s') = connector.get id s in
      elim answer [
        | err e ↦ ((err e, none), s')
        | ok call ↦
            if not streamed || not (is_queued call.state) || ltb age stream_queued_ceiling
            then ((ok call, none), s')
            else stop id (start + stream_queued_ceiling) s'
      ]

  -- `ask`, of a generation with its start and its call.
  unfoldable pub ask : Generation → ℕ → String → S → (Res Call × Option ℕ) × S
  ask g start id s = elim (stop_since start g.read_at g.cancel_requested_at) [
    | none ↦ read_call id g.streamed start (g.read_at - start) s
    | some since ↦ stop id since s
  ]

-- What the switch of `observe` decides: settle the call, leave the generation, or fail it.
pub data Verdict : Type 0 where
  settles : Call → Verdict
  leaves : Verdict
  fails : String → GenerationFailure → String → Verdict

-- `stopSince == nil || generation.ReadAt.Sub(*stopSince) < stopRetryWindow`
abbrev asks_again : ℕ → Option ℕ → Bool
asks_again read_at none = true
asks_again read_at (some since) = ltb (read_at - since) stop_retry_window

-- The switch of `observe`, on the answer and the time since which a stop is wanted.
unfoldable pub verdict : ℕ → Res Call → Option ℕ → Verdict
verdict read_at (ok call) since =
    if terminal call.state
    then settles call
    else if asks_again read_at since
    then leaves
    else fails failure_not_stopped GenerationFailure.outcome_unknown
        (concat "the stop left the call " (state_name call.state))
verdict read_at (err e) since =
    if wraps response_too_large e
    then fails failure_response_too_large GenerationFailure.outcome_unknown e.text
    else if not (wraps retryable e)
    then fails failure_result_lost GenerationFailure.provider_failed e.text
    else if asks_again read_at since
    then leaves
    else fails failure_not_stopped GenerationFailure.outcome_unknown e.text

module _ {S St : Type 0} (d : CheckDeps S St) where
  -- The settle, and the failure that replaces it when the database refuses the answer of a call
  -- that is old enough.
  unfoldable pub settle_or_give_up : Generation → ℕ → Call → Action S Generation
  settle_or_give_up g start call s =
      let (r, s') = settle d g call s in
      elim r [
        | ok settled ↦ (ok settled, s')
        | err e ↦
            if wraps refused e && leb (run_ceiling + stop_retry_window) (g.read_at - start)
            then settle_failure d g failure_not_recorded GenerationFailure.provider_failed e.text
                none s'
            else (err e, s')
      ]

  -- The re-read of a cancelled call's generation, whose cancel request labels the outcome.
  unfoldable pub relabel : Generation → Action S Generation
  relabel g s =
      let (r, s') = d.dao_get (record { id = g.id; owner_id = g.owner_id }) s in
      elim r [
        | ok current ↦ (ok (record g { cancel_requested_at = current.cancel_requested_at }), s')
        | err e ↦ (err (prefixed "re-read generation: " e), s')
      ]

  -- What follows a terminal call.
  unfoldable pub conclude : Generation → ℕ → Call → Option ℕ → Action S Generation
  conclude g start call since s =
      if is_cancelled call.state && not (is_some g.cancel_requested_at) && not (is_some since)
      then (relabel g >>= λ labeled. settle_or_give_up labeled start call) s
      else settle_or_give_up g start call s

  abbrev pub act : Generation → ℕ → Option ℕ → Verdict → Action S Generation
  act g start since (settles call) s = conclude g start call since s
  act g start since leaves s = (ok g, s)
  act g start since (fails message class reason) s = settle_failure d g message class reason none s

  -- What follows the choice of the connector. A call without a start or an id panics.
  unfoldable pub observe_call : Async S Captured → Generation → Action S Generation
  observe_call connector g s = elim g.start_requested_at [
    | none ↦ (err panic, s)
    | some start ↦ elim g.provider_call_id [
      | none ↦ (err panic, s)
      | some id ↦
          let (answer, s') = ask connector g start id s in
          act g start answer.1 (verdict g.read_at answer.0 answer.1) s'
    ]
  ]

  unfoldable pub observe : Generation → Action S Generation
  observe g s = elim (async d.registry g.provider) [
    | err e ↦
        settle_failure d g failure_provider_unavailable GenerationFailure.outcome_unknown e.text
          none s
    | ok connector ↦ observe_call connector g s
  ]
