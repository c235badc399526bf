-- ===== src/Core/Check/Start.antt =====
-- `start`, `failStart` and `resolveStart` of internal/core/generationCheck.go.
use service_genai.Prelude.{ℕ, ◌-◌, String, Option, none, some, if◌then◌else◌, leb, ltb}
use service_genai.Errors.{Err, Bytes, wraps, prefixed, start_ambiguous}
use service_genai.Action.{Action, Res, ok, err}
use service_genai.Connectors.{Async, Call, async}
use service_genai.Dao.Rows.{Generation, GenerationFailure}
use service_genai.Core.Check.Outcome.{
  start_timeout, start_outcome_unknown_after, failure_start_failed, failure_outcome_unknown,
  failure_rejected, failure_provider_unavailable,
}
use service_genai.Core.Check.Deps.{CheckDeps, CheckStart, Captured}
use service_genai.Core.Check.Commit.{settle_failure}
use service_genai.Core.Check.Observe.{observe, panic}
use service_genai.Core.Check.RecordCall.{record_call}

-- The rounds of the loop of writes: one every 250 ms of the two minutes of patience, and one more.
abbrev pub record_rounds : ℕ
record_rounds = 481

-- What `failStart` reads off the cause: the message, the class and the provider's answer.
unfoldable pub start_failure : Err → String × GenerationFailure × Option Bytes
start_failure e = elim e.rejection [
  | some response ↦ (failure_rejected, GenerationFailure.rejected, response)
  | none ↦
      if wraps start_ambiguous e
      then (failure_outcome_unknown, GenerationFailure.outcome_unknown, none)
      else (failure_start_failed, GenerationFailure.not_started, none)
]

abbrev pub nothing_captured : Captured
nothing_captured = record { recorded = none; record_err = none }

-- The assignment of the two captured variables by the callback, and what the callback returns.
abbrev pub capture : {S : Type 0} → Res Generation × S → Res (Unit {0}) × (Captured × S)
capture (ok g, s) = (ok tt, (record { recorded = some g; record_err = none }, s))
capture (err e, s) = (err e, (record { recorded = none; record_err = some e }, s))

module _ {S St : Type 0} (d : CheckDeps S St) where
  unfoldable pub fail_start : Generation → Err → Action S Generation
  fail_start g cause s =
      let (message, class, response) = start_failure cause in
      settle_failure d g message class cause.text response s

  -- `resolveStart`: both times come from the database clock.
  unfoldable pub resolve_start : Generation → Action S Generation
  resolve_start g s = elim g.start_requested_at [
    | none ↦ (err panic, s)
    | some start ↦
        if ltb (g.read_at - start) start_outcome_unknown_after
        then (ok g, s)
        else settle_failure d g failure_outcome_unknown GenerationFailure.outcome_unknown
            "start intent recorded without a provider call id" none s
  ]

  -- The callback `record` of `start`.
  unfoldable pub accepted :
      Async S Captured → Generation → ℕ → Call → Action (Captured × S) (Unit {0})
  accepted connector g intent_at call (c, s) =
      capture (record_call d record_rounds connector g intent_at call.id s)

  -- The end of `start`: a call whose owner asked to cancel meanwhile is stopped at once.
  unfoldable pub after_record : Generation → Action S Generation
  after_record recorded s = elim recorded.cancel_requested_at [
    | none ↦ (ok recorded, s)
    | some at ↦ observe d recorded s
  ]

  abbrev pub after_late_record : Res Generation × S → Res Generation × S
  after_late_record (ok recorded, s) = after_record recorded s
  after_late_record (err e, s) = (err (prefixed "record provider call: " e), s)

  -- The switch on what the connector's start returned and what the callback recorded.
  abbrev pub after_start :
      Async S Captured
      → Generation
      → ℕ
      → Res Call
      → Option Generation
      → Option Err
      → Action S Generation
  after_start connector g intent_at r recorded (some e) s =
      (err (prefixed "record provider call: " e), s)
  after_start connector g intent_at r (some recorded) none s = after_record recorded s
  after_start connector g intent_at (err e) none none s = fail_start g e s
  after_start connector g intent_at (ok call) none none s =
      after_late_record (record_call d record_rounds connector g intent_at call.id s)

  -- The request of the provider's start.
  unfoldable pub send : Async S Captured → Generation → CheckStart → Action S Generation
  send connector g start s =
      let (r, (c, s')) =
        connector.start
          (record {
            payload = start.payload;
            stream = g.streamed;
            accepted = accepted connector g start.intent_at;
          })
          (nothing_captured, s) in
      after_start connector g start.intent_at r c.recorded c.record_err s'

  abbrev pub stale_result : Res Generation × S → Res Generation × S
  stale_result (ok settled, s) = (ok settled, s)
  stale_result (err e, s) = (err (prefixed "settle stale start: " e), s)

  unfoldable pub start : Generation → CheckStart → Action S Generation
  start g intent s = elim (async d.registry g.provider) [
    | err e ↦
        settle_failure d g failure_provider_unavailable GenerationFailure.not_started e.text none s
    | ok connector ↦
        if leb start_timeout (d.now s - intent.intent_at)
        then stale_result (
            settle_failure d g failure_start_failed GenerationFailure.not_started
              "start intent too old to send" none s)
        else send connector g intent s
  ]
