-- ===== src/Handlers/Stream.antt =====
-- `GrpcGenerationStream`: grpc.generationStream.go.
use service_genai.Prelude.{String, Bool, true, false, Option, none, some, if◌then◌else◌}
use service_genai.Prelude.Int.{ℤ}
use service_genai.Errors.{
  Err, wraps, not_found, invalid_request, not_streamed, stream_unavailable, mode_unsupported,
  retryable,
}
use service_genai.Action.{Action, Res, ok, err}
use service_genai.Connectors.{Sequence}
use service_genai.Core.Stream.{GenerationStreamEvent, GenerationStreamRequest}
use service_genai.Handlers.{Code, Reply, answered, status, fault, internal_error}
use service_genai.Handlers.Read.{Ids}

-- How a stream ends: with no error, with a status, with the status of the context's own error, or with
-- the error of a send.
pub data Ended : Type 0 where
  replied : Reply (Unit {0}) → Ended
  left : Err → Ended
  unsent : Err → Ended

-- `streamStatus`, without the caller's context.
unfoldable pub error_status : Err → Reply (Unit {0})
error_status e =
    if wraps not_found e
    then status Code.not_found "generation not found"
    else if wraps invalid_request e
    then status Code.invalid_argument "invalid request"
    else if wraps not_streamed e
    then status Code.failed_precondition "generation not submitted for streaming"
    else if wraps stream_unavailable e
    then status Code.failed_precondition "the provider does not stream this generation now: poll it"
    else if wraps mode_unsupported e
    then status Code.unimplemented "the provider does not support the Streaming mode"
    else if wraps retryable e
    then fault Code.unavailable "stream interrupted: resume after the last event received" e
    else internal_error e

-- `streamStatus`, with the context's error.
unfoldable pub stream_status : Option Err → Err → Ended
stream_status (some gone) e = left gone
stream_status none e = replied (error_status e)

-- What a handler is given over the state `T` of a stream: the context's error, and `stream.Send`.
pub record Caller (T : Type 0) : Type 0 where
  pub context : T → Option Err
  pub send : GenerationStreamEvent → T → Option Err × T

module _ {T : Type 0} (caller : Caller T) where
  abbrev sent : Option Err × T → Bool × (Option Ended × T)
  sent (none, t) = (true, (none, t))
  sent (some e, t) = (false, (some (unsent e), t))

  -- The body of the loop over the events: it ends the stream by the variable that it sets.
  unfoldable pub handle : Res GenerationStreamEvent → Option Ended × T → Bool × (Option Ended × T)
  handle (err e) (ended, t) = (false, (some (stream_status (caller.context t) e), t))
  handle (ok event) (ended, t) = sent (caller.send event t)

  abbrev last : Option Ended × T → Ended × T
  last (none, t) = (replied (answered tt), t)
  last (some ended, t) = (ended, t)

  -- The loop over the events.
  unfoldable pub send_events : Sequence GenerationStreamEvent (Option Ended × T) → T → Ended × T
  send_events events t = last (events handle (none, t))

  abbrev streamed : Res (Sequence GenerationStreamEvent (Option Ended × T)) × T → Ended × T
  streamed (err e, t) = (stream_status (caller.context t) e, t)
  streamed (ok events, t) = send_events events t

  -- `GenerationStream`, once its identifiers are read.
  unfoldable pub stream_generation :
      (GenerationStreamRequest → Action T (Sequence GenerationStreamEvent (Option Ended × T)))
      → GenerationStreamRequest
      → T
      → Ended × T
  stream_generation service r t = streamed (service r t)

  -- `GenerationStream`
  unfoldable pub generation_stream :
      Ids
      → (GenerationStreamRequest → Action T (Sequence GenerationStreamEvent (Option Ended × T)))
      → String
      → String
      → Option ℤ
      → T
      → Ended × T
  generation_stream ids service id owner_id after t = elim (ids.parse id) [
    | none ↦ (replied (status Code.invalid_argument "invalid generation id"), t)
    | some i ↦ elim (ids.parse owner_id) [
      | none ↦ (replied (status Code.invalid_argument "invalid owner id"), t)
      | some owner ↦
          stream_generation service (record { id = i; owner_id = owner; starting_after = after }) t
    ]
  ]
