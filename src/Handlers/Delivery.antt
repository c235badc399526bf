-- ===== src/Handlers/Delivery.antt =====
-- What the caller of a stream receives, through the loops of the connector, the service and the
-- handler, against a plain list of the events to send.
use service_genai.Prelude.{
  ◌≡◌, ◌⊎◌, refl, Bool, true, false, Option, none, some, List, [], ◌∷◌, arith, if◌then◌else◌,
  Option-cases, inl, inr,
}
use service_genai.Errors.{Err, Bytes}
use service_genai.Action.{Res, Res-cases, ok, err}
use service_genai.Connectors.{StreamEvent, StreamRequest}
use service_genai.Connectors.OpenAi.Classify.{HttpError, classify_stream}
use service_genai.Connectors.OpenAi.Operations.{Http, answered, broken}
use service_genai.Connectors.OpenAi.Stream.{
  Cut, EventClient, call_path, stream_query, cut_error, stream_event_of, yield_events, stream,
  open_ai_stream,
}
use service_genai.Core.Stream.{GenerationStreamEvent, forward, forward_events}
use service_genai.Handlers.{Reply}
use service_genai.Handlers.Stream.{
  Caller, Ended, replied, unsent, handle, send_events, stream_status,
}

abbrev core_event : StreamEvent → GenerationStreamEvent
core_event event = record { sequence = event.sequence; body = event.body }

abbrev put :
    GenerationStreamEvent
    → List GenerationStreamEvent × Option Err
    → List GenerationStreamEvent × Option Err
put event (events, finish) = (event ∷ events, finish)

-- The events up to the terminal one, which is the last, and the error that ends them when none is.
abbrev pub planned :
    {T : Type 0} → EventClient T → List Bytes → Option Cut → List GenerationStreamEvent × Option Err
planned client [] cut = ([], cut_error cut)
planned client (raw ∷ rest) cut =
    let others = planned client rest cut in
    elim (stream_event_of client raw) [
      | err e ↦ ([], some e)
      | ok event ↦
          if event.terminal then (core_event event ∷ [], none) else put (core_event event) others
    ]

abbrev ending : {T : Type 0} → Caller T → Option Err → T → Ended × T
ending caller none t = (replied (Reply.answered tt), t)
ending caller (some e) t = (stream_status (caller.context t) e, t)

-- Each event is sent once, in order; the first send that fails ends the stream with its error.
abbrev pub deliver :
    {T : Type 0} → Caller T → List GenerationStreamEvent → Option Err → T → Ended × T
deliver caller [] finish t = ending caller finish t
deliver caller (event ∷ events) finish t =
    let (failed, t') = caller.send event t in
    let others = deliver caller events finish t' in
    elim failed [ some e ↦ (unsent e, t') | none ↦ others ]

abbrev finished : {T : Type 0} → Option Ended × T → Ended × T
finished (none, t) = (replied (Reply.answered tt), t)
finished (some ended, t) = (ended, t)

Http-cases :
    {A : Type 0} (x : Http A) → ((h : HttpError) × (x ≡ broken h)) ⊎ ((a : A) × (x ≡ answered a))
Http-cases (broken h) = inl (h, refl)
Http-cases (answered a) = inr (a, refl)

module _ {T : Type 0} (client : EventClient T) (caller : Caller T) where
  abbrev yield : Res StreamEvent → Option Ended × T → Bool × (Option Ended × T)
  yield = forward (handle caller)

  abbrev told : Option Err × (Option Ended × T) → Option Ended × T
  told (none, u) = u
  told (some e, u) = (yield (err e) u).1

  told-error :
      (e : Err) (t : T) → told (some e, (none, t)) ≡ (some (stream_status (caller.context t) e), t)
  unfolding forward handle
  told-error e t = refl

  yield-ok :
      (event : StreamEvent) (t : T)
      → yield (ok event) (none, t) ≡ elim (caller.send (core_event event) t).0 [
        | none ↦ (true, (none, (caller.send (core_event event) t).1))
        | some e ↦ (false, (some (unsent e), (caller.send (core_event event) t).1))
      ]
  unfolding forward handle
  yield-ok event t = ground arith

  yield_events-delivered :
      (events : List Bytes) (cut : Option Cut) (t : T)
      → finished (told (yield_events client yield events cut (none, t)))
        ≡ deliver caller (planned client events cut).0 (planned client events cut).1 t
  unfolding yield_events
  yield_events-delivered [] cut t = elim (Option-cases (cut_error cut)) [
    | inl e ↦ rw e refl
    | inr (x, e) ↦ rw (e, told-error x t) refl
  ]
  yield_events-delivered (raw ∷ rest) cut t = elim (Res-cases (stream_event_of client raw)) [
    | inl (event, e) ↦ ground (
      arith,
      e,
      yield-ok event t,
      yield_events-delivered rest cut (caller.send (core_event event) t).1,
    )
    | inr (x, e) ↦ ground (arith, e, told-error x t)
  ]

  -- The stream of a provider call, from the provider's answer to what the caller has.
  abbrev pub delivered : Http (List Bytes × Option Cut) × T → Ended × T
  delivered (broken h, t) = (stream_status (caller.context t) (classify_stream h), t)
  delivered (answered (events, cut), t) =
      deliver caller (planned client events cut).0 (planned client events cut).1 t

  -- For every provider, caller, call and position to resume from, the caller receives the provider's
  -- events one by one in their order, up to the terminal one, and is answered without an error after
  -- it or at the end of events that nothing cut. A request that fails, an event that cannot be read and
  -- a stream that is cut end with the status of their errors after the events before them, and a send
  -- that fails ends the stream with its error and nothing more is sent.
  pub send_events-delivered :
      (r : StreamRequest) (t : T)
      → send_events caller (forward_events (open_ai_stream client) r) t
        ≡ delivered (client.get_stream (call_path client r.id) (stream_query client r) t)
  unfolding send_events forward_events open_ai_stream stream
  send_events-delivered r t =
      elim (Http-cases (client.get_stream (call_path client r.id) (stream_query client r) t).0) [
        | inl (h, e) ↦ ground (
          arith,
          e,
          told-error (classify_stream h)
              (client.get_stream (call_path client r.id) (stream_query client r) t).1,
        )
        | inr (p, e) ↦ ground (
          arith,
          e,
          yield_events-delivered p.0 p.1
              (client.get_stream (call_path client r.id) (stream_query client r) t).1,
        )
      ]
