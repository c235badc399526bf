-- ===== src/Connectors/OpenAi/Stream.antt =====
-- `Stream`, `streamOptions`, `yieldEvents`, `streamEventOf` and `callPath` of openai.go, with
-- `NewOpenAI` and `NewRegistry`.
use service_genai.Prelude.{
  String, concat, Bool, not, ◌||◌, Option, none, some, List, [], ◌∷◌, if◌then◌else◌, str_eq,
}
use service_genai.Prelude.Int.{ℤ}
use service_genai.Errors.{Err, Bytes, sentinel, join, prefixed, stream_unavailable, not_configured}
use service_genai.Action.{Res, ok, err}
use service_genai.Connectors.{Connector, Registry, Sequence, StreamEvent, StreamRequest, Streaming}
use service_genai.Connectors.OpenAi.Classify.{classify_stream, retryable_err}
use service_genai.Connectors.OpenAi.Operations.{Http, answered, broken}

-- What cut an opened stream: the decoder's error, and whether it is `bufio.ErrTooLong`.
pub record Cut : Type 0 where
  pub cause : Err
  pub too_long : Bool

-- The SDK's client for a stream: a GET of a path with a query gives the data of the events that
-- arrive, with what cut them. `head` decodes an event's type and sequence number.
pub record EventClient (T : Type 0) : Type 0 where
  pub get_stream : String → List (String × String) → T → Http (List Bytes × Option Cut) × T
  pub head : Bytes → Res (String × ℤ)
  pub path_escape : String → String
  pub format_int : ℤ → String

-- `terminalEvents`
unfoldable pub is_terminal : String → Bool
is_terminal kind =
    str_eq kind "response.completed"
    || str_eq kind "response.failed"
    || str_eq kind "response.incomplete"
    || str_eq kind "error"

-- `yieldEvents`, at the end of the events: an event too large to read is polled instead.
unfoldable pub cut_error : Option Cut → Option Err
cut_error none = none
cut_error (some cut) = some (
    if cut.too_long
    then join ": " (sentinel "provider does not stream this operation" stream_unavailable) cut.cause
    else join ": " retryable_err cut.cause)

module _ {T : Type 0} (client : EventClient T) where
  -- `callPath`
  unfoldable pub call_path : String → String
  call_path id = concat "responses/" (client.path_escape id)

  abbrev cursor : Option ℤ → List (String × String)
  cursor none = []
  cursor (some after) = ("starting_after", client.format_int after) ∷ []

  -- The query of `streamOptions`.
  unfoldable pub stream_query : StreamRequest → List (String × String)
  stream_query r = ("stream", "true") ∷ cursor r.starting_after

  -- `streamEventOf`
  unfoldable pub stream_event_of : Bytes → Res StreamEvent
  stream_event_of raw = elim (client.head raw) [
    | err e ↦ err (prefixed "decode event: " e)
    | ok (kind, sequence) ↦
        ok (record { sequence = sequence; body = raw; terminal = is_terminal kind })
  ]

  module _ {U : Type 0} (yield : Res StreamEvent → U → Bool × U) where
    -- The loop of `yieldEvents`, with the error that it returns.
    unfoldable pub yield_events : List Bytes → Option Cut → U → Option Err × U
    yield_events [] cut u = (cut_error cut, u)
    yield_events (raw ∷ rest) cut u = elim (stream_event_of raw) [
      | err e ↦ (some e, u)
      | ok event ↦
          let (more, u') = yield (ok event) u in
          let others = yield_events rest cut u' in
          if not more || event.terminal then (none, u') else others
    ]

    -- An error goes to the caller, which may only stop.
    abbrev told : Option Err × U → U
    told (none, u) = u
    told (some e, u) = (yield (err e) u).1

  module _ {C : Type 0} where
    -- `Stream`, in a loop with variables of its own.
    unfoldable pub stream : StreamRequest → Sequence StreamEvent (C × T)
    stream r yield (c, s) =
        let (answer, s') = client.get_stream (call_path r.id) (stream_query r) s in
        elim answer [
          | broken h ↦ (yield (err (classify_stream h)) (c, s')).1
          | answered (events, cut) ↦ told yield (yield_events yield events cut (c, s'))
        ]

    unfoldable pub open_ai_stream : Streaming (C × T)
    open_ai_stream = record { stream = stream }

-- `OpenAIConfig`
pub record OpenAiConfig : Type 0 where
  pub api_key : String
  pub base_url : String

-- `NewOpenAI`, up to the SDK's client: an incomplete configuration is refused.
unfoldable pub new_open_ai : {K : Type 0} → OpenAiConfig → K → Res K
new_open_ai config connector =
    if str_eq config.base_url "" || str_eq config.api_key ""
    then err (sentinel "provider base URL and API key are required" not_configured)
    else ok connector

-- `NewRegistry`, given the connector on its client.
unfoldable pub new_registry :
    {S C St : Type 0} → OpenAiConfig → Connector S C St → Res (Registry S C St)
new_registry config connector = elim (new_open_ai config connector) [
  | err e ↦ err (prefixed "openai: " e)
  | ok c ↦ ok (("openai", c) ∷ [])
]
