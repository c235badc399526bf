-- ===== src/Connectors.antt =====
-- The contract between the service and a provider, internal/lib/connectors/connector.go. Times are
-- nanoseconds since the Unix epoch.
pub mod OpenAi
use service_genai.Prelude.{
  ℕ, String, Bool, true, false, Option, none, some, List, [], ◌∷◌, if◌then◌else◌, str_eq,
}
use service_genai.Prelude.Int.{ℤ}
use service_genai.Errors.{Bytes, sentinel, provider_unknown, mode_unsupported}
use service_genai.Action.{Action, Res, ok, err}

pub data CallState : Type 0 where
  queued running succeeded failed cancelled : CallState
  -- A state that no constant names, such as the empty one of a zero `Call`.
  other : CallState

-- `CallState.Terminal`
unfoldable pub terminal : CallState → Bool
terminal queued = false
terminal running = false
terminal _ = true

pub record Usage : Type 0 where
  pub input_tokens : ℤ
  pub cached_input_tokens : ℤ
  pub cache_write_tokens : ℤ
  pub output_tokens : ℤ
  pub reasoning_tokens : ℤ

pub record Call : Type 0 where
  pub id : String
  pub state : CallState
  pub response : Option Bytes
  pub usage : Option Usage
  pub model : String
  pub class : String
  pub tier : String
  -- `none` is the zero time.
  pub started_at : Option ℕ
  pub completed_at : Option ℕ
  pub reason : String

-- The zero value, `&Call{}`.
abbrev pub zero_call : Call
zero_call = record {
  id = "";
  state = other;
  response = none;
  usage = none;
  model = "";
  class = "";
  tier = "";
  started_at = none;
  completed_at = none;
  reason = "";
}

-- The input of `Async.Start`. `accepted` runs in the middle of the start, on its caller's variables.
pub record AsyncStartRequest (S : Type 0) : Type 0 where
  pub payload : Bytes
  pub stream : Bool
  pub accepted : Call → Action S (Unit {0})

-- A connector in the Async mode, over the state `S` of a check. `C` holds the variables of the
-- caller that the `accepted` callback of a start assigns.
pub record Async (S C : Type 0) : Type 0 where
  pub start : AsyncStartRequest (C × S) → Action (C × S) Call
  pub get : String → Action S Call
  pub cancel : String → Action S Call

-- What a registry holds for a provider: the modes that its connector implements.
pub record Connector (S C : Type 0) (St : Type 0) : Type 0 where
  pub async_mode : Option (Async S C)
  pub streaming_mode : Option St

abbrev pub Registry : Type 0 → Type 0 → Type 0 → Type 0
Registry S C St = List (String × Connector S C St)

module _ {S C St : Type 0} where
  pub lookup : String → Registry S C St → Option (Connector S C St)
  lookup p [] = none
  lookup p ((q, c) ∷ r) = if str_eq q p then some c else lookup p r

  -- `modeOf`, at the mode that `offered` reads off the connector.
  unfoldable pub mode_of :
      {M : Type 0} → (Connector S C St → Option M) → Registry S C St → String → Res M
  unfolding lookup
  mode_of offered registry provider = elim (lookup provider registry) [
    | none ↦ err (sentinel "unknown provider" provider_unknown)
    | some c ↦ elim (offered c) [
      | none ↦ err (sentinel "provider does not support this mode" mode_unsupported)
      | some m ↦ ok m
    ]
  ]

  -- `Registry.Async` and `Registry.Streaming`
  unfoldable pub async : Registry S C St → String → Res (Async S C)
  unfolding mode_of
  async = mode_of (λ c. c.async_mode)

  unfoldable pub streaming : Registry S C St → String → Res St
  unfolding mode_of
  streaming = mode_of (λ c. c.streaming_mode)

pub record StreamRequest : Type 0 where
  pub id : String
  pub starting_after : Option ℤ

pub record StreamEvent : Type 0 where
  pub sequence : ℤ
  pub body : Bytes
  pub terminal : Bool

-- `iter.Seq2[V, error]`: a loop that calls `yield` with each value, or with an error, until `yield`
-- answers false. `T` is the state of the loop's caller and of the world.
abbrev pub Sequence : Type 0 → Type 0 → Type 0
Sequence V T = (Res V → T → Bool × T) → T → T

-- A connector in the Streaming mode.
pub record Streaming (T : Type 0) : Type 0 where
  pub stream : StreamRequest → Sequence StreamEvent T
