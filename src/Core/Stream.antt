-- ===== src/Core/Stream.antt =====
-- `GenerationStream`, internal/core/generationStream.go.
use service_genai.Prelude.{ℕ, String, Bool, false, not, Option, none, some, if◌then◌else◌}
use service_genai.Prelude.Int.{ℤ}
use service_genai.Errors.{
  Err, Bytes, sentinel, join, prefixed, concat_text, invalid_request, not_streamed,
  stream_unavailable,
}
use service_genai.Action.{Action, Res, ok, err, wrapped}
use service_genai.Connectors.{Registry, Sequence, StreamEvent, StreamRequest, Streaming, streaming}
use service_genai.Dao.Rows.{Generation}
use service_genai.Dao.Reads.{GenerationGetRequest}
use service_genai.Core.Check.Deps.{Captured}

pub record GenerationStreamRequest : Type 0 where
  pub id : ℕ
  pub owner_id : ℕ
  pub starting_after : Option ℤ

pub record GenerationStreamEvent : Type 0 where
  pub sequence : ℤ
  pub body : Bytes

-- What `NewGenerationStream` takes, over a state `S`, with the struct validation. The events run over
-- a state `T`.
pub record StreamDeps (S T : Type 0) : Type 0 where
  pub dao : GenerationGetRequest → Action S Generation
  pub registry : Registry S Captured (Streaming T)
  pub validate : GenerationStreamRequest → Option Err

-- The body of the loop of `forwardEvents`.
unfoldable pub forward :
    {T : Type 0} → (Res GenerationStreamEvent → T → Bool × T) → Res StreamEvent → T → Bool × T
forward yield (err e) t = (false, (yield (err e) t).1)
forward yield (ok event) t = yield (ok (record { sequence = event.sequence; body = event.body })) t

-- `forwardEvents`
unfoldable pub forward_events :
    {T : Type 0} → Streaming T → StreamRequest → Sequence GenerationStreamEvent T
forward_events connector r yield t = connector.stream r (forward yield) t

module _ {S T : Type 0} (d : StreamDeps S T) where
  abbrev opened :
      GenerationStreamRequest
      → Generation
      → String
      → Res (Streaming T)
      → Res (Sequence GenerationStreamEvent T)
  opened r g id (err e) = err (prefixed "provider: " e)
  opened r g id (ok connector) =
      ok (forward_events connector (record { id = id; starting_after = r.starting_after }))

  -- What follows the read of the generation.
  unfoldable pub open_events :
      GenerationStreamRequest → Generation → Res (Sequence GenerationStreamEvent T)
  open_events r g =
      if not g.streamed
      then err (sentinel "generation not submitted for streaming" not_streamed)
      else elim g.provider_call_id [
        | none ↦ err (
            concat_text (sentinel "provider does not stream this operation" stream_unavailable) ": "
              "no provider call yet")
        | some id ↦ opened r g id (streaming d.registry g.provider)
      ]

  abbrev read_result :
      GenerationStreamRequest → Res Generation × S → Res (Sequence GenerationStreamEvent T) × S
  read_result r (err e, s) = (err e, s)
  read_result r (ok g, s) = (open_events r g, s)

  unfoldable pub exec : GenerationStreamRequest → Action S (Sequence GenerationStreamEvent T)
  exec r s = elim (d.validate r) [
    | some e ↦ (err (join "\n" e (sentinel "invalid request" invalid_request)), s)
    | none ↦
        read_result r
          (wrapped "get generation: " (d.dao (record { id = r.id; owner_id = r.owner_id }) s))
  ]
