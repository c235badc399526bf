-- ===== src/Core/Submit/Exec.antt =====
-- `validateRequest` and `GenerationSubmit.Exec` of internal/core/generationSubmit.go.
use service_genai.Prelude.{
  ℕ, String, Bool, not, Option, none, some, List, [], if◌then◌else◌, ltb, length, any, str_eq,
}
use service_genai.Errors.{
  Err, Bytes, wraps, sentinel, join, prefixed, concat_text, invalid_request, provider_unknown,
  usage_cap_reached,
}
use service_genai.Action.{Action, Res, ok, err}
use service_genai.Connectors.{async, streaming}
use service_genai.Dao.Rows.{Generation, GenerationAttempt}
use service_genai.Dao.Submit.{GenerationSubmitResult}
use service_genai.Dao.Submit
use service_genai.Core.Generation.{payload_size_ceiling, new_generation, may_have_attempts}
use service_genai.Core.Generation
use service_genai.Core.Submit.Request.{GenerationSubmitRequest, SubmitDeps}
use service_genai.Core.Submit.Key.{request_key}
use service_genai.Core.Submit.Admit.{admit}

pub record SubmitResult : Type 0 where
  pub generation : Generation.Generation
  pub created : Bool

-- The values of the request are left out of the texts.
abbrev pub invalid : String → Err
invalid what = concat_text (sentinel "invalid request" invalid_request) ": " what

-- `_, err := …`: the error alone.
abbrev failure : {A : Type 0} → Res A → Option Err
failure (ok a) = none
failure (err e) = some e

abbrev second : Option Err → Option Err → Option Err
second none b = b
second (some a) b = some a

abbrev provider_error : Err → Err
provider_error e =
    if wraps provider_unknown e
    then join ": " (sentinel "invalid request" invalid_request) e
    else prefixed "provider: " e

module _ {S St : Type 0} (d : SubmitDeps S St) where
  -- The error of the provider's modes: the Async one, and the Streaming one if the submit streams.
  unfoldable pub mode_error : GenerationSubmitRequest → Option Err
  mode_error r =
      second (failure (async d.registry r.provider))
        (if r.stream then failure (streaming d.registry r.provider) else none)

  abbrev provider_result : Option Err → Option Err
  provider_result none = none
  provider_result (some e) = some (provider_error e)

  -- `validateRequest`
  unfoldable pub validate_request : GenerationSubmitRequest → Option Err
  validate_request r = elim (d.validate r) [
    | some e ↦ some (join "\n" e (sentinel "invalid request" invalid_request))
    | none ↦
        if not (any (λ p. str_eq p r.purpose) d.purposes)
        then some (invalid "purpose is not declared")
        else if ltb payload_size_ceiling (length r.payload)
        then some (invalid "payload contains too many bytes")
        else if not (d.codec.is_object r.payload)
        then some (invalid "payload is not a valid I-JSON object (RFC 7493)")
        else provider_result (mode_error r)
  ]

  unfoldable pub submission :
      GenerationSubmitRequest → ℕ → Bytes → Option String → Submit.GenerationSubmitRequest
  submission r id key traceparent = record {
    id = id;
    owner_id = r.owner_id;
    purpose = r.purpose;
    provider = r.provider;
    request_key = key;
    traceparent = traceparent;
    streamed = r.stream;
  }

  abbrev admitted :
      GenerationSubmitResult → Res (Unit {0}) × S → (Option Err × Res GenerationSubmitResult) × S
  admitted result (ok u, s) = ((none, ok result), s)
  admitted result (err e, s) = ((some e, err e), s)

  -- The function that `Exec` runs in its transaction.
  unfoldable pub submit_tx :
      GenerationSubmitRequest
      → Submit.GenerationSubmitRequest
      → S
      → (Option Err × Res GenerationSubmitResult) × S
  submit_tx r request s =
      let (recorded, s') = d.dao request s in
      elim recorded [
        | err e ↦ ((none, err (prefixed "submit generation: " e)), s')
        | ok result ↦
            if not result.created then ((none, ok result), s') else admitted result (admit d r s')
      ]

  abbrev kept : Generation → Res Generation × S → Generation × S
  kept g (ok checked, s) = (checked, s)
  kept g (err e, s) = (g, s)

  -- The check that sends the call of a created generation; its failure leaves the generation as it is.
  unfoldable pub send_call :
      GenerationSubmitRequest → ℕ → GenerationSubmitResult → S → Generation × S
  send_call r intent_at result s =
      if result.created
      then kept result.generation (
          d.service_check
            (record {
              generation = result.generation;
              start = some (record { payload = r.payload; intent_at = intent_at });
            })
            s)
      else (result.generation, s)

  abbrev listed : Generation → Bool → Res (List GenerationAttempt) × S → Res SubmitResult × S
  listed g created (err e, s) = (err (prefixed "list attempts: " e), s)
  listed g created (ok attempts, s) =
      (ok (record { generation = new_generation g attempts; created = created }), s)

  unfoldable pub answer : Bool → Generation × S → Res SubmitResult × S
  answer created (g, s) =
      if may_have_attempts g
      then listed g created (d.dao_attempt_list g.id s)
      else (ok (record { generation = new_generation g []; created = created }), s)

  abbrev finish : GenerationSubmitRequest → ℕ → Res GenerationSubmitResult → Action S SubmitResult
  finish r intent_at (err e) s = (err e, s)
  finish r intent_at (ok result) s = answer result.created (send_call r intent_at result s)

  -- What follows the transaction: a cap's refusal goes out as admission wrote it.
  unfoldable pub after_tx :
      GenerationSubmitRequest → ℕ → Option Err → Res GenerationSubmitResult → Action S SubmitResult
  after_tx r intent_at none outcome s = finish r intent_at outcome s
  after_tx r intent_at (some e) outcome s =
      if wraps usage_cap_reached e then (err e, s) else finish r intent_at outcome s

  -- `Exec`, of a request that is valid, with its key.
  unfoldable pub exec_keyed : GenerationSubmitRequest → Bytes → Action S SubmitResult
  exec_keyed r key s =
      let (id, s') = d.new_id s in
      let ((refusal, outcome), s'') =
        d.within_tx (submit_tx r (submission r id key (d.traceparent s))) s' in
      after_tx r (d.now s') refusal outcome s''

  unfoldable pub exec : GenerationSubmitRequest → Action S SubmitResult
  exec r s = elim (validate_request r) [
    | some e ↦ (err e, s)
    | none ↦ elim (request_key d.codec r) [
      | err e ↦ (err (prefixed "derive request key: " e), s)
      | ok key ↦ exec_keyed r key s
    ]
  ]
