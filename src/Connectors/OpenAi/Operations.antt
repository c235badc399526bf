-- ===== src/Connectors/OpenAi/Operations.antt =====
-- `Start`, `Get`, `Cancel`, `holdStream` and `asyncEnvelope` of openai.go.
use service_genai.Prelude.{
  String, Bool, true, false, Option, none, some, List, [], ◌∷◌, if◌then◌else◌, ◌==◌, str_eq, not,
}
use service_genai.Errors.{Bytes, prefixed, plain, join}
use service_genai.Action.{Action, Res, ok, err}
use service_genai.Connectors.{Async, AsyncStartRequest, Call, CallState}
use service_genai.Connectors.OpenAi.Classify.{
  ApiError, HttpError, retryable_err, ambiguous_err, classify_start, classify_read,
}
use service_genai.Connectors.OpenAi.Response.{OpenAiResponse, provider_call_of}

pub data Http {ℓ} (A : Type ℓ) : Type ℓ where
  answered : A → Http A
  broken : HttpError → Http A

-- The SDK's client and the JSON package. A post of a start tells also whether the request fully
-- left. A stream is the list of its events, each with the `response` that it carries; none is an
-- event that does not decode.
pub record Client (S : Type 0) : Type 0 where
  pub post : Bytes → S → (Http Bytes × Bool) × S
  pub post_stream : Bytes → S → (Http (List (Option Bytes)) × Bool) × S
  pub read : String → S → Http Bytes × S
  pub post_cancel : String → S → Http Bytes × S
  pub decode : Bytes → Res OpenAiResponse
  pub decode_fields : Bytes → Res (List (String × Bytes))
  pub encode : List (String × Bytes) → Res Bytes

-- `fields[name] = value`
unfoldable pub set_field : String → Bytes → List (String × Bytes) → List (String × Bytes)
set_field name value [] = (name, value) ∷ []
set_field name value ((n, v) ∷ fields) =
    if str_eq n name then (name, value) ∷ fields else (n, v) ∷ set_field name value fields

-- The bytes of `true` and `false`.
abbrev pub json_bool : Bool → Bytes
json_bool true = 116 ∷ 114 ∷ 117 ∷ 101 ∷ []
json_bool false = 102 ∷ 97 ∷ 108 ∷ 115 ∷ 101 ∷ []

unfoldable pub async_fields : Bool → List (String × Bytes) → List (String × Bytes)
async_fields stream fields =
    set_field "stream" (json_bool stream) (set_field "background" (json_bool true) fields)

abbrev pub is_queued : CallState → Bool
is_queued CallState.queued = true
is_queued _ = false

module _ {S : Type 0} (client : Client S) where
  -- `asyncEnvelope`
  unfoldable pub async_envelope : Bytes → Bool → Res Bytes
  async_envelope payload stream = elim (client.decode_fields payload) [
    | err e ↦ err (prefixed "decode payload: " e)
    | ok fields ↦ client.encode (async_fields stream fields)
  ]

  abbrev read_result : Bytes → Res Call
  read_result raw = elim (provider_call_of client.decode raw) [
    | err e ↦ err (join ": " retryable_err e)
    | ok call ↦ ok call
  ]

  -- `Get`
  unfoldable pub get : String → Action S Call
  get id s =
      let (answer, s') = client.read id s in
      elim answer [ broken h ↦ (err (classify_read h), s') | answered raw ↦ (read_result raw, s') ]

  abbrev is_bad_request : Option ApiError → Bool
  is_bad_request none = false
  is_bad_request (some api) = api.status == 400

  -- `Cancel`: a finished operation, which the provider refuses to cancel, is read instead.
  unfoldable pub cancel : String → Action S Call
  cancel id s =
      let (answer, s') = client.post_cancel id s in
      elim answer [
        | broken h ↦ if is_bad_request h.api then get id s' else (err (classify_read h), s')
        | answered raw ↦ (read_result raw, s')
      ]

  -- The call that an event names, none for an event that names none.
  unfoldable pub named_call : Option Bytes → Option Call
  named_call none = none
  named_call (some raw) = elim (provider_call_of client.decode raw) [
    | err e ↦ none
    | ok call ↦ if str_eq call.id "" then none else some call
  ]

  module _ {C : Type 0} (accepted : Call → Action (C × S) (Unit {0})) where
    abbrev announced : Option Call → Call → Action (C × S) (Unit {0})
    announced none call t = accepted call t
    announced (some earlier) call t = (ok tt, t)

    -- The loop of `holdStream` over the events, with the last call named so far.
    unfoldable pub hold_loop : List (Option Bytes) → Option Call → Action (C × S) (Option Call)
    hold_loop [] last t = (ok last, t)
    hold_loop (event ∷ events) last t =
        let skip = hold_loop events last t in
        elim (named_call event) [
          | none ↦ skip
          | some call ↦
              let (r, t') = announced last call t in
              let rest = hold_loop events (some call) t' in
              elim r [
                | err e ↦ (err e, t')
                | ok u ↦ if not (is_queued call.state) then (ok (some call), t') else rest
              ]
        ]

    abbrev pub held : Res (Option Call) × (C × S) → Res Call × (C × S)
    held (err e, t) = (err e, t)
    held (ok (some call), t) = (ok call, t)
    held (ok none, t) =
        (err (join ": " ambiguous_err (plain "the stream ended before the operation's id")), t)

    -- `holdStream`
    unfoldable pub hold_stream : Bytes → Action (C × S) Call
    hold_stream body (c, s) =
        let ((answer, sent), s') = client.post_stream body s in
        elim answer [
          | broken h ↦ (err (classify_start h sent), (c, s'))
          | answered events ↦ held (hold_loop events none (c, s'))
        ]

  -- The call of a start's answer: unreadable or unnamed, it is ambiguous.
  unfoldable pub started_call : Bytes → Res Call
  started_call raw = elim (provider_call_of client.decode raw) [
    | err e ↦ err (join ": " ambiguous_err e)
    | ok call ↦
        if str_eq call.id ""
        then err (join ": " ambiguous_err (plain "the response names no operation"))
        else ok call
  ]

  module _ {C : Type 0} where
    abbrev pub posted : C → (Http Bytes × Bool) × S → Res Call × (C × S)
    posted c ((broken h, sent), s) = (err (classify_start h sent), (c, s))
    posted c ((answered raw, sent), s) = (started_call raw, (c, s))

    -- `Start`
    unfoldable pub start : AsyncStartRequest (C × S) → Action (C × S) Call
    start request (c, s) = elim (async_envelope request.payload request.stream) [
      | err e ↦ (err (prefixed "write async envelope: " e), (c, s))
      | ok body ↦
          if request.stream
          then hold_stream request.accepted body (c, s)
          else posted c (client.post body s)
    ]

    -- The connector in the Async mode.
    unfoldable pub open_ai : Async S C
    open_ai = record { start = start; get = get; cancel = cancel }
