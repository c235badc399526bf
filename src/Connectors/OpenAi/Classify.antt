-- ===== src/Connectors/OpenAi/Classify.antt =====
-- How openai.go classifies a failed call: `classifyOpenAIStartError`, `classifyOpenAIError` and
-- `classifyOpenAIStreamError`.
use service_genai.Prelude.{
  ℕ, String, Bool, not, ◌&&◌, ◌||◌, Option, none, some, if◌then◌else◌, ◌==◌, leb, str_eq,
}
use service_genai.Errors.{
  Err, Bytes, sentinel, prefixed, join, concat_text, retryable, start_ambiguous, response_too_large,
  stream_unavailable,
}

-- `openai.Error`: the answer of a provider that refused a request. `body` is what `errorBody`
-- restores, none when the provider sent no JSON error.
pub record ApiError : Type 0 where
  pub status : ℕ
  pub code : String
  pub message : String
  pub body : Option Bytes

-- An error of the HTTP client: the error, an answer of the provider among what it wraps, and
-- whether it is an `http.MaxBytesError`.
pub record HttpError : Type 0 where
  pub cause : Err
  pub api : Option ApiError
  pub oversized : Bool

abbrev pub retryable_err : Err
retryable_err = sentinel "retryable provider failure" retryable

abbrev pub ambiguous_err : Err
ambiguous_err = sentinel "provider start outcome is ambiguous" start_ambiguous

-- A `RejectionError`
abbrev pub rejection_err : Option Bytes → Err → Err
rejection_err body e =
    let p = prefixed "provider rejected the request: " e in record p { rejection = some body }

-- `withProviderMessage`: a refused key's message is left out.
unfoldable pub with_provider_message : Err → ApiError → Err
with_provider_message e api =
    if str_eq api.message "" || api.status == 401 then e else concat_text e ": " api.message

-- The switch of `classifyOpenAIStartError`.
unfoldable pub classify_start_status : Err → ApiError → Err
classify_start_status e api =
    if api.status == 429 && str_eq api.code "insufficient_quota"
    then rejection_err api.body e
    else if api.status == 429 || api.status == 401 || api.status == 409
    then join ": " retryable_err e
    else if api.status == 408 || leb 500 api.status
    then join ": " ambiguous_err e
    else rejection_err api.body e

-- `classifyOpenAIStartError`; `sent` tells that the request fully left.
unfoldable pub classify_start : HttpError → Bool → Err
classify_start h sent = elim h.api [
  | none ↦ if not sent then join ": " retryable_err h.cause else join ": " ambiguous_err h.cause
  | some api ↦ classify_start_status (with_provider_message h.cause api) api
]

-- The switch of `classifyOpenAIError`.
unfoldable pub classify_read_status : Err → ApiError → Err
classify_read_status e api =
    if api.status == 429
      || api.status == 408
      || api.status == 401
      || api.status == 403
      || leb 500 api.status
    then join ": " retryable_err e
    else prefixed "provider rejected the request: " e

-- `classifyOpenAIError`
unfoldable pub classify_read : HttpError → Err
classify_read h =
    if h.oversized
    then join ": " (sentinel "provider response too large" response_too_large) h.cause
    else elim h.api [
      | none ↦ join ": " retryable_err h.cause
      | some api ↦ classify_read_status (with_provider_message h.cause api) api
    ]

-- The switch of `classifyOpenAIStreamError`.
unfoldable pub classify_stream_status : Err → ApiError → Err
classify_stream_status e api =
    if api.status == 400 || api.status == 404
    then join ": " (sentinel "provider does not stream this operation" stream_unavailable) e
    else if api.status == 429 || leb 500 api.status
    then join ": " retryable_err e
    else e

-- `classifyOpenAIStreamError`
unfoldable pub classify_stream : HttpError → Err
classify_stream h = elim h.api [
  | none ↦ join ": " retryable_err h.cause
  | some api ↦ classify_stream_status (with_provider_message h.cause api) api
]
