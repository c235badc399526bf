-- ===== src/Core/Submit/Key.antt =====
-- `requestKey` and `canonicalPayload` of internal/core/generationSubmit.go: the key that identifies
-- a request among an owner's generations.
use service_genai.Prelude.{
  ℕ, zero, suc, ◌/◌, ◌%◌, String, List, [], ◌∷◌, ◌++◌, if◌then◌else◌, length,
}
use service_genai.Errors.{Bytes, prefixed}
use service_genai.Action.{Res, ok, err}
use service_genai.Core.Submit.Request.{GenerationSubmitRequest, Codec}

-- `binary.BigEndian` at a width in bytes: the low bytes of the number, the highest first. A number
-- that does not fit wraps.
unfoldable pub big_endian : ℕ → ℕ → Bytes
big_endian zero n = []
big_endian (suc w) n = big_endian w (n / 256) ++ (n % 256) ∷ []

-- The bytes that the digest is written: each field behind its length on eight bytes.
unfoldable pub frame : List Bytes → Bytes
frame [] = []
frame (field ∷ fields) = big_endian 8 (length field) ++ (field ++ frame fields)

-- "a-novel/genai/request-key/v4", "async" and "async-streamed"
abbrev pub request_key_tag : Bytes
request_key_tag =
    97 ∷ 45 ∷ 110 ∷ 111 ∷ 118 ∷ 101 ∷ 108 ∷ 47 ∷ 103 ∷ 101 ∷ 110 ∷ 97 ∷ 105 ∷ 47 ∷ 114 ∷ 101 ∷ 113
    ∷ 117 ∷ 101 ∷ 115 ∷ 116 ∷ 45 ∷ 107 ∷ 101 ∷ 121 ∷ 47 ∷ 118 ∷ 52 ∷ []

abbrev pub async_mode : Bytes
async_mode = 97 ∷ 115 ∷ 121 ∷ 110 ∷ 99 ∷ []

abbrev pub streamed_mode : Bytes
streamed_mode = 97 ∷ 115 ∷ 121 ∷ 110 ∷ 99 ∷ 45 ∷ 115 ∷ 116 ∷ 114 ∷ 101 ∷ 97 ∷ 109 ∷ 101 ∷ 100 ∷ []

-- The fields of the key, with the canonical payload.
unfoldable pub fields : GenerationSubmitRequest → Bytes → List Bytes
fields r payload =
    request_key_tag
    ∷ r.owner_bytes
    ∷ r.purpose_bytes
    ∷ r.provider_bytes
    ∷ (if r.stream then streamed_mode else async_mode)
    ∷ payload
    ∷ big_endian 4 r.variant
    ∷ []

module _ (codec : Codec) where
  -- The loop over the members.
  unfoldable pub format_members : List (String × Bytes) → Res (List (String × Bytes))
  format_members [] = ok []
  format_members ((name, value) ∷ members) =
      let rest = format_members members in
      elim (codec.format value) [
        | err e ↦ err (prefixed "format: " e)
        | ok formatted ↦ elim rest [ err e ↦ err e | ok others ↦ ok ((name, formatted) ∷ others) ]
      ]

  unfoldable pub canonical_payload : Bytes → Res Bytes
  canonical_payload payload = elim (codec.decode payload) [
    | err e ↦ err (prefixed "decode payload: " e)
    | ok members ↦ elim (format_members members) [
      | err e ↦ err e
      | ok formatted ↦ elim (codec.encode formatted) [
        | err e ↦ err (prefixed "encode payload: " e)
        | ok canonical ↦ ok canonical
      ]
    ]
  ]

  unfoldable pub request_key : GenerationSubmitRequest → Res Bytes
  request_key r = elim (canonical_payload r.payload) [
    | err e ↦ err (prefixed "canonicalize payload: " e)
    | ok payload ↦ ok (codec.sha256 (frame (fields r payload)))
  ]
