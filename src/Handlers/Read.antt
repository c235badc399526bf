-- ===== src/Handlers/Read.antt =====
-- `GrpcGenerationGet` and `GrpcGenerationCancel`: grpc.generationGet.go and grpc.generationCancel.go.
use service_genai.Prelude.{ℕ, String, Option, none, some, if◌then◌else◌}
use service_genai.Errors.{wraps, not_found, invalid_request}
use service_genai.Action.{Action, Res, ok, err}
use service_genai.Core.Generation.{Generation}
use service_genai.Core.Get.{GenerationGetRequest}
use service_genai.Core.Cancel.{GenerationCancelRequest}
use service_genai.Handlers.{Code, Reply, answered, status, internal_error}
use service_genai.Handlers.Generation.{WireGeneration, new_grpc_generation}

-- `uuid.Parse` and the text of an identifier.
pub record Ids : Type 0 where
  pub parse : String → Option ℕ
  pub text : ℕ → String

-- What follows the service in both handlers.
unfoldable pub generation_reply : Ids → Res Generation → Reply WireGeneration
generation_reply ids (ok g) = answered (new_grpc_generation ids.text g)
generation_reply ids (err e) =
    if wraps not_found e
    then status Code.not_found "generation not found"
    else if wraps invalid_request e
    then status Code.invalid_argument "invalid request"
    else internal_error e

-- The two identifiers of a request, read in their order.
unfoldable pub with_ids :
    {S A : Type 0} → Ids → String → String → (ℕ → ℕ → S → Reply A × S) → S → Reply A × S
with_ids ids id owner_id k s = elim (ids.parse id) [
  | none ↦ (status Code.invalid_argument "invalid generation id", s)
  | some generation_id ↦ elim (ids.parse owner_id) [
    | none ↦ (status Code.invalid_argument "invalid owner id", s)
    | some owner ↦ k generation_id owner s
  ]
]

abbrev pub replied : {S : Type 0} → Ids → Res Generation × S → Reply WireGeneration × S
replied ids (r, s) = (generation_reply ids r, s)

module _ {S : Type 0} (ids : Ids) where
  -- `GenerationGet`
  unfoldable pub generation_get :
      (GenerationGetRequest → Action S Generation) → String → String → S → Reply WireGeneration × S
  generation_get service id owner_id =
      with_ids ids id owner_id
        (λ i owner s. replied ids (service (record { id = i; owner_id = owner }) s))

  -- `GenerationCancel`
  unfoldable pub generation_cancel :
      (GenerationCancelRequest → Action S Generation)
      → String
      → String
      → S
      → Reply WireGeneration × S
  generation_cancel service id owner_id =
      with_ids ids id owner_id
        (λ i owner s. replied ids (service (record { id = i; owner_id = owner }) s))
