-- ===== src/Core/Submit/Request.antt =====
-- The request of a submit, and what its service is given. Durations are in nanoseconds; the struct
-- validation refuses a negative number, so the model has none.
use service_genai.Prelude.{ℕ, String, Bool, Option, List}
use service_genai.Prelude.Int.{ℤ}
use service_genai.Errors.{Err, Bytes}
use service_genai.Action.{Action, Res}
use service_genai.Connectors.{Registry}
use service_genai.Dao.Rows.{Generation, GenerationAttempt}
use service_genai.Dao.Submit.{GenerationSubmitResult}
use service_genai.Dao.Submit
use service_genai.Dao.Reads.{
  GenerationCountLiveRequest, GenerationUsageSumRequest, GenerationUsageTotals,
}
use service_genai.Core.Check.Deps.{CheckRequest, Captured}

pub record GenerationCapWindow : Type 0 where
  pub duration : ℕ
  pub input_tokens : Option ℤ
  pub output_tokens : Option ℤ

pub record GenerationCaps : Type 0 where
  pub concurrency : Option ℕ
  pub windows : List GenerationCapWindow

-- `owner_bytes` are the 16 bytes of the owner's identifier.
pub record GenerationSubmitRequest : Type 0 where
  pub owner_id : ℕ
  pub owner_bytes : Bytes
  pub purpose : String
  pub purpose_bytes : Bytes
  pub provider : String
  pub provider_bytes : Bytes
  pub payload : Bytes
  pub variant : ℕ
  pub stream : Bool
  pub caps : Option GenerationCaps

-- The JSON package and the hash: a payload as its members, a member's value formatted, members
-- encoded with sorted names, a payload's validity as an I-JSON object, and SHA-256.
pub record Codec : Type 0 where
  pub is_object : Bytes → Bool
  pub decode : Bytes → Res (List (String × Bytes))
  pub format : Bytes → Res Bytes
  pub encode : List (String × Bytes) → Res Bytes
  pub sha256 : Bytes → Bytes

-- What `NewGenerationSubmit` takes, over any state `S`, with the struct validation, the process
-- clock, the minting of an identifier and the trace context of the call. A transaction gives back
-- the variable `refusal` that its function assigned, with its result.
pub record SubmitDeps (S St : Type 0) : Type 0 where
  pub dao : Submit.GenerationSubmitRequest → Action S GenerationSubmitResult
  pub dao_attempt_list : ℕ → Action S (List GenerationAttempt)
  pub dao_usage_sum : GenerationUsageSumRequest → Action S (List GenerationUsageTotals)
  pub dao_count_live : GenerationCountLiveRequest → Action S ℕ
  pub service_check : CheckRequest → Action S Generation
  pub registry : Registry S Captured St
  pub within_tx :
      (S → (Option Err × Res GenerationSubmitResult) × S)
      → S
      → (Option Err × Res GenerationSubmitResult) × S
  pub purposes : List String
  pub validate : GenerationSubmitRequest → Option Err
  pub codec : Codec
  pub now : S → ℕ
  pub new_id : S → ℕ × S
  pub traceparent : S → Option String
