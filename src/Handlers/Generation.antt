-- ===== src/Handlers/Generation.antt =====
-- `NewGrpcGeneration`, internal/handlers/grpc.generation.go: the wire form of a generation.
use service_genai.Prelude.{
  ℕ, ◌^◌, ◌%◌, ◌-◌, String, Option, none, some, List, map, get_or, ltb, if◌then◌else◌,
}
use service_genai.Prelude.Int.{ℤ, pos, negsuc}
use service_genai.Errors.{Bytes}
use service_genai.Dao.Rows
use service_genai.Dao.Rows.{GenerationFailure}
use service_genai.Core.Generation.{Generation, Attempt}

pub data WireStatus : Type 0 where
  unspecified pending running succeeded failed cancelled : WireStatus

pub data WireFailure : Type 0 where
  unspecified rejected provider_failed not_started outcome_unknown : WireFailure

pub record WireAttempt : Type 0 where
  pub number : ℤ
  pub response : Bytes

pub record WireGeneration : Type 0 where
  pub id : String
  pub owner_id : String
  pub purpose : String
  pub provider : String
  pub error : String
  pub failure_class : WireFailure
  pub status : WireStatus
  pub attempts : List WireAttempt
  pub created_at : ℕ
  pub updated_at : ℕ
  pub settled_at : Option ℕ
  pub expires_at : Option ℕ

-- `generationStatuses`
unfoldable pub wire_status : Rows.GenerationStatus → WireStatus
wire_status Rows.GenerationStatus.pending = WireStatus.pending
wire_status Rows.GenerationStatus.running = WireStatus.running
wire_status Rows.GenerationStatus.succeeded = WireStatus.succeeded
wire_status Rows.GenerationStatus.failed = WireStatus.failed
wire_status Rows.GenerationStatus.cancelled = WireStatus.cancelled

-- `generationFailures`, at the class or at none.
unfoldable pub wire_failure : Option GenerationFailure → WireFailure
wire_failure none = WireFailure.unspecified
wire_failure (some GenerationFailure.rejected) = WireFailure.rejected
wire_failure (some GenerationFailure.provider_failed) = WireFailure.provider_failed
wire_failure (some GenerationFailure.not_started) = WireFailure.not_started
wire_failure (some GenerationFailure.outcome_unknown) = WireFailure.outcome_unknown

-- The conversion to `int32`, of a number that is not negative.
unfoldable pub int32 : ℕ → ℤ
int32 n = let low = n % 2 ^ 32 in if ltb low (2 ^ 31) then pos low else negsuc (2 ^ 32 - 1 - low)

unfoldable pub wire_attempt : Attempt → WireAttempt
wire_attempt a = record { number = int32 a.number; response = a.response }

-- `NewGrpcGeneration`, with the text of an identifier.
unfoldable pub new_grpc_generation : (ℕ → String) → Generation → WireGeneration
new_grpc_generation text g = record {
  id = text g.id;
  owner_id = text g.owner_id;
  purpose = g.purpose;
  provider = g.provider;
  error = get_or "" g.error;
  failure_class = wire_failure g.failure;
  status = wire_status g.status;
  attempts = map wire_attempt g.attempts;
  created_at = g.created_at;
  updated_at = g.updated_at;
  settled_at = g.settled_at;
  expires_at = g.expires_at;
}
