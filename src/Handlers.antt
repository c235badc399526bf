-- ===== src/Handlers.antt =====
-- internal/handlers: what the service answers over gRPC and HTTP.
pub mod Generation
pub mod Read
pub mod Submit
pub mod Usage
pub mod Stream
pub mod Status
pub mod Hidden
pub mod Wire
pub mod Delivery
mod Tests
use service_genai.Prelude.{String}
use service_genai.Errors.{Err}

-- The codes of google.golang.org/grpc/codes that the handlers answer with.
pub data Code : Type 0 where
  invalid_argument not_found failed_precondition resource_exhausted : Code
  unimplemented unavailable internal : Code

-- What a handler returns: a response, `status.Error`, or `grpcf.Fault`, which keeps the error that it
-- hides.
pub data Reply (A : Type 0) : Type 0 where
  answered : A → Reply A
  status : Code → String → Reply A
  fault : Code → String → Err → Reply A

abbrev pub internal_error : {A : Type 0} → Err → Reply A
internal_error e = fault internal "internal error" e
