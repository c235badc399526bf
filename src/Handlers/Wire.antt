-- ===== src/Handlers/Wire.antt =====
-- The wire form of a generation, read back as a caller reads it.
use service_genai.Prelude.{
  ℕ, ◌^◌, ◌<◌, ◌≡◌, ◌≢◌, refl, String, Option, none, some, List, [], ◌∷◌, arith, All, map, get_or,
  if◌then◌else◌, str_eq, eq_iff,
}
use service_genai.Prelude.Int.{ℤ, pos, negsuc}
use service_genai.Dao.Rows
use service_genai.Dao.Rows.{GenerationFailure}
use service_genai.Core.Generation.{Generation, Attempt}
use service_genai.Handlers.Read.{Ids}
use service_genai.Handlers.Generation.{
  WireStatus, WireFailure, WireAttempt, WireGeneration, wire_status, wire_failure, wire_attempt,
  int32, new_grpc_generation,
}

abbrev read_status : WireStatus → Option Rows.GenerationStatus
read_status WireStatus.unspecified = none
read_status WireStatus.pending = some Rows.GenerationStatus.pending
read_status WireStatus.running = some Rows.GenerationStatus.running
read_status WireStatus.succeeded = some Rows.GenerationStatus.succeeded
read_status WireStatus.failed = some Rows.GenerationStatus.failed
read_status WireStatus.cancelled = some Rows.GenerationStatus.cancelled

abbrev read_failure : WireFailure → Option GenerationFailure
read_failure WireFailure.unspecified = none
read_failure WireFailure.rejected = some GenerationFailure.rejected
read_failure WireFailure.provider_failed = some GenerationFailure.provider_failed
read_failure WireFailure.not_started = some GenerationFailure.not_started
read_failure WireFailure.outcome_unknown = some GenerationFailure.outcome_unknown

abbrev read_error : String → Option String
read_error t = if str_eq t "" then none else some t

abbrev natural : ℤ → ℕ
natural (pos n) = n
natural (negsuc n) = 0

abbrev read_attempt : WireAttempt → Attempt
read_attempt a = record { number = natural a.number; response = a.response }

abbrev read_with :
    WireGeneration → Option ℕ → Option ℕ → Option Rows.GenerationStatus → Option Generation
read_with w (some id) (some owner) (some status) = some (record {
  id = id;
  owner_id = owner;
  purpose = w.purpose;
  provider = w.provider;
  error = read_error w.error;
  failure = read_failure w.failure_class;
  status = status;
  attempts = map read_attempt w.attempts;
  created_at = w.created_at;
  updated_at = w.updated_at;
  settled_at = w.settled_at;
  expires_at = w.expires_at;
})
read_with w _ _ _ = none

-- What a caller makes of a message.
abbrev pub read_generation : Ids → WireGeneration → Option Generation
read_generation ids w = read_with w (ids.parse w.id) (ids.parse w.owner_id) (read_status w.status)

read_wire_status : (s : Rows.GenerationStatus) → read_status (wire_status s) ≡ some s
unfolding wire_status
read_wire_status s = ground arith

read_wire_failure : (f : Option GenerationFailure) → read_failure (wire_failure f) ≡ f
unfolding wire_failure
read_wire_failure f = ground arith

read_error_lem : (e : Option String) → e ≢ some "" → read_error (get_or "" e) ≡ e
read_error_lem none n = refl
read_error_lem (some t) n = ground (arith, eq_iff t "")

read_wire_attempts :
    (as' : List Attempt)
    → All (λ a. a.number < 2 ^ 31) as'
    → map read_attempt (map wire_attempt as') ≡ as'
unfolding wire_attempt int32
read_wire_attempts [] h = refl
read_wire_attempts (a ∷ rest) h = ground (arith, read_wire_attempts rest h.1, h.0)

-- A generation whose error, if any, is not empty, whose attempts are numbered below 2^31, and whose
-- identifiers are read back from their texts, is read back from its message as it was.
pub new_grpc_generation-read :
    (ids : Ids) (g : Generation)
    → ids.parse (ids.text g.id) ≡ some g.id
    → ids.parse (ids.text g.owner_id) ≡ some g.owner_id
    → g.error ≢ some ""
    → All (λ a. a.number < 2 ^ 31) g.attempts
    → read_generation ids (new_grpc_generation ids.text g) ≡ some g
unfolding new_grpc_generation
new_grpc_generation-read ids g named owned e h = ground (
  arith,
  named,
  owned,
  read_wire_status g.status,
  read_wire_failure g.failure,
  read_error_lem g.error e,
  read_wire_attempts g.attempts h,
)
