-- ===== src/Core/Generation.antt =====
-- internal/core/generation.go: the generation as the transports see it.
use service_genai.Prelude.{ℕ, String, Bool, Option, List, [], map, is_some, if◌then◌else◌}
use service_genai.Errors.{Bytes, prefixed}
use service_genai.Action.{Action, Res, ok, err}
use service_genai.Dao.Rows.{GenerationStatus, GenerationFailure, GenerationAttempt}
use service_genai.Dao.Rows

pub record Attempt : Type 0 where
  pub number : ℕ
  pub response : Bytes

pub record Generation : Type 0 where
  pub id : ℕ
  pub owner_id : ℕ
  pub purpose : String
  pub provider : String
  pub error : Option String
  pub failure : Option GenerationFailure
  pub status : GenerationStatus
  pub attempts : List Attempt
  pub created_at : ℕ
  pub updated_at : ℕ
  pub settled_at : Option ℕ
  pub expires_at : Option ℕ

-- `PayloadSizeCeiling`: 16 MiB.
abbrev pub payload_size_ceiling : ℕ
payload_size_ceiling = 16777216

abbrev new_attempt : GenerationAttempt → Attempt
new_attempt a = record { number = a.attempt; response = a.response }

-- `newGeneration`
unfoldable pub new_generation : Rows.Generation → List GenerationAttempt → Generation
new_generation g attempts = record {
  id = g.id;
  owner_id = g.owner_id;
  purpose = g.purpose;
  provider = g.provider;
  error = g.error;
  failure = g.failure;
  status = g.status;
  attempts = map new_attempt attempts;
  created_at = g.created_at;
  updated_at = g.updated_at;
  settled_at = g.settled_at;
  expires_at = g.expires_at;
}

-- `mayHaveAttempts`
unfoldable pub may_have_attempts : Rows.Generation → Bool
may_have_attempts g = is_some g.settled_at

abbrev listed :
    {S : Type 0} → Rows.Generation → Res (List GenerationAttempt) × S → Res Generation × S
listed g (ok attempts, s) = (ok (new_generation g attempts), s)
listed g (err e, s) = (err (prefixed "list attempts: " e), s)

-- The end of a service that answers with a generation: its answers are listed when it may have some.
unfoldable pub view :
    {S : Type 0} → (ℕ → Action S (List GenerationAttempt)) → Rows.Generation → Action S Generation
view list g s =
    if may_have_attempts g then listed g (list g.id s) else (ok (new_generation g []), s)
