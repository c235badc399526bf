-- ===== src/Dao/Rows.antt =====
-- The rows of internal/dao (pg.generation.go, pg.generationAttempt.go, pg.generationUsage.go), and
-- the tables. Identifiers are numbers, as a UUID is; times are nanoseconds of the database clock.
use service_genai.Prelude.{
  ℕ, String, Bool, true, false, not, ◌&&◌, ◌||◌, Option, none, some, List, [], ◌∷◌, ◌==◌, is_some,
  str_eq,
}
use service_genai.Prelude.Int.{ℤ}
use service_genai.Errors.{Bytes}

pub data GenerationStatus : Type 0 where
  pending running succeeded failed cancelled : GenerationStatus

pub data GenerationFailure : Type 0 where
  rejected provider_failed not_started outcome_unknown : GenerationFailure

-- `read_at` is no column: a statement that carries the clock fills it, and the others leave 0.
pub record Generation : Type 0 where
  pub id : ℕ
  pub owner_id : ℕ
  pub purpose : String
  pub provider : String
  pub request_key : Bytes
  pub error : Option String
  pub failure : Option GenerationFailure
  pub status : GenerationStatus
  pub start_requested_at : Option ℕ
  pub provider_call_id : Option String
  pub cancel_requested_at : Option ℕ
  pub read_at : ℕ
  pub traceparent : Option String
  pub outcome_unknown_at : Option ℕ
  pub streamed : Bool
  pub created_at : ℕ
  pub updated_at : ℕ
  pub settled_at : Option ℕ
  pub expires_at : Option ℕ

pub record GenerationAttempt : Type 0 where
  pub generation_id : ℕ
  pub attempt : ℕ
  pub response : Bytes
  pub created_at : ℕ

pub record GenerationUsage : Type 0 where
  pub generation_id : ℕ
  pub attempt : ℕ
  pub owner_id : ℕ
  pub purpose : String
  pub provider : String
  pub model : String
  pub class : String
  pub tier : Option String
  pub input_tokens : ℤ
  pub cached_input_tokens : ℤ
  pub cache_write_tokens : ℤ
  pub output_tokens : ℤ
  pub reasoning_tokens : ℤ
  pub started_at : ℕ
  pub completed_at : Option ℕ
  pub created_at : ℕ

-- The three tables, and the database clock.
pub record Tables : Type 0 where
  pub generations : List Generation
  pub attempts : List GenerationAttempt
  pub usage : List GenerationUsage
  pub clock : ℕ

-- `status IN ('pending', 'running')`
abbrev pub is_live : GenerationStatus → Bool
is_live GenerationStatus.pending = true
is_live GenerationStatus.running = true
is_live _ = false

abbrev pub is_pending : GenerationStatus → Bool
is_pending GenerationStatus.pending = true
is_pending _ = false

abbrev pub is_running : GenerationStatus → Bool
is_running GenerationStatus.running = true
is_running _ = false

abbrev pub is_failed : GenerationStatus → Bool
is_failed GenerationStatus.failed = true
is_failed _ = false

-- `status NOT IN ('failed', 'cancelled')`: the predicate of the index on the request key.
abbrev pub holds_key : GenerationStatus → Bool
holds_key GenerationStatus.failed = false
holds_key GenerationStatus.cancelled = false
holds_key _ = true

abbrev same : Bool → Bool → Bool
same true b = b
same false b = not b

abbrev pub filled : Option String → Bool
filled none = true
filled (some t) = not (str_eq t "")

-- The CHECK constraints of the table `generations`, in the migrations' order.
unfoldable pub checks : Generation → Bool
checks g =
    not (str_eq g.purpose "")
    && not (str_eq g.provider "")
    && filled g.error
    && filled g.provider_call_id
    && (not (is_live g.status) || same (is_running g.status) (is_some g.provider_call_id))
    && same (not (is_live g.status)) (is_some g.settled_at && is_some g.expires_at)
    && (not (is_some g.outcome_unknown_at) || is_failed g.status)
    && (not (is_some g.failure) || is_failed g.status)

abbrev pub bytes_eq : Bytes → Bytes → Bool
bytes_eq [] [] = true
bytes_eq (a ∷ as') (b ∷ bs) = a == b && bytes_eq as' bs
bytes_eq _ _ = false
