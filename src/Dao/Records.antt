-- ===== src/Dao/Records.antt =====
-- What a settle records beside the generation: pg.generationAttemptInsert and
-- pg.generationUsageInsert. A generation runs one call, recorded as attempt 1.
use service_genai.Prelude.{
  ℕ, String, Bool, true, not, ◌&&◌, Option, none, some, ◌∷◌, if◌then◌else◌, ◌==◌, str_eq, any,
}
use service_genai.Prelude.Int.{ℤ, pos, leb_ℤ}
use service_genai.Errors.{Bytes, sentinel, no_rows, usage_exists}
use service_genai.Action.{Action}
use service_genai.Dao.Rows.{GenerationAttempt, GenerationUsage, Tables}
use service_genai.Dao.Answers.{
  Answer, row, empty, raised, scan, refused_err, check_violation, unique_violation,
  foreign_key_violation,
}

pub record GenerationAttemptInsertRequest : Type 0 where
  pub generation_id : ℕ
  pub response : Bytes

abbrev attempt_row : GenerationAttemptInsertRequest → ℕ → GenerationAttempt
attempt_row r at = record {
  generation_id = r.generation_id;
  attempt = 1;
  response = r.response;
  created_at = at;
}

unfoldable pub attempt_statement :
    GenerationAttemptInsertRequest → Tables → Answer GenerationAttempt × Tables
attempt_statement r t =
    if any (λ a. a.generation_id == r.generation_id && a.attempt == 1) t.attempts
    then (raised unique_violation, t)
    else if any (λ g. g.id == r.generation_id) t.generations
    then (row (attempt_row r t.clock), record t { attempts = attempt_row r t.clock ∷ t.attempts })
    else (raised foreign_key_violation, t)

-- `PgGenerationAttemptInsert.Exec`
unfoldable pub attempt_insert : GenerationAttemptInsertRequest → Action Tables GenerationAttempt
attempt_insert r t =
    let (answer, t') = attempt_statement r t in
    (scan refused_err (sentinel "sql: no rows in result set" no_rows) answer, t')

pub record GenerationUsageInsertRequest : Type 0 where
  pub generation_id : ℕ
  pub owner_id : ℕ
  pub purpose : String
  pub provider : String
  pub model : String
  pub class : String
  pub tier : Option String
  pub input_tokens : ℤ
  pub cached_input_tokens : ℤ
  pub cache_write_tokens : ℤ
  pub output_tokens : ℤ
  pub reasoning_tokens : ℤ
  pub started_at : ℕ
  pub completed_at : Option ℕ

abbrev pub usage_row : GenerationUsageInsertRequest → ℕ → GenerationUsage
usage_row r at = record {
  generation_id = r.generation_id;
  attempt = 1;
  owner_id = r.owner_id;
  purpose = r.purpose;
  provider = r.provider;
  model = r.model;
  class = r.class;
  tier = r.tier;
  input_tokens = r.input_tokens;
  cached_input_tokens = r.cached_input_tokens;
  cache_write_tokens = r.cache_write_tokens;
  output_tokens = r.output_tokens;
  reasoning_tokens = r.reasoning_tokens;
  started_at = r.started_at;
  completed_at = r.completed_at;
  created_at = at;
}

abbrev named : Option String → Bool
named none = true
named (some t) = not (str_eq t "")

-- The CHECK constraints of the table `generation_usage`.
unfoldable pub usage_checks : GenerationUsage → Bool
usage_checks u =
    not (str_eq u.purpose "")
    && not (str_eq u.provider "")
    && not (str_eq u.model "")
    && not (str_eq u.class "")
    && named u.tier
    && leb_ℤ (pos 0) u.input_tokens
    && leb_ℤ (pos 0) u.cached_input_tokens
    && leb_ℤ (pos 0) u.cache_write_tokens
    && leb_ℤ (pos 0) u.output_tokens
    && leb_ℤ (pos 0) u.reasoning_tokens
    && leb_ℤ u.cached_input_tokens u.input_tokens
    && leb_ℤ u.reasoning_tokens u.output_tokens

-- The row already there wins: `ON CONFLICT (generation_id, attempt) DO NOTHING`.
unfoldable pub usage_statement :
    GenerationUsageInsertRequest → Tables → Answer GenerationUsage × Tables
usage_statement r t =
    if usage_checks (usage_row r t.clock)
    then if any (λ u. u.generation_id == r.generation_id && u.attempt == 1) t.usage
      then (empty, t)
      else (row (usage_row r t.clock), record t { usage = usage_row r t.clock ∷ t.usage })
    else (raised check_violation, t)

-- `PgGenerationUsageInsert.Exec`
unfoldable pub usage_insert : GenerationUsageInsertRequest → Action Tables GenerationUsage
usage_insert r t =
    let (answer, t') = usage_statement r t in
    (scan refused_err (sentinel "usage already recorded for this attempt" usage_exists) answer, t')
