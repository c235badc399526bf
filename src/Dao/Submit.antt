-- ===== src/Dao/Submit.antt =====
-- pg.generationSubmit: the insert that deduplicates on the request key. The owner's advisory lock
-- makes the statements of one owner's submits follow one another, as the calls of `submit` do here.
use service_genai.Prelude.{
  ℕ, String, Bool, ◌&&◌, Option, none, some, ◌∷◌, if◌then◌else◌, ◌==◌, find, any,
}
use service_genai.Errors.{Bytes, sentinel, no_rows}
use service_genai.Action.{Action, Res, ok, err}
use service_genai.Dao.Rows.{Generation, GenerationStatus, Tables, holds_key, checks, bytes_eq}
use service_genai.Dao.Answers.{
  Answer, row, raised, scan, unjudged, check_violation, unique_violation,
}

pub record GenerationSubmitRequest : Type 0 where
  pub id : ℕ
  pub owner_id : ℕ
  pub purpose : String
  pub provider : String
  pub request_key : Bytes
  pub traceparent : Option String
  pub streamed : Bool

pub record GenerationSubmitResult : Type 0 where
  pub generation : Generation
  pub created : Bool

-- The row that the statement inserts; what it leaves out takes the column's default.
unfoldable pub new_row : GenerationSubmitRequest → ℕ → Generation
new_row r at = record {
  id = r.id;
  owner_id = r.owner_id;
  purpose = r.purpose;
  provider = r.provider;
  request_key = r.request_key;
  error = none;
  failure = none;
  status = GenerationStatus.pending;
  start_requested_at = some at;
  provider_call_id = none;
  cancel_requested_at = none;
  read_at = 0;
  traceparent = r.traceparent;
  outcome_unknown_at = none;
  streamed = r.streamed;
  created_at = at;
  updated_at = at;
  settled_at = none;
  expires_at = none;
}

-- The rows that `ON CONFLICT (request_key) WHERE status NOT IN (…)` finds.
abbrev pub replays : Bytes → Generation → Bool
replays key g = bytes_eq g.request_key key && holds_key g.status

-- The statement. PostgreSQL tests the CHECKs of the proposed row, then the conflict, then the
-- primary key; the update of a conflict writes the row's own `updated_at`.
unfoldable pub submit_statement : GenerationSubmitRequest → Tables → Answer Generation × Tables
submit_statement r t =
    if checks (new_row r t.clock)
    then elim (find (replays r.request_key) t.generations) [
      | some g ↦ (row g, t)
      | none ↦ if any (λ g. g.id == r.id) t.generations then (raised unique_violation, t) else (
        row (new_row r t.clock),
        record t { generations = new_row r t.clock ∷ t.generations },
      )
    ]
    else (raised check_violation, t)

abbrev result : GenerationSubmitRequest → Res Generation → Res GenerationSubmitResult
result r (ok g) = ok (record { generation = g; created = g.id == r.id })
result r (err e) = err e

-- `PgGenerationSubmit.Exec`
unfoldable pub submit : GenerationSubmitRequest → Action Tables GenerationSubmitResult
submit r t =
    let (answer, t') = submit_statement r t in
    (result r (scan unjudged (sentinel "sql: no rows in result set" no_rows) answer), t')
