-- ===== src/Dao/Lifecycle.antt =====
-- The transitions of a stored generation: pg.generationSettle, pg.generationRecordProviderCall and
-- pg.generationRequestCancel, the .sql statement and the Exec of each.
use service_genai.Prelude.{
  ℕ, ◌+◌, String, Bool, true, false, ◌&&◌, Option, none, some, List, [], ◌∷◌, if◌then◌else◌, ◌==◌,
  is_some, str_eq,
}
use service_genai.Errors.{sentinel, generation_changed, not_cancellable}
use service_genai.Action.{Action, Res}
use service_genai.Dao.Rows.{
  Generation, GenerationStatus, GenerationFailure, Tables, is_live, is_pending, checks,
}
use service_genai.Dao.Answers.{
  Answer, row, empty, raised, scan, refused_err, unjudged, check_violation,
}

pub record GenerationSettleRequest : Type 0 where
  pub id : ℕ
  pub start_requested_at : Option ℕ
  pub provider_call_id : Option String
  pub status : GenerationStatus
  pub error : Option String
  pub failure : Option GenerationFailure
  pub retention : ℕ
  pub outcome_unknown : Bool

pub record GenerationRecordProviderCallRequest : Type 0 where
  pub id : ℕ
  pub provider_call_id : String

pub record GenerationRequestCancelRequest : Type 0 where
  pub id : ℕ
  pub owner_id : ℕ
  pub error : String
  pub retention : ℕ

-- `IS NOT DISTINCT FROM`
abbrev pub same_time : Option ℕ → Option ℕ → Bool
same_time none none = true
same_time (some a) (some b) = a == b
same_time _ _ = false

abbrev pub same_text : Option String → Option String → Bool
same_text none none = true
same_text (some a) (some b) = str_eq a b
same_text _ _ = false

-- An UPDATE whose WHERE names the primary key: it reaches one row at most. A row that breaks a
-- CHECK raises, and nothing is written.
unfoldable pub update_rows :
    (Generation → Bool)
    → (Generation → Generation)
    → List Generation
    → Answer (Generation × List Generation)
update_rows match change [] = empty
update_rows match change (g ∷ gs) =
    if match g
    then if checks (change g) then row (change g, change g ∷ gs) else raised check_violation
    else elim (update_rows match change gs) [
      | row (h, hs) ↦ row (h, g ∷ hs)
      | empty ↦ empty
      | raised code ↦ raised code
    ]

-- The statement on the tables, with `RETURNING`.
unfoldable pub update :
    (Generation → Bool) → (Generation → Generation) → Tables → Answer Generation × Tables
update match change t = elim (update_rows match change t.generations) [
  | row (g, gs) ↦ (row g, record t { generations = gs })
  | empty ↦ (empty, t)
  | raised code ↦ (raised code, t)
]

-- pg.generationSettle.sql: the WHERE and the SET, at one instant.
unfoldable pub settle_match : GenerationSettleRequest → Generation → Bool
settle_match r g =
    g.id == r.id
    && same_text g.provider_call_id r.provider_call_id
    && same_time g.start_requested_at r.start_requested_at
    && is_live g.status

unfoldable pub settle_set : GenerationSettleRequest → ℕ → Generation → Generation
settle_set r at g = record g {
  status = r.status;
  error = r.error;
  failure = r.failure;
  settled_at = some at;
  expires_at = some (at + r.retention);
  outcome_unknown_at = if r.outcome_unknown then some at else none;
  updated_at = at;
}

-- `PgGenerationSettle.Exec`
unfoldable pub settle : GenerationSettleRequest → Action Tables Generation
settle r t =
    let (answer, t') = update (settle_match r) (settle_set r t.clock) t in
    (
      scan refused_err (sentinel "generation changed before the transition" generation_changed)
          answer,
      t',
    )

-- pg.generationRecordProviderCall.sql
unfoldable pub record_match : GenerationRecordProviderCallRequest → Generation → Bool
record_match r g = g.id == r.id && is_pending g.status && is_some g.start_requested_at

unfoldable pub record_set : GenerationRecordProviderCallRequest → ℕ → Generation → Generation
record_set r at g = record g {
  provider_call_id = some r.provider_call_id;
  status = GenerationStatus.running;
  updated_at = at;
}

-- The instant of a write that a statement returns as the read.
abbrev pub read_at : ℕ → Res Generation → Res Generation
read_at at (Res.ok g) = Res.ok (record g { read_at = at })
read_at at (Res.err e) = Res.err e

-- `PgGenerationRecordProviderCall.Exec`
unfoldable pub record_provider_call : GenerationRecordProviderCallRequest → Action Tables Generation
record_provider_call r t =
    let (answer, t') = update (record_match r) (record_set r t.clock) t in
    (
      read_at t.clock (
          scan unjudged (sentinel "generation changed before the transition" generation_changed)
            answer),
      t',
    )

-- pg.generationRequestCancel.sql
unfoldable pub cancel_match : GenerationRequestCancelRequest → Generation → Bool
cancel_match r g = g.id == r.id && g.owner_id == r.owner_id && is_live g.status

abbrev coalesce : Option ℕ → ℕ → Option ℕ
coalesce none b = some b
coalesce (some a) b = some a

unfoldable pub cancel_set : GenerationRequestCancelRequest → ℕ → Generation → Generation
cancel_set r at g =
    let started = is_some g.start_requested_at in
    record g {
      cancel_requested_at = coalesce g.cancel_requested_at at;
      status = if started then g.status else GenerationStatus.cancelled;
      error = if started then g.error else some r.error;
      settled_at = if started then none else some at;
      expires_at = if started then none else some (at + r.retention);
      updated_at = at;
    }

-- `PgGenerationRequestCancel.Exec`
unfoldable pub request_cancel : GenerationRequestCancelRequest → Action Tables Generation
request_cancel r t =
    let (answer, t') = update (cancel_match r) (cancel_set r t.clock) t in
    (
      read_at t.clock
          (scan unjudged (sentinel "generation cannot be cancelled" not_cancellable) answer),
      t',
    )
