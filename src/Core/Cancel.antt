-- ===== src/Core/Cancel.antt =====
-- `GenerationCancel`, internal/core/generationCancel.go.
pub mod Settled
mod Tests
use service_genai.Prelude.{
  ℕ, String, Bool, not, ◌&&◌, Option, none, some, List, [], if◌then◌else◌, is_some,
}
use service_genai.Errors.{Err, wraps, sentinel, join, prefixed, invalid_request, not_cancellable}
use service_genai.Action.{Action, Res, ok, err, wrapped, ◌>>=◌}
use service_genai.Dao.Rows
use service_genai.Dao.Rows.{GenerationAttempt}
use service_genai.Dao.Lifecycle.{GenerationRequestCancelRequest}
use service_genai.Dao.Reads.{GenerationGetRequest}
use service_genai.Core.Generation.{Generation, view}
use service_genai.Core.Check.Outcome.{generation_cancelled_reason}
use service_genai.Core.Check.Deps.{CheckRequest}

pub record GenerationCancelRequest : Type 0 where
  pub id : ℕ
  pub owner_id : ℕ

-- What `NewGenerationCancel` takes, with the struct validation.
pub record CancelDeps (S : Type 0) : Type 0 where
  pub dao : GenerationRequestCancelRequest → Action S Rows.Generation
  pub dao_get : GenerationGetRequest → Action S Rows.Generation
  pub dao_attempt_list : ℕ → Action S (List GenerationAttempt)
  pub service_check : CheckRequest → Action S Rows.Generation
  pub retention : ℕ
  pub validate : GenerationCancelRequest → Option Err

module _ {S : Type 0} (d : CancelDeps S) where
  -- A row that cannot be cancelled is settled, or not this owner's: the read tells the two apart.
  abbrev unless_settled :
      GenerationCancelRequest → Res Rows.Generation × S → Res Rows.Generation × S
  unless_settled r (ok g, s) = (ok g, s)
  unless_settled r (err e, s) =
      if wraps not_cancellable e
      then d.dao_get (record { id = r.id; owner_id = r.owner_id }) s
      else (err e, s)

  unfoldable pub request : GenerationCancelRequest → Action S Rows.Generation
  request r s = wrapped "cancel generation: " (
      unless_settled r (
        d.dao
          (record {
            id = r.id;
            owner_id = r.owner_id;
            error = generation_cancelled_reason;
            retention = d.retention;
          })
          s))

  -- A known call of an unsettled generation is stopped at once.
  unfoldable pub stop_call : Rows.Generation → Action S Rows.Generation
  stop_call g s =
      if is_some g.provider_call_id && not (is_some g.settled_at)
      then wrapped "stop provider call: "
          (d.service_check (record { generation = g; start = none }) s)
      else (ok g, s)

  unfoldable pub exec : GenerationCancelRequest → Action S Generation
  exec r s = elim (d.validate r) [
    | some e ↦ (err (join "\n" e (sentinel "invalid request" invalid_request)), s)
    | none ↦ (request r >>= stop_call >>= view d.dao_attempt_list) s
  ]
