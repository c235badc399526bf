-- ===== src/Core/Get.antt =====
-- `GenerationGet`, internal/core/generationGet.go.
use service_genai.Prelude.{ℕ, Option, none, some, List, if◌then◌else◌, is_some}
use service_genai.Errors.{Err, sentinel, join, invalid_request}
use service_genai.Action.{Action, Res, ok, err, wrapped, ◌>>=◌}
use service_genai.Dao.Rows
use service_genai.Dao.Rows.{GenerationAttempt}
use service_genai.Dao.Reads
use service_genai.Core.Generation.{Generation, view}
use service_genai.Core.Check.Deps.{CheckRequest}

pub record GenerationGetRequest : Type 0 where
  pub id : ℕ
  pub owner_id : ℕ

-- What `NewGenerationGet` takes, with the struct validation.
pub record GetDeps (S : Type 0) : Type 0 where
  pub dao : Reads.GenerationGetRequest → Action S Rows.Generation
  pub dao_attempt_list : ℕ → Action S (List GenerationAttempt)
  pub service_check : CheckRequest → Action S Rows.Generation
  pub validate : GenerationGetRequest → Option Err

abbrev pub checked_or :
    {S : Type 0} → Rows.Generation → Res Rows.Generation × S → Res Rows.Generation × S
checked_or g (ok checked, s) = (ok checked, s)
checked_or g (err e, s) = (ok g, s)

module _ {S : Type 0} (d : GetDeps S) where
  unfoldable pub read : GenerationGetRequest → Action S Rows.Generation
  read r s = wrapped "get generation: " (d.dao (record { id = r.id; owner_id = r.owner_id }) s)

  -- An unsettled generation is checked; a check that failed leaves it as it was read.
  unfoldable pub refresh : Rows.Generation → Action S Rows.Generation
  refresh g s =
      if is_some g.settled_at
      then (ok g, s)
      else checked_or g (d.service_check (record { generation = g; start = none }) s)

  unfoldable pub exec : GenerationGetRequest → Action S Generation
  exec r s = elim (d.validate r) [
    | some e ↦ (err (join "\n" e (sentinel "invalid request" invalid_request)), s)
    | none ↦ (read r >>= refresh >>= view d.dao_attempt_list) s
  ]
