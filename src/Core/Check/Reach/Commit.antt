-- ===== src/Core/Check/Reach/Commit.antt =====
-- `commit`, `settle` and `settleFailure` do to the state what the queries and the logs do.
use service_genai.Prelude.{
  ℕ, String, ◌≡◌, Bool, Option, none, some, arith, Option-cases, inl, inr, if◌then◌else◌,
}
use service_genai.Errors.{Bytes}
use service_genai.Action.{Action, Res, ok}
use service_genai.Connectors.{Async, Call, async}
use service_genai.Dao.Rows.{Generation, GenerationStatus, GenerationFailure}
use service_genai.Dao.Lifecycle.{GenerationSettleRequest, GenerationRecordProviderCallRequest}
use service_genai.Dao.Reads.{GenerationGetRequest}
use service_genai.Dao.Records.{GenerationAttemptInsertRequest, GenerationUsageInsertRequest}
use service_genai.Core.Check.Outcome.{Log}
use service_genai.Core.Check.Deps.{CheckDeps, Captured}
use service_genai.Core.Check.Commit.{
  commit, commit_tx, record_attempt, record_usage, settle, settle_failure, settle_request,
  usage_request,
}

-- The reads and the stops of a connector move the state along the relation.
pub record IsConnected {S : Type 0} (R : S → S → Type 0) (a : Async S Captured) : Type 0 where
  pub gets : (id : String) (s : S) → R s (a.get id s).1
  pub cancels : (id : String) (s : S) → R s (a.cancel id s).1

-- Each thing that a check is given, but for the starts of its connectors, moves the state along a
-- relation, which is reflexive and transitive; a transaction does, when its function does.
pub record IsAlong {S St : Type 0} (R : S → S → Type 0) (d : CheckDeps S St) : Type 0 where
  pub stays : (s : S) → R s s
  pub goes_on : {s t u : S} → R s t → R t u → R s u
  pub records : (r : GenerationRecordProviderCallRequest) (s : S) → R s (d.dao_record r s).1
  pub settles : (r : GenerationSettleRequest) (s : S) → R s (d.dao_settle r s).1
  pub attempts : (r : GenerationAttemptInsertRequest) (s : S) → R s (d.dao_attempt r s).1
  pub usages : (r : GenerationUsageInsertRequest) (s : S) → R s (d.dao_usage r s).1
  pub gets : (r : GenerationGetRequest) (s : S) → R s (d.dao_get r s).1
  pub logs : (l : Log) (s : S) → R s (d.log l s)
  pub waits : (pause : ℕ) (s : S) → R s (d.wait pause s).1
  pub transacts : (f : Action S Generation) (s : S) → R s (f s).1 → R s (d.within_tx f s).1
  pub connects : (p : String) (a : Async S Captured) → async d.registry p ≡ ok a → IsConnected R a

module _ {S St : Type 0} {R : S → S → Type 0} {d : CheckDeps S St} (w : IsAlong R d) where
  record_attempt-along :
      (g : Generation) (response : Option Bytes) (s : S) → R s (record_attempt d g response s).1
  unfolding record_attempt
  record_attempt-along g none s = w.stays s
  record_attempt-along g (some body) s =
      let q = w.attempts (record { generation_id = g.id; response = body }) s in ground (arith, q)

  pub record_usage-along : (g : Generation) (call : Call) (s : S) → R s (record_usage d g call s).1
  unfolding record_usage
  record_usage-along g call s = elim (Option-cases call.usage) [
    | inl e ↦ rw e (w.stays s)
    | inr (u, e) ↦ let q = w.usages (usage_request g call u) s in ground (arith, q)
  ]

  commit_tx-along :
      (r : GenerationSettleRequest) (g : Generation) (call : Call) (s : S)
      → R s (commit_tx d r g call s).1
  unfolding commit_tx
  commit_tx-along r g call s =
      let s1 = (d.dao_settle r s).1 in
      let s2 = (record_attempt d g call.response s1).1 in
      let r1 = w.settles r s in
      let r2 = w.goes_on r1 (record_attempt-along g call.response s1) in
      let r3 = w.goes_on r2 (record_usage-along g call s2) in ground (arith, r1, r2, r3)

  commit-along :
      (g : Generation) (status : GenerationStatus) (message : Option String)
      (class : Option GenerationFailure) (call : Call) (s : S)
      → R s (commit d g status message class call s).1
  unfolding commit
  commit-along g status message class call s =
      let r = settle_request d.retention g status message class in
      w.transacts (commit_tx d r g call) s (commit_tx-along r g call s)

  pub settle_failure-along :
      (g : Generation) (message : String) (class : GenerationFailure) (cause : String)
      (response : Option Bytes) (s : S)
      → R s (settle_failure d g message class cause response s).1
  unfolding settle_failure
  settle_failure-along g message class cause response s =
      w.goes_on (w.logs _ s)
        (commit-along g GenerationStatus.failed (some message) (some class) _ _)

  pub chosen-along :
      (b : Bool) (x y : Res Generation × S) (s : S) → R s x.1 → R s y.1 → R s (if b then x else y).1
  chosen-along b x y s p q = ground (arith, p, q)

  pub settle-along : (g : Generation) (call : Call) (s : S) → R s (settle d g call s).1
  unfolding settle
  settle-along g call s =
      chosen-along _ _ _ s (w.goes_on (w.logs _ s) (commit-along g _ _ _ call _))
        (commit-along g _ _ _ call s)
