-- ===== src/Core/Check/Atomic.antt =====
-- `commit` over the tables: all of an outcome is recorded, or nothing.
use service_genai.Prelude.{
  ℕ, String, ◌≡◌, ◌⊎◌, refl, Bool, true, false, Option, none, some, arith, ◌∷◌, Option-cases, inl,
  inr,
}
use service_genai.Errors.{Bytes, wraps, usage_exists}
use service_genai.Dao.Answers.{refused_err}
use service_genai.Action.{Action, Res, ok, err}
use service_genai.Connectors.{Call, Registry, Usage}
use service_genai.Dao.Rows.{
  Generation, GenerationStatus, GenerationFailure, GenerationAttempt, GenerationUsage, Tables,
}
use service_genai.Dao.Lifecycle.{settle, record_provider_call}
use service_genai.Dao.Reads.{get}
use service_genai.Dao.Records.{
  attempt_insert, attempt_statement, usage_insert, usage_statement, usage_row,
  GenerationAttemptInsertRequest, GenerationUsageInsertRequest,
}
use service_genai.Dao.Consistency.{IsConsistent, row_of}
use service_genai.Core.Check.Recorded.{
  Recorded, has_usage, answers, metered, map-settle_set, usage_row-metered_row, answers-same,
  metered-same,
}
use service_genai.Dao.Updates.{settle-Moved, settle-Sets}
use service_genai.Core.Check.Deps.{CheckDeps, Captured}
use service_genai.Core.Check.Commit.{
  commit, commit_tx, record_attempt, record_usage, settle_request, usage_request,
}

-- A check over the tables: the queries are those of internal/dao, and the logs are left out.
abbrev pub over_tables :
    {St : Type 0}
    → (Action Tables Generation → Action Tables Generation)
    → Registry Tables Captured St
    → (Tables → ℕ)
    → (ℕ → Tables → Bool × Tables)
    → ℕ
    → CheckDeps Tables St
over_tables within_tx registry now wait retention = record {
  dao_record = record_provider_call;
  dao_settle = settle;
  dao_attempt = attempt_insert;
  dao_usage = usage_insert;
  dao_get = get;
  registry = registry;
  within_tx = within_tx;
  log = λ l t. t;
  now = now;
  wait = wait;
  retention = retention;
}

-- What PostgreSQL promises of a transaction: it commits what its function did, or leaves the tables
-- as they were. A commit may fail.
abbrev pub Commits : (Res Generation × Tables) → Tables → (Res Generation × Tables) → Type 0
Commits inner t (ok g, t') = inner ≡ (ok g, t')
Commits inner t (err e, t') = t' ≡ t

-- A successful insert of an answer has put its row first, and changes nothing else.
abbrev AttemptDone :
    GenerationAttemptInsertRequest → Tables → Res GenerationAttempt × Tables → Type 0
AttemptDone r t (err e, t') = Unit
AttemptDone r t (ok a, t') = t' ≡ record t {
  attempts =
      record {
        generation_id = r.generation_id;
        attempt = 1;
        response = r.response;
        created_at = t.clock;
      }
      ∷ t.attempts;
}

attempt_insert-done :
    (r : GenerationAttemptInsertRequest) (t : Tables) → AttemptDone r t (attempt_insert r t)
unfolding attempt_insert attempt_statement
attempt_insert-done r t = ground arith

-- So for the usage, where the row already there is no failure.
abbrev UsageDone : GenerationUsageInsertRequest → Tables → Res GenerationUsage × Tables → Type 0
UsageDone r t (err e, t') =
    (t' ≡ t) × ((has_usage r.generation_id t.usage ≡ true) ⊎ (wraps usage_exists e ≡ false))
UsageDone r t (ok u, t') =
    (has_usage r.generation_id t.usage ≡ false)
    × (t' ≡ record t { usage = usage_row r t.clock ∷ t.usage })

usage_insert-done :
    (r : GenerationUsageInsertRequest) (t : Tables) → UsageDone r t (usage_insert r t)
unfolding usage_insert usage_statement wraps refused_err
usage_insert-done r t = ground arith

-- What the function of the transaction has done, when it returns no error.
abbrev Done :
    ℕ
    → Generation
    → GenerationStatus
    → Option String
    → Option GenerationFailure
    → Call
    → Tables
    → Res Generation × Tables
    → Type 0
Done retention g status message class call t (err e, t') = Unit
Done retention g status message class call t (ok settled, t') =
    Recorded retention g status message class call t (ok settled, t')

module _ {St : Type 0} (within_tx : Action Tables Generation → Action Tables Generation)
    (registry : Registry Tables Captured St) (now : Tables → ℕ) (wait : ℕ → Tables → Bool × Tables)
    (retention : ℕ) where
  abbrev d : CheckDeps Tables St
  d = over_tables within_tx registry now wait retention

  abbrev Answered : Generation → Option Bytes → Tables → Res (Unit {0}) × Tables → Type 0
  Answered g response t (err e, t') = Unit
  Answered g response t (ok u, t') = t' ≡ record t { attempts = answers g response t }

  record_attempt-Answered :
      (g : Generation) (response : Option Bytes) (t : Tables)
      → Answered g response t (record_attempt d g response t)
  unfolding record_attempt
  record_attempt-Answered g none t = refl
  record_attempt-Answered g (some body) t =
      ground (arith, attempt_insert-done (record { generation_id = g.id; response = body }) t)

  abbrev Metered : Generation → Call → Option Usage → Tables → Res (Unit {0}) × Tables → Type 0
  Metered g call usage t (err e, t') = Unit
  Metered g call usage t (ok u, t') = t' ≡ record t { usage = metered g call usage t }

  usage_request-id :
      (g : Generation) (call : Call) (u : Usage) → (usage_request g call u).generation_id ≡ g.id
  unfolding usage_request
  usage_request-id g call u = refl

  record_usage-Metered :
      (g : Generation) (call : Call) (t : Tables)
      → Metered g call call.usage t (record_usage d g call t)
  unfolding record_usage
  record_usage-Metered g call t = elim (Option-cases call.usage) [
    | inl e ↦ ground arith
    | inr (u, e) ↦ ground (
      arith,
      usage_insert-done (usage_request g call u) t,
      usage_request-id g call u,
      usage_row-metered_row g call u t.clock,
    )
  ]

  settle_request-id :
      (g : Generation) (status : GenerationStatus) (message : Option String)
      (class : Option GenerationFailure)
      → (settle_request retention g status message class).id ≡ g.id
  unfolding settle_request
  settle_request-id g status message class = refl

  commit_tx-Done :
      (g : Generation) (status : GenerationStatus) (message : Option String)
      (class : Option GenerationFailure) (call : Call) (t : Tables)
      → IsConsistent t
      → Done retention g status message class call t
          (commit_tx d (settle_request retention g status message class) g call t)
  unfolding commit_tx
  commit_tx-Done g status message class call t c =
      let r = settle_request retention g status message class in
      let t1 = (settle r t).1 in
      let t2 = (record_attempt d g call.response t1).1 in
      ground (
        arith,
        settle-Moved r t c,
        settle-Sets r t c,
        map-settle_set retention t.clock g (row_of g.id t.generations) status message class,
        settle_request-id g status message class,
        record_attempt-Answered g call.response t1,
        answers-same g call.response t t1,
        record_usage-Metered g call t2,
        metered-same g call call.usage t t2,
      )

  -- Over consistent tables and transactions that keep PostgreSQL's promise, a commit is all or nothing:
  -- it fails and leaves the tables as they were, or the row of the generation, which it gives, is as it
  -- stood but for the status, the message and the class given, the times of the settle and of an unknown
  -- outcome, and the end of the retention; the call's answer is recorded when there is one, and its
  -- usage, token for token, when the provider reported it and none was recorded before.
  pub commit-Recorded :
      ((f : Action Tables Generation) (t : Tables) → Commits (f t) t (within_tx f t))
      → (g : Generation) (status : GenerationStatus) (message : Option String)
        (class : Option GenerationFailure) (call : Call) (t : Tables)
      → IsConsistent t
      → Recorded retention g status message class call t (commit d g status message class call t)
  unfolding commit
  commit-Recorded commits g status message class call t c =
      let r = settle_request retention g status message class in
      ground
        (arith, commits (commit_tx d r g call) t, commit_tx-Done g status message class call t c)
