-- ===== src/Core/Check/Reach/Tables.antt =====
-- A check over the tables runs statements of internal/dao, its own and those of the other processes
-- during its pauses and its calls of the provider.
use service_genai.Prelude.{ℕ, String, ◌≡◌, sym, subst, Bool}
use service_genai.Action.{Action, Res, ok, err}
use service_genai.Connectors.{Async, AsyncStartRequest, Call, Registry, async}
use service_genai.Dao.Rows.{Generation, Tables}
use service_genai.Dao.Lifecycle.{
  GenerationSettleRequest, GenerationRecordProviderCallRequest, settle, record_provider_call,
}
use service_genai.Dao.Records.{
  GenerationAttemptInsertRequest, GenerationUsageInsertRequest, attempt_insert, usage_insert,
}
use service_genai.Dao.Reads.{GenerationGetRequest, get}
use service_genai.Dao.Steps.{Reach, here, next}
use service_genai.Core.Check.Deps.{CheckRequest, Captured}
use service_genai.Core.Check.Exec.{exec}
use service_genai.Core.Check.Atomic.{over_tables, Commits}
use service_genai.Core.Check.Reach.Commit.{IsAlong, IsConnected}
use service_genai.Core.Check.Reach.Exec.{IsStarted, exec-along}

pub Reach-trans : {t u v : Tables} → Reach t u → Reach u v → Reach t v
Reach-trans r here = r
Reach-trans r (next q s) = next (Reach-trans r q) s

pub get-Reach : (r : GenerationGetRequest) (t : Tables) → Reach t (get r t).1
unfolding get
get-Reach r t = here

-- A relation of the tables that holds along each statement of a check, and is reflexive and transitive.
pub record IsStated (R : Tables → Tables → Type 0) : Type 0 where
  pub stays : (t : Tables) → R t t
  pub goes_on : {t u v : Tables} → R t u → R u v → R t v
  pub records :
      (r : GenerationRecordProviderCallRequest) (t : Tables) → R t (record_provider_call r t).1
  pub settles : (r : GenerationSettleRequest) (t : Tables) → R t (settle r t).1
  pub attempts : (r : GenerationAttemptInsertRequest) (t : Tables) → R t (attempt_insert r t).1
  pub usages : (r : GenerationUsageInsertRequest) (t : Tables) → R t (usage_insert r t).1

-- What a check relies on: PostgreSQL's transactions, and pauses and connectors during which other
-- processes do what the relation allows. A connector's start does besides what its callback does.
pub record IsWorld {St : Type 0} (R : Tables → Tables → Type 0)
    (within_tx : Action Tables Generation → Action Tables Generation)
    (registry : Registry Tables Captured St) (wait : ℕ → Tables → Bool × Tables) : Type 0 where
  pub commits : (f : Action Tables Generation) (t : Tables) → Commits (f t) t (within_tx f t)
  pub waits : (pause : ℕ) (t : Tables) → R t (wait pause t).1
  pub connects :
      (p : String) (a : Async Tables Captured) → async registry p ≡ ok a → IsConnected R a
  pub starts :
      (p : String) (a : Async Tables Captured)
      → async registry p ≡ ok a
      → (r : AsyncStartRequest (Captured × Tables))
      → ((call : Call) (c : Captured) (t : Tables) → R t (r.accepted call (c, t)).1.1)
      → (c : Captured) (t : Tables) → R t (a.start r (c, t)).1.1

module _ {R : Tables → Tables → Type 0} (stated : IsStated R) where
  Commits-along :
      (inner outcome : Res Generation × Tables) (t : Tables)
      → Commits inner t outcome
      → R t inner.1
      → R t outcome.1
  Commits-along inner (ok g, u) t c r = subst (λ x. R t x.1) c r
  Commits-along inner (err e, u) t c r = subst (λ x. R t x) (sym c) (stated.stays t)

  get-along : (r : GenerationGetRequest) (t : Tables) → R t (get r t).1
  unfolding get
  get-along r t = stated.stays t

  -- Whatever the provider answers and whatever the other processes do meanwhile, a check over the tables
  -- moves them along the relation.
  pub exec_over-along :
      {St : Type 0} (within_tx : Action Tables Generation → Action Tables Generation)
      (registry : Registry Tables Captured St) (now : Tables → ℕ)
      (wait : ℕ → Tables → Bool × Tables) (retention : ℕ) (r : CheckRequest) (t : Tables)
      → IsWorld R within_tx registry wait
      → R t (exec (over_tables within_tx registry now wait retention) r t).1
  exec_over-along {St} within_tx registry now wait retention r t w = exec-along along started r t
    where
      along : IsAlong R (over_tables within_tx registry now wait retention)
      along = record {
        stays = stated.stays;
        goes_on = stated.goes_on;
        records = stated.records;
        settles = stated.settles;
        attempts = stated.attempts;
        usages = stated.usages;
        gets = get-along;
        logs = λ l t. stated.stays t;
        waits = w.waits;
        transacts = λ f t q. Commits-along (f t) (within_tx f t) t (w.commits f t) q;
        connects = w.connects;
      }

      started : IsStarted R R (over_tables within_tx registry now wait retention)
      started = record { within = λ r. r; goes_on = stated.goes_on; starts = w.starts }
