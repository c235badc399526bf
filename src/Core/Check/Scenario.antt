-- ===== src/Core/Check/Scenario.antt =====
-- A running generation, its tables and providers, for the tests of a check.
use service_genai.Prelude.{String, ◌≡◌, arith, ℕ, ◌+◌, refl, Bool, true, false, none, some, [], ◌∷◌}
use service_genai.Action.{Action, Res, ok, err}
use service_genai.Connectors.{async, mode_of, Async, Call, CallState, Registry, zero_call}
use service_genai.Dao.Rows.{Generation, GenerationStatus, Tables, checks}
use service_genai.Dao.Consistency.{IsConsistent}
use service_genai.Core.Check.Deps.{Captured, CheckDeps}
use service_genai.Core.Check.Atomic.{over_tables, Commits}

abbrev pub running_row : Generation
running_row = record {
  id = 1;
  owner_id = 7;
  purpose = "summary";
  provider = "openai";
  request_key = 10 ∷ 20 ∷ [];
  error = none;
  failure = none;
  status = GenerationStatus.running;
  start_requested_at = some 50;
  provider_call_id = some "resp_1";
  cancel_requested_at = none;
  read_at = 100;
  traceparent = none;
  outcome_unknown_at = none;
  streamed = false;
  created_at = 50;
  updated_at = 60;
  settled_at = none;
  expires_at = none;
}

abbrev pub tables : Tables
tables = record { generations = running_row ∷ []; attempts = []; usage = []; clock = 100 }

pub running-IsConsistent : IsConsistent tables
unfolding checks
running-IsConsistent = record { checked = (refl, tt); ids = (refl, tt); keys = (refl, tt) }

-- A transaction that rolls back when its function fails.
abbrev pub rolled_back : Tables → Res Generation × Tables → Res Generation × Tables
rolled_back t (ok g, t') = (ok g, t')
rolled_back t (err e, t') = (err e, t)

abbrev pub within_tx : Action Tables Generation → Action Tables Generation
within_tx f t = rolled_back t (f t)

pub rolled_back-Commits :
    (t : Tables) (inner : Res Generation × Tables) → Commits inner t (rolled_back t inner)
rolled_back-Commits t (ok g, t') = refl
rolled_back-Commits t (err e, t') = refl

abbrev pub registry : Registry Tables Captured (Unit {0})
registry = []

-- The clock of the process is that of the tables, and every pause is waited out.
abbrev pub wait : ℕ → Tables → Bool × Tables
wait pause t = (true, record t { clock = t.clock + pause })

abbrev pub deps : CheckDeps Tables (Unit {0})
deps = over_tables within_tx registry (λ t. t.clock) wait 1000

abbrev pub answer : Call
answer = record zero_call { state = CallState.succeeded; response = some (123 ∷ 125 ∷ []) }

-- A provider that answers every read and every stop with a call still running.
abbrev pub stubborn : Async Tables Captured
stubborn = record {
  start = λ r t. (ok (record zero_call { state = CallState.running }), t);
  get = λ id t. (ok (record zero_call { state = CallState.running }), t);
  cancel = λ id t. (ok (record zero_call { state = CallState.running }), t);
}

-- A call two hours and ten minutes old.
abbrev pub old_row : Generation
old_row = record running_row { read_at = 7800000000050 }

abbrev pub providers : Registry Tables Captured (Unit {0})
providers = ("openai", record { async_mode = some stubborn; streaming_mode = none }) ∷ []

pub async-providers :
    (p : String) (a : Async Tables Captured) → async providers p ≡ ok a → stubborn ≡ a
unfolding async mode_of
async-providers p a e = ground arith

abbrev pub provided : CheckDeps Tables (Unit {0})
provided = over_tables within_tx providers (λ t. t.clock) wait 1000
