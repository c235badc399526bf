-- ===== src/Core/Check/Once/Scenario.antt =====
-- A check over tables and a count of the starts of its provider, for the tests.
use service_genai.Prelude.{ℕ, suc, ◌+◌, ◌≡◌, String, true, none, some, [], ◌∷◌, arith}
use service_genai.Action.{Action, Res, ok, err}
use service_genai.Connectors.{Async, Call, CallState, zero_call, async, mode_of}
use service_genai.Dao.Rows.{Generation, Tables}
use service_genai.Dao.Lifecycle.{settle, record_provider_call}
use service_genai.Dao.Reads.{get}
use service_genai.Dao.Records.{attempt_insert, usage_insert}
use service_genai.Core.Check.Deps.{CheckDeps, Captured}

abbrev pub Counted : Type 0
Counted = ℕ × Tables

abbrev pub starts_of : Counted → ℕ
starts_of s = s.0

abbrev pub over : {A : Type 0} → Action Tables A → Action Counted A
over m s = ((m s.1).0, (s.0, (m s.1).1))

abbrev pub call : Call
call = record zero_call { id = "resp_2"; state = CallState.running }

-- A provider that counts its starts, and whose start announces the call.
abbrev pub counting : Async Counted Captured
counting = record {
  start = λ r x. (ok call, (r.accepted call (x.0, (suc x.1.0, x.1.1))).1);
  get = λ id s. (ok call, s);
  cancel = λ id s. (ok call, s);
}

abbrev pub undone : Counted → Res Generation × Counted → Res Generation × Counted
undone s (ok g, t) = (ok g, t)
undone s (err e, t) = (err e, s)

abbrev pub deps : CheckDeps Counted (Unit {0})
deps = record {
  dao_record = λ r. over (record_provider_call r);
  dao_settle = λ r. over (settle r);
  dao_attempt = λ r. over (attempt_insert r);
  dao_usage = λ r. over (usage_insert r);
  dao_get = λ r. over (get r);
  registry = ("openai", record { async_mode = some counting; streaming_mode = none }) ∷ [];
  within_tx = λ f s. undone s (f s);
  log = λ l s. s;
  now = λ s. s.1.clock;
  wait = λ pause s. (true, (s.0, record (s.1) { clock = s.1.clock + pause }));
  retention = 1000;
}

pub async-deps :
    (p : String) (a : Async Counted Captured) → async deps.registry p ≡ ok a → counting ≡ a
unfolding async mode_of
async-deps p a e = ground arith
