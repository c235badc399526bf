-- ===== src/Core/Check/Once/Tests.antt =====
-- A check that starts a call, over tables and a count of the starts.
use service_genai.Prelude.{suc, ◌≡◌, refl, subst, none, some, [], ◌∷◌, arith}
use service_genai.Action.{Res, ok, err}
use service_genai.Connectors.{Async, AsyncStartRequest, Call}
use service_genai.Dao.Rows.{Generation}
use service_genai.Core.Check.Deps.{CheckRequest, Captured}
use service_genai.Core.Check.Exec.{exec}
use service_genai.Core.Check.Reach.Commit.{IsAlong, IsConnected}
use service_genai.Core.Check.Once.{SameCount, OneMore, IsCounted, Sends, exec-Sends}
use service_genai.Core.Check.Scenario.{running_row}
use service_genai.Core.Check.Once.Scenario.{
  Counted, starts_of, call, counting, undone, deps, async-deps,
}

undone_count :
    (s : Counted) (x : Res Generation × Counted)
    → SameCount starts_of s x.1
    → SameCount starts_of s (undone s x).1
undone_count s (ok g, t) e = e
undone_count s (err x, t) e = refl

deps-IsAlong : IsAlong (SameCount starts_of) deps
deps-IsAlong = record {
  stays = λ s. refl;
  goes_on = λ e f. omega arith;
  records = λ r s. refl;
  settles = λ r s. refl;
  attempts = λ r s. refl;
  usages = λ r s. refl;
  gets = λ r s. refl;
  logs = λ l s. refl;
  waits = λ pause s. refl;
  transacts = λ f s. undone_count s (f s);
  connects = λ p a e.
      subst (IsConnected (SameCount starts_of)) (async-deps p a e)
        (record { gets = λ id s. refl; cancels = λ id s. refl });
}

counts_one :
    (a : Async Counted Captured)
    → counting ≡ a
    → (r : AsyncStartRequest (Captured × Counted))
    → ((call : Call) (c : Captured) (s : Counted)
        → SameCount starts_of s (r.accepted call (c, s)).1.1)
    → (c : Captured) (s : Counted) → OneMore starts_of s (a.start r (c, s)).1.1
counts_one a e r h c s =
    subst (λ x. OneMore starts_of s (x.start r (c, s)).1.1) e
      (omega (arith, h call c (suc s.0, s.1)))

deps-IsCounted : IsCounted starts_of deps
deps-IsCounted = record { keeps = deps-IsAlong; starts = λ p a e. counts_one a (async-deps p a e) }

abbrev pending_row : Generation
pending_row = record running_row { provider_call_id = none }

abbrev request : CheckRequest
request = record {
  generation = pending_row;
  start = some (record { payload = 123 ∷ 125 ∷ []; intent_at = 100 });
}

abbrev before : Counted
before = (0, record { generations = pending_row ∷ []; attempts = []; usage = []; clock = 100 })

exec-Sends_example : Sends starts_of deps deps-IsCounted request before (exec deps request before).1
exec-Sends_example = exec-Sends starts_of deps deps-IsCounted request before
