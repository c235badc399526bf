-- ===== src/Core/System/Capped/Tests.antt =====
-- Two submits with a concurrency of one, over concrete tables.
use service_genai.Prelude.{◌+◌, ◌≡◌, refl, subst, some, [], ◌∷◌, arith}
use service_genai.Action.{Action}
use service_genai.Connectors.{Async, AsyncStartRequest}
use service_genai.Dao.Rows.{Tables, Generation}
use service_genai.Dao.InFlight.{counted-later}
use service_genai.Core.Check.Deps.{CheckRequest, Captured}
use service_genai.Core.Check.Reach.Commit.{IsConnected}
use service_genai.Core.Check.Reach.Tables.{IsWorld}
use service_genai.Core.Check.Scenario.{
  async-providers, within_tx, rolled_back-Commits, wait, stubborn, providers,
}
use service_genai.Core.Submit.Request.{GenerationSubmitRequest, SubmitDeps}
use service_genai.Core.Submit.Exec.{exec}
use service_genai.Core.Submit.Scenario.{request, submit_deps, no_rows, rolled_back-Ends}
use service_genai.Core.System.Over.{submit_over}
use service_genai.Core.System.Capped.Cap.{Keeps, IsWithin, IsCapped, quota}
use service_genai.Core.System.Capped.Submitter.{IsCappedSubmitter}
use service_genai.Core.System.Capped.{
  check_over, check_over-Keeps, none_yet, one_more, submits, passes, CappedCalls-IsWithin,
}

abbrev Kept : Tables → Tables → Type 0
Kept = Keeps 7 "ab" 1

stubborn-starts :
    (a : Async Tables Captured)
    → stubborn ≡ a
    → (r : AsyncStartRequest (Captured × Tables)) (c : Captured) (t : Tables)
    → Kept t (a.start r (c, t)).1.1
stubborn-starts a e r c t = subst (λ x. Kept t (x.start r (c, t)).1.1) e (λ p. p)

abbrev world : IsWorld Kept within_tx providers wait
world = record {
  commits = λ f t. rolled_back-Commits t (f t);
  waits = λ pause t p. omega (arith, counted-later (quota 7 "ab") t.clock pause t.generations, p);
  connects = λ p a e.
      subst (IsConnected Kept) (async-providers p a e)
        (record { gets = λ id t q. q; cancels = λ id t q. q });
  starts = λ p a e r h c t. stubborn-starts a (async-providers p a e) r c t;
}

abbrev check : CheckRequest → Action Tables Generation
check = check_over 7 "ab" 1 within_tx providers (λ t. t.clock) wait 1000 world

abbrev check-Keeps : (r : CheckRequest) (t : Tables) → Kept t (check r t).1
check-Keeps = check_over-Keeps 7 "ab" 1 within_tx providers (λ t. t.clock) wait 1000 world

abbrev deps : SubmitDeps Tables (Unit {0})
deps = record submit_deps {
  registry = ("openai", record { async_mode = some stubborn; streaming_mode = some tt }) ∷ [];
  new_id = λ t. (t.clock, t);
}

deps-IsCappedSubmitter : IsCappedSubmitter 7 "ab" 1 check check-Keeps deps
deps-IsCappedSubmitter = record { ends = λ f t. rolled_back-Ends (f t) t; ids = λ t p. p }

abbrev first : GenerationSubmitRequest
first = record request {
  provider = "openai";
  caps = some (record { concurrency = some 1; windows = [] });
}

abbrev second : GenerationSubmitRequest
second = record first { variant = 4 }

first-IsCapped : IsCapped 7 "ab" 1 first
first-IsCapped = λ e. (1, refl, omega arith)

second-IsCapped : IsCapped 7 "ab" 1 second
second-IsCapped = λ e. (1, refl, omega arith)

abbrev once : Tables
once = (exec (submit_over check deps) first no_rows).1

abbrev later : Tables
later = record once { clock = once.clock + 5 }

abbrev twice : Tables
twice = (exec (submit_over check deps) second later).1

CappedCalls-IsWithin_example : IsWithin 7 "ab" 1 twice
CappedCalls-IsWithin_example =
    CappedCalls-IsWithin 7 "ab" 1 within_tx providers (λ t. t.clock) wait 1000 world
      (one_more
        (one_more
          (one_more none_yet (submits deps deps-IsCappedSubmitter first first-IsCapped no_rows))
          (passes 5 once))
        (submits deps deps-IsCappedSubmitter second second-IsCapped later))
      (omega arith)
