-- ===== src/Core/System/Priced/Tests.antt =====
-- Two submits of one request and a read, over concrete tables.
use service_genai.Prelude.{
  length, subst, ℕ, suc, ◌≤◌, ◌≡◌, max, List, false, arith, refl, none, some, [], ◌∷◌,
}
use service_genai.Action.{Res, Action, ok, err}
use service_genai.Connectors.{AsyncStartRequest, Call, Async, zero_call}
use service_genai.Dao.Rows.{Generation}
use service_genai.Dao.Submit.{submit}
use service_genai.Dao.Reads.{get, attempt_list, usage_sum, count_live}
use service_genai.Dao.Consistency.{has_id}
use service_genai.Dao.Steps.{here, next, recording, settling, answering, metering, ticking}
use service_genai.Core.Check.Deps.{CheckRequest, Captured}
use service_genai.Core.Get
use service_genai.Core.Submit.Admission.{Outcome, Ends}
use service_genai.Core.Submit.Request.{GenerationSubmitRequest, SubmitDeps}
use service_genai.Core.Submit.Exec.{exec}
use service_genai.Core.Check.Once.Scenario.{
  Counted, counting, call, async-deps, undone as undone_check, deps as check_deps,
}
use service_genai.Core.Check.Reach.Commit.{IsAlong, IsConnected}
use service_genai.Core.Check.Reach.Exec.{IsStarted}
use service_genai.Core.Check.Reach.Tables.{Reach-trans}
use service_genai.Core.Check.Exec as Check
use service_genai.Core.System.Priced.{Still, Paying, exec-IsPriced, exec-ServiceCalls}
use service_genai.Core.Submit.Scenario.{request as plain_request, submit_deps, no_rows}
use service_genai.Core.System.Sent.{
  IsPriced, World, IsPaidOnce, Quiet-IsOrder, submit_sent, get_sent, on_tables,
}
use service_genai.Core.System.Paid.Submitter.{IsSubmitter}
use service_genai.Core.System.Paid.{none_yet, one_more, submits, gets}

undone-Still :
    (s : Counted) (x : Res Generation × Counted) → Still s x.1 → Still s (undone_check s x).1
undone-Still s (ok g, t) e = e
undone-Still s (err x, t) e = (here, refl)

check_deps-IsAlong : IsAlong Still check_deps
unfolding get
check_deps-IsAlong = record {
  stays = λ s. (here, refl);
  goes_on = λ e f. (Reach-trans e.0 f.0, cc (e.1, f.1));
  records = λ r s. (next here (recording r s.1), refl);
  settles = λ r s. (next here (settling r s.1), refl);
  attempts = λ r s. (next here (answering r s.1), refl);
  usages = λ r s. (next here (metering r s.1), refl);
  gets = λ r s. (here, refl);
  logs = λ l s. (here, refl);
  waits = λ pause s. (next here (ticking pause s.1), refl);
  transacts = λ f s. undone-Still s (f s);
  connects = λ p a e.
      subst (IsConnected Still) (async-deps p a e)
        (record { gets = λ id s. (here, refl); cancels = λ id s. (here, refl) });
}

counts_one :
    (a : Async Counted Captured)
    → counting ≡ a
    → (r : AsyncStartRequest (Captured × Counted))
    → ((call : Call) (c : Captured) (s : Counted) → Still s (r.accepted call (c, s)).1.1)
    → (c : Captured) (s : Counted) → Paying s (a.start r (c, s)).1.1
counts_one a e r h c s =
    subst (λ x. Paying s (x.start r (c, s)).1.1) e
      (let (reach, same) = h call c (suc s.0, s.1) in (reach, omega (arith, same)))

check_deps-IsStarted : IsStarted Still Paying check_deps
check_deps-IsStarted = record {
  within = λ e. (e.0, omega (arith, e.1));
  goes_on = λ e f. (Reach-trans e.0 f.0, omega (arith, e.1, f.1));
  starts = λ p a e. counts_one a (async-deps p a e);
}

abbrev check : CheckRequest → Action Counted Generation
check = Check.exec check_deps

abbrev priced : IsPriced check
priced = exec-IsPriced check_deps check_deps-IsAlong check_deps-IsStarted

abbrev running : Async World Captured
running = record {
  start = λ r w. (ok zero_call, w);
  get = λ id w. (ok zero_call, w);
  cancel = λ id w. (ok zero_call, w);
}

abbrev undone : World → Outcome × World → Outcome × World
undone w ((refusal, ok result), v) = ((refusal, ok result), v)
undone w ((refusal, err e), v) = ((refusal, err e), w)

undone-Ends : (inner : Outcome × World) (w : World) → Ends inner w (undone w inner)
undone-Ends ((refusal, ok result), v) w = refl
undone-Ends ((refusal, err e), v) w = (refl, refl)

-- An identifier above those of the rows.
abbrev next_id : List Generation → ℕ
next_id [] = 0
next_id (g ∷ gs) = max (suc g.id) (next_id gs)

next_id_fresh : (n : ℕ) (gs : List Generation) → next_id gs ≤ n → has_id n gs ≡ false
next_id_fresh n [] h = refl
next_id_fresh n (g ∷ gs) h = ground (arith, next_id_fresh n gs)

abbrev deps : SubmitDeps World (Unit {0})
deps = record {
  dao = λ r. on_tables (submit r);
  dao_attempt_list = λ id. on_tables (attempt_list id);
  dao_usage_sum = λ r. on_tables (usage_sum r);
  dao_count_live = λ r. on_tables (count_live r);
  service_check = λ r w. (ok r.generation, w);
  registry = ("openai", record { async_mode = some running; streaming_mode = some tt }) ∷ [];
  within_tx = λ f w. undone w (f w);
  purposes = "ab" ∷ [];
  validate = λ r. none;
  codec = submit_deps.codec;
  now = λ w. w.tables.clock;
  new_id = λ w. (next_id w.tables.generations, w);
  traceparent = λ w. none;
}

deps-IsSubmitter : IsSubmitter check priced deps
deps-IsSubmitter = record {
  ends = λ f w. undone-Ends (f w) w;
  ids = Quiet-IsOrder.stays;
  fresh = λ w. next_id_fresh (next_id w.tables.generations) w.tables.generations (omega arith);
}

abbrev request : GenerationSubmitRequest
request = record plain_request { provider = "openai" }

abbrev at_first : World
at_first = record { tables = no_rows; starts = 0; sent = [] }

abbrev submitted : World
submitted = (exec (submit_sent check deps) request at_first).1

abbrev resent : World
resent = (exec (submit_sent check deps) request submitted).1

abbrev read : World
read = (Get.exec (get_sent check (λ r. none)) (record { id = 0; owner_id = 7 }) resent).1

exec-ServiceCalls_example : IsPaidOnce read × (read.starts ≤ length read.tables.generations)
exec-ServiceCalls_example =
    exec-ServiceCalls check_deps check_deps-IsAlong check_deps-IsStarted
      (one_more
        (one_more (one_more none_yet (submits deps deps-IsSubmitter request at_first))
          (submits deps deps-IsSubmitter request submitted))
        (gets (λ r. none) (record { id = 0; owner_id = 7 }) resent))
      (record { once = tt; rows = tt; paid = omega arith })
