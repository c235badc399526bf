-- ===== src/Core/Sweep/Tests.antt =====
-- A sweep of one generation, over concrete tables.
use service_genai.Prelude.{
  some, ◌+◌, ◌-◌, ltb, if◌then◌else◌, ℕ, ◌≡◌, refl, true, false, none, List, [], ◌∷◌, ◌++◌, arith,
}
use service_genai.Action.{ok}
use service_genai.Dao.Rows.{Tables}
use service_genai.Dao.Reads.{sweep, sort_by_id, insert_by_id}
use service_genai.Core.Sweep.{
  SweepDeps, may_start, last_start_of, last_id, dispatch, sweep_batch, sweep_loop, exec,
}
use service_genai.Core.Check.Outcome.{check_timeout}
use service_genai.Core.Sweep.Deadline.{IsTimed, InTime, exec-InTime}
use service_genai.Core.Sweep.Steady.{IsSteady}
use service_genai.Core.Sweep.Complete.{exec-checks_each}
use service_genai.Core.Check.Scenario.{tables}

-- The checks so far, and the tables.
abbrev State : Type 0
State = List ℕ × Tables

abbrev deps : SweepDeps State (Unit {0})
deps = record {
  dao = λ r s. ((sweep r s.1).0, s);
  dao_lock = λ s. (ok tt, s);
  dao_unlock = λ role s. s;
  service_check = λ r s. (s.0 ++ r.generation.id ∷ [], s.1);
  batch_size = 1;
  now = λ s. 0;
  ended = λ s. false;
  slot = λ s. (true, s);
  release = λ s. s;
}

deps-IsSteady : IsSteady deps (last_start_of none) (λ s. s.1) (λ s. s.0)
unfolding last_start_of may_start
deps-IsSteady = record {
  dao = λ r s. (refl, (refl, λ m. refl));
  ended = λ s. refl;
  timely = λ s. refl;
  slot = λ s. (refl, (refl, λ m. refl));
  release = λ s. (refl, λ m. refl);
  check = λ g s. (refl, λ m l. refl);
}

exec-checks_each_example :
    ((exec deps 2 none ([], tables)).0 ≡ ok 1) × ((exec deps 2 none ([], tables)).1.0 ≡ 1 ∷ [])
unfolding sort_by_id insert_by_id
exec-checks_each_example =
    exec-checks_each deps none (λ s. s.1) (λ s. s.0) deps-IsSteady 2 ([], tables) ([], tables) tt
      refl (refl, λ m. refl) (λ u. (refl, λ m. refl)) (omega arith) (refl, tt) (omega arith)

-- A clock, the times of the checks so far and the slots taken. A check takes 10 nanoseconds, and a slot
-- is there for the first two waits.
record Run : Type 0 where
  clock : ℕ
  starts : List ℕ
  taken : ℕ

abbrev timed_deps : SweepDeps Run (Unit {0})
timed_deps = record {
  dao = λ r s. ((sweep r tables).0, s);
  dao_lock = λ s. (ok tt, s);
  dao_unlock = λ role s. s;
  service_check = λ r s. record s { clock = s.clock + 10; starts = s.clock ∷ s.starts };
  batch_size = 1;
  now = λ s. s.clock;
  ended = λ s. false;
  slot = λ s. if ltb s.taken 2 then (true, record s { taken = s.taken + 1 }) else (false, s);
  release = λ s. record s { taken = s.taken - 1 };
}

timed_deps-IsTimed : IsTimed timed_deps (λ s. s.starts)
timed_deps-IsTimed = record {
  check = λ g s. refl;
  dao = λ r s. refl;
  lock = λ s. refl;
  unlock = λ role s. refl;
  slot = λ s. ground arith;
  release = λ s. refl;
}

abbrev before : Run
before = record { clock = 100; starts = []; taken = 1 }

exec-InTime_example :
    InTime timed_deps
      (λ s. s.starts)
      timed_deps-IsTimed
      (check_timeout + 101)
      (exec timed_deps 2 (some (check_timeout + 101)) before).1.starts
exec-InTime_example =
    exec-InTime timed_deps (λ s. s.starts) timed_deps-IsTimed (check_timeout + 101) 2 before tt

-- The sweep starts the one check that it has time for.
one_check : (exec timed_deps 2 (some (check_timeout + 101)) before).1.starts ≡ 100 ∷ []
unfolding exec sweep_loop sweep_batch dispatch may_start last_start_of sweep sort_by_id insert_by_id
    last_id
one_check = refl
