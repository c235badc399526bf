-- ===== src/Core/Check/Writes.antt =====
-- The patient write of a call's id ends, and ends before any check may settle its generation as
-- unknown.
use service_genai.Prelude.{
  refl, some, Bool-cases, inl, inr, ltb, ℕ, zero, suc, ◌+◌, ◌-◌, ◌*◌, ◌≤◌, ◌<◌, min, ◌≡◌, ◌≢◌, true,
  arith,
}
use service_genai.Action.{Action, Res, ok, err}
use service_genai.Dao.Rows.{Generation}
use service_genai.Core.Check.Outcome.{
  second, record_pause, record_pause_ceiling, record_patience, persistence_timeout,
  start_outcome_unknown_after,
}
use service_genai.Core.Check.Deps.{CheckDeps}
use service_genai.Core.Check.RecordCall.{exhausted, record_loop, tries_again}
use service_genai.Core.Check.Start.{record_rounds, resolve_start}

-- The process clock is monotonic: a pause that is waited out moves it by the pause at least, and a
-- write moves it on.
pub record IsMonotonic {S St : Type 0} (d : CheckDeps S St) (writes : Action S Generation)
    : Type 0 where
  pub waits :
      (pause : ℕ) (s : S) → (d.wait pause s).0 ≡ true → d.now s + pause ≤ d.now (d.wait pause s).1
  pub moves : (s : S) → d.now s ≤ d.now (writes s).1

module _ {S St : Type 0} (d : CheckDeps S St) (writes : Action S Generation)
    (clock : IsMonotonic d writes) where
  -- Each round takes a pause of 250 ms at least, so the fuel that covers the time left is enough.
  record_loop_fuelled :
      (fuel deadline pause : ℕ) (r : Res Generation) (s : S)
      → record_pause ≤ pause
      → deadline ≤ d.now s + fuel * record_pause
      → (record_loop d (suc fuel) writes deadline pause r s).0 ≢ exhausted
  unfolding record_loop tries_again
  record_loop_fuelled fuel deadline pause (ok g) s p h = ground arith
  record_loop_fuelled zero deadline pause (err e) s p h = ground arith
  record_loop_fuelled (suc fuel) deadline pause (err e) s p h =
      let s' = (d.wait pause s).1 in
      ground (
        arith,
        clock.waits pause s,
        clock.moves s',
        record_loop_fuelled fuel deadline (min (pause + pause) record_pause_ceiling) (writes s').0
            (writes s').1,
      )

  -- On a monotonic clock, the loop of writes ends within its fuel, from any time at or after the intent: it is not the
  -- model's fuel that ends it.
  pub record_loop_ends :
      (intent_at : ℕ) (r : Res Generation) (s : S)
      → intent_at ≤ d.now s
      → (record_loop d record_rounds writes (intent_at + record_patience) record_pause r s).0
        ≢ exhausted
  record_loop_ends intent_at r s h =
      record_loop_fuelled 480 (intent_at + record_patience) record_pause r s (omega arith)
        (omega arith)

-- A pause that is waited out ends late by no more than the given time.
abbrev pub IsPunctual : {S St : Type 0} → CheckDeps S St → ℕ → Type 0
IsPunctual {S} d late =
    (pause : ℕ) (s : S)
    → (d.wait pause s).0 ≡ true
    → d.now (d.wait pause s).1 ≤ d.now s + pause + late

-- Two writes that have the same end at every time before the given one.
abbrev pub AgreeBefore :
    {S St : Type 0} → CheckDeps S St → ℕ → Action S Generation → Action S Generation → Type 0
AgreeBefore {S} d time v w = (s : S) → d.now s < time → v s ≡ w s

module _ {S St : Type 0} (d : CheckDeps S St) (late : ℕ) (punctual : IsPunctual d late) where
  -- The loop makes no write at or after its deadline and the lateness of a pause.
  record_loop-AgreeBefore :
      (v w : Action S Generation) (deadline fuel pause : ℕ) (r : Res Generation) (s : S)
      → AgreeBefore d (deadline + late) v w
      → record_loop d fuel v deadline pause r s ≡ record_loop d fuel w deadline pause r s
  unfolding record_loop tries_again
  record_loop-AgreeBefore v w deadline zero pause r s a = refl
  record_loop-AgreeBefore v w deadline (suc fuel) pause (ok g) s a = refl
  record_loop-AgreeBefore v w deadline (suc fuel) pause (err e) s a =
      let t = (d.wait pause s).1 in
      let next = min (pause + pause) record_pause_ceiling in
      ground (
        arith,
        punctual pause s,
        a t,
        record_loop-AgreeBefore v w deadline fuel next (v t).0 (v t).1 a,
      )

  -- A generation that `resolveStart` does not leave has had its start for three minutes.
  resolve_start-age :
      (g : Generation) (start : ℕ) (s : S)
      → g.start_requested_at ≡ some start
      → resolve_start d g s ≢ (ok g, s)
      → start + start_outcome_unknown_after ≤ g.read_at
  unfolding resolve_start
  resolve_start-age g start s b settled =
      elim (Bool-cases (ltb (g.read_at - start) start_outcome_unknown_after)) [
        | inl e ↦ absurd (settled (ground arith))
        | inr e ↦ ground arith
      ]

  -- When the pauses end at most 55 seconds late: where a check that reads a generation at `read_at`, on
  -- the clock of the writes and for a start recorded at or after the intent, does not leave it to its
  -- start, every write that the loop makes begins more than the persistence timeout before `read_at`.
  -- Said of the loop: a write that differs only from then on makes no difference to it.
  pub writes_before_unknown :
      (v w : Action S Generation) (fuel pause intent_at start : ℕ) (g : Generation)
      (r : Res Generation) (s s' : S)
      → late ≤ 55 * second
      → g.start_requested_at ≡ some start
      → intent_at ≤ start
      → resolve_start d g s' ≢ (ok g, s')
      → ((s : S) → d.now s + persistence_timeout < g.read_at → v s ≡ w s)
      → record_loop d fuel v (intent_at + record_patience) pause r s
        ≡ record_loop d fuel w (intent_at + record_patience) pause r s
  writes_before_unknown v w fuel pause intent_at start g r s s' l b i settled a =
      let age = resolve_start-age g start s' b settled in
      record_loop-AgreeBefore v w (intent_at + record_patience) fuel pause r s
        (λ x h. a x (omega (arith, age, h, l, i)))
