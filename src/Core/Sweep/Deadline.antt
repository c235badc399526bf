-- ===== src/Core/Sweep/Deadline.antt =====
-- The times at which a sweep starts its checks, and the deadline of its caller.
use service_genai.Prelude.{
  ℕ, zero, suc, ◌+◌, ◌<◌, ◌≡◌, true, Option, none, some, List, [], ◌∷◌, arith, All, length,
  Bool-cases, inl, inr,
}
use service_genai.Action.{Res-cases}
use service_genai.Dao.Rows.{Generation}
use service_genai.Dao.Reads.{GenerationSweepRequest}
use service_genai.Core.Check.Outcome.{check_timeout}
use service_genai.Core.Sweep.{
  SweepDeps, may_start, last_start_of, last_id, dispatch, sweep_batch, sweep_loop, exec,
}

module _ {S L : Type 0} (d : SweepDeps S L) (started : S → List ℕ) where
  -- A log of the times at which the checks start, which nothing else touches.
  pub record IsTimed : Type 0 where
    pub check :
        (g : Generation) (s : S)
        → started (d.service_check (record { generation = g; start = none }) s)
          ≡ d.now s ∷ started s
    pub dao : (r : GenerationSweepRequest) (s : S) → started (d.dao r s).1 ≡ started s
    pub lock : (s : S) → started (d.dao_lock s).1 ≡ started s
    pub unlock : (role : L) (s : S) → started (d.dao_unlock role s) ≡ started s
    pub slot : (s : S) → started (d.slot s).1 ≡ started s
    pub release : (s : S) → started (d.release s) ≡ started s

  module _ (timed : IsTimed) (deadline : ℕ) where
    -- Every check that started left itself its longest time before the deadline.
    abbrev pub InTime : List ℕ → Type 0
    InTime = All (λ at. at + check_timeout < deadline)

    abbrev last_start : Option ℕ
    last_start = last_start_of (some deadline)

    may_start-InTime : (now : ℕ) → may_start last_start now ≡ true → now + check_timeout < deadline
    unfolding may_start last_start_of
    may_start-InTime now m = ground (arith, m)

    check_one-InTime :
        (g : Generation) (s : S)
        → may_start last_start (d.now s) ≡ true
        → InTime (started s)
        → InTime (started (d.release (d.service_check (record { generation = g; start = none }) s)))
    check_one-InTime g s m a =
        rw
          (
            timed.release (d.service_check (record { generation = g; start = none }) s),
            timed.check g s,
          )
          (may_start-InTime (d.now s) m, a)

    dispatch-InTime :
        (gs : List Generation) (s : S)
        → InTime (started s)
        → InTime (started (dispatch d last_start gs s))
    unfolding dispatch
    dispatch-InTime [] s a = a
    dispatch-InTime (g ∷ gs) s a =
        let u = (d.slot s).1 in
        let waited : InTime (started u) = rw (timed.slot s) a in
        let given_back : InTime (started (d.release u)) = rw (timed.release u) waited in
        elim (Bool-cases (may_start last_start (d.now u))) [
          | inl m ↦
              let rest = dispatch-InTime gs _ (check_one-InTime g u m waited) in
              ground (arith, m, waited, given_back, rest)
          | inr m ↦ ground (arith, m, waited, given_back)
        ]

    sweep_batch-InTime :
        (after : ℕ) (s : S)
        → InTime (started s)
        → InTime (started (sweep_batch d last_start after s).1)
    unfolding sweep_batch
    sweep_batch-InTime after s a =
        let r : GenerationSweepRequest = record { after = after; limit = d.batch_size } in
        let u = (d.dao r s).1 in
        let read : InTime (started u) = rw (timed.dao r s) a in
        elim (Res-cases (d.dao r s).0) [
          | inl (gs, e) ↦ let rest = dispatch-InTime gs u read in ground (arith, e, rest)
          | inr (x, e) ↦ ground (arith, e, read)
        ]

    sweep_loop-InTime :
        (fuel after checked : ℕ) (s : S)
        → InTime (started s)
        → InTime (started (sweep_loop d fuel last_start after checked s).1)
    unfolding sweep_loop
    sweep_loop-InTime zero after checked s a = a
    sweep_loop-InTime (suc fuel) after checked s a =
        let (page, u) = sweep_batch d last_start after s in
        let batch = sweep_batch-InTime after s a in
        elim (Res-cases page) [
          | inr (x, e) ↦ ground (arith, e, batch, a)
          | inl (gs, e) ↦
              let rest = sweep_loop-InTime fuel (last_id after gs) (checked + length gs) u batch in
              ground (arith, e, batch, a, rest)
        ]

    -- Of a call with a deadline, for any fuel, queries, lock and checks, and whatever they answer: where
    -- the checks that started before have left themselves their longest time before the deadline, so
    -- has every check that the sweep starts.
    pub exec-InTime :
        (fuel : ℕ) (s : S) → InTime (started s) → InTime (started (exec d fuel (some deadline) s).1)
    unfolding exec
    exec-InTime fuel s a =
        let u = (d.dao_lock s).1 in
        let locked : InTime (started u) = rw (timed.lock s) a in
        elim (Res-cases (d.dao_lock s).0) [
          | inr (x, e) ↦ ground (arith, e, locked, a)
          | inl (role, e) ↦
              let v = (sweep_loop d fuel last_start 0 0 u).1 in
              let run : InTime (started (d.dao_unlock role v)) =
                rw (timed.unlock role v) (sweep_loop-InTime fuel 0 0 u locked) in
              ground (arith, e, run, a)
        ]
