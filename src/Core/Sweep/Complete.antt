-- ===== src/Core/Sweep/Complete.antt =====
-- The generations that a sweep checks.
use service_genai.Prelude.{
  ℕ, zero, suc, ◌+◌, ◌≤◌, ◌<◌, ◌≡◌, sym, ap, ◌∙◌, inl, inr, true, Option, List, ◌++◌, arith, map,
  take, length, length-append, ltb, Bool-cases,
}
use mathlib.Core.List.{append_assoc}
use service_genai.Action.{Res, ok}
use service_genai.Dao.Rows.{Generation, Tables}
use service_genai.Dao.Reads.{GenerationSweepRequest, sweep, stamp}
use service_genai.Dao.Consistency.{IdsUnique}
use service_genai.Core.Sweep.{
  SweepDeps, may_start, last_start_of, last_id, dispatch, sweep_batch, sweep_loop, exec,
}
use service_genai.Core.Sweep.Order.{
  drop, take-drop, take-all, IsStrict, later, later-IsStrict, later-bound, later-later,
  last_id-bound, select-drop, take-IsStrict, take-All, drop-IsStrict,
}
use service_genai.Core.Sweep.Steady.{
  ids, ids-append, stamp-ids, stamp-bound, last_id-All, unsettled, Unseen, IsSteady, dispatch-log,
  dispatch-unsettled,
}

module _ {S L : Type 0} (d : SweepDeps S L) (last_start : Option ℕ) (tables : S → Tables)
    (log : S → List ℕ) where
  module _ (steady : IsSteady d last_start tables log) where
    -- The page after an identifier, and the state once its checks end.
    abbrev page : ℕ → S → List Generation
    page n s =
        map (stamp (tables s).clock) (take d.batch_size (unsettled d last_start tables log n s))

    abbrev next : ℕ → S → S
    next n s =
        dispatch d last_start (page n s) (d.dao (record { after = n; limit = d.batch_size }) s).1

    sweep_batch-page : (n : ℕ) (s : S) → sweep_batch d last_start n s ≡ (ok (page n s), next n s)
    unfolding sweep_batch sweep
    sweep_batch-page n s =
        ground (arith, (steady.dao (record { after = n; limit = d.batch_size }) s).0)

    sweep_loop-ends :
        (fuel n checked : ℕ) (s : S)
        → length (page n s) < d.batch_size
        → sweep_loop d (suc fuel) last_start n checked s
          ≡ (ok (checked + length (page n s)), next n s)
    unfolding sweep_loop
    sweep_loop-ends fuel n checked s l =
        ground (arith, sweep_batch-page n s, steady.ended s, steady.timely s)

    sweep_loop-goes_on :
        (fuel n checked : ℕ) (s : S)
        → d.batch_size ≤ length (page n s)
        → sweep_loop d (suc fuel) last_start n checked s
          ≡ sweep_loop d fuel last_start
              (last_id n (page n s))
              (checked + length (page n s))
              (next n s)
    unfolding sweep_loop
    sweep_loop-goes_on fuel n checked s l =
        ground (arith, sweep_batch-page n s, steady.ended s, steady.timely s)

    abbrev taken : ℕ → S → List Generation
    taken n s = take d.batch_size (unsettled d last_start tables log n s)

    abbrev last_of : ℕ → S → ℕ
    last_of n s = last_id n (page n s)

    next-log : (n : ℕ) (s : S) → log (next n s) ≡ log s ++ ids (taken n s)
    next-log n s =
        let r : GenerationSweepRequest = record { after = n; limit = d.batch_size } in
        dispatch-log d last_start tables log steady (page n s) (d.dao r s).1
        ∙ ap (λ is. is ++ ids (page n s)) (steady.dao r s).1.0
        ∙ ap (λ is. log s ++ is) (stamp-ids (tables s).clock n (taken n s)).0

    next-unsettled :
        (n : ℕ) (s : S)
        → IsStrict (unsettled d last_start tables log n s)
        → unsettled d last_start tables log (last_of n s) (next n s)
          ≡ drop d.batch_size (unsettled d last_start tables log n s)
    next-unsettled n s strict =
        let r : GenerationSweepRequest = record { after = n; limit = d.batch_size } in
        let at = (tables s).clock in
        let m = last_id n (taken n s) in
        let bound = later-bound n (tables s).generations in
        let cut = take-IsStrict d.batch_size (unsettled d last_start tables log n s) strict in
        let most =
          last_id-bound n (taken n s)
            (take-All (λ h. n < h.id) d.batch_size (unsettled d last_start tables log n s) bound)
            cut in
        let seen = stamp-bound at m (taken n s) (last_id-All n (taken n s) cut) in
        ap (λ i. unsettled d last_start tables log i (next n s)) (stamp-ids at n (taken n s)).1
        ∙ dispatch-unsettled d last_start tables log steady m (page n s) (d.dao r s).1 seen
        ∙ (steady.dao r s).1.1 m
        ∙ later-later n m (tables s).generations most
        ∙ select-drop n d.batch_size (unsettled d last_start tables log n s) bound strict

    -- All that follow an identifier are counted and checked, each once, in order.
    abbrev Swept : ℕ → ℕ → S → Res ℕ × S → Type 0
    Swept n checked s outcome =
        (outcome.0 ≡ ok (checked + length (unsettled d last_start tables log n s)))
        × (log outcome.1 ≡ log s ++ ids (unsettled d last_start tables log n s))

    page-whole :
        (n : ℕ) (s : S)
        → length (page n s) < d.batch_size
        → taken n s ≡ unsettled d last_start tables log n s
    page-whole n s l =
        take-all d.batch_size (unsettled d last_start tables log n s)
          (omega (arith, l, (stamp-ids (tables s).clock n (taken n s)).2))

    Swept-ends :
        (fuel n checked : ℕ) (s : S)
        → length (page n s) < d.batch_size
        → Swept n checked s (sweep_loop d (suc fuel) last_start n checked s)
    Swept-ends fuel n checked s l =
        let long = (stamp-ids (tables s).clock n (taken n s)).2 in
        rw (sweep_loop-ends fuel n checked s l) (
          ap (λ k. ok (checked + k)) (long ∙ ap length (page-whole n s l)),
          next-log n s ∙ ap (λ gs. log s ++ ids gs) (page-whole n s l),
        )

    Swept-goes_on :
        (n checked : ℕ) (s : S) (outcome : Res ℕ × S)
        → IsStrict (unsettled d last_start tables log n s)
        → Swept (last_of n s) (checked + length (page n s)) (next n s) outcome
        → Swept n checked s outcome
    Swept-goes_on n checked s outcome strict (count, checks) =
        let left = next-unsettled n s strict in
        let long = (stamp-ids (tables s).clock n (taken n s)).2 in
        let whole = take-drop d.batch_size (unsettled d last_start tables log n s) in
        let parts =
          length-append (taken n s) (drop d.batch_size (unsettled d last_start tables log n s)) in
        (
          count ∙ ap ok (omega (arith, ap length left, long, ap length whole, parts)),
          checks
              ∙ ap (λ gs. log (next n s) ++ ids gs) left
              ∙ ap (λ is. is ++ ids (drop d.batch_size (unsettled d last_start tables log n s)))
                  (next-log n s)
              ∙ append_assoc (log s) (ids (taken n s))
                  (ids (drop d.batch_size (unsettled d last_start tables log n s)))
              ∙ ap (λ is. log s ++ is)
                  (sym (
                    ids-append (taken n s)
                      (drop d.batch_size (unsettled d last_start tables log n s))))
              ∙ ap (λ gs. log s ++ ids gs) whole,
        )

    sweep_loop-Swept :
        (fuel n checked : ℕ) (s : S)
        → 1 ≤ d.batch_size
        → IsStrict (unsettled d last_start tables log n s)
        → length (unsettled d last_start tables log n s) < fuel
        → Swept n checked s (sweep_loop d fuel last_start n checked s)
    sweep_loop-Swept zero n checked s some_batch strict enough = absurd (omega (arith, enough))
    sweep_loop-Swept (suc fuel) n checked s some_batch strict enough =
        elim (Bool-cases (ltb (length (page n s)) d.batch_size)) [
          | inl l ↦ Swept-ends fuel n checked s (ground (arith, l))
          | inr l ↦
              let full : d.batch_size ≤ length (page n s) = ground (arith, l) in
              let left = next-unsettled n s strict in
              let fewer : length (unsettled d last_start tables log (last_of n s) (next n s))
                  < fuel =
                omega (
                  arith,
                  enough,
                  some_batch,
                  full,
                  ap length left,
                  (stamp-ids (tables s).clock n (taken n s)).2,
                  ap length (take-drop d.batch_size (unsettled d last_start tables log n s)),
                  length-append (taken n s)
                      (drop d.batch_size (unsettled d last_start tables log n s)),
                ) in
              rw (sweep_loop-goes_on fuel n checked s full) (
                Swept-goes_on n checked s _ strict (
                  sweep_loop-Swept fuel (last_of n s) (checked + length (page n s)) (next n s)
                    some_batch
                    (rw left
                      (drop-IsStrict d.batch_size (unsettled d last_start tables log n s) strict))
                    fewer))
        ]

module _ {S L : Type 0} (d : SweepDeps S L) (deadline : Option ℕ) (tables : S → Tables)
    (log : S → List ℕ) where
  abbrev pub Quiet : S → S → Type 0
  Quiet = Unseen d (last_start_of deadline) tables log

  exec-lead :
      (fuel : ℕ) (s s' : S) (role : L)
      → may_start (last_start_of deadline) (d.now s) ≡ true
      → d.dao_lock s ≡ (ok role, s')
      → let outcome = sweep_loop d fuel (last_start_of deadline) 0 0 s' in
        exec d fuel deadline s ≡ (outcome.0, d.dao_unlock role outcome.1)
  unfolding exec
  exec-lead fuel s s' role may locked = ground (arith, may, locked)

  -- Where no check changes a generation that follows its own, and the run is not cut short by its
  -- context or its deadline: a sweep that takes the role, over tables whose primary key holds, with
  -- batches of at least one and more fuel than unsettled generations, checks every unsettled generation
  -- that follows the nil identifier, each once, in the order of their identifiers, and answers how many.
  pub exec-checks_each :
      (steady : IsSteady d (last_start_of deadline) tables log) (fuel : ℕ) (s s' : S) (role : L)
      → d.dao_lock s ≡ (ok role, s')
      → Quiet s s'
      → ((u : S) → Quiet u (d.dao_unlock role u))
      → 1 ≤ d.batch_size
      → IdsUnique (tables s).generations
      → length (later 0 (tables s).generations) < fuel
      → ((exec d fuel deadline s).0 ≡ ok (length (later 0 (tables s).generations)))
        × (log (exec d fuel deadline s).1 ≡ log s ++ ids (later 0 (tables s).generations))
  exec-checks_each steady fuel s s' role locked same unlocked some_batch unique enough =
      let left = same.1 0 in
      let start = later-IsStrict 0 (tables s).generations unique in
      let (count, checks) =
        sweep_loop-Swept d (last_start_of deadline) tables log steady fuel 0 0 s' some_batch
          (rw left start) (omega (arith, enough, ap length left)) in
      rw (exec-lead fuel s s' role (steady.timely s) locked) (
        count ∙ ap ok (omega (arith, ap length left)),
        (unlocked (sweep_loop d fuel (last_start_of deadline) 0 0 s').1).0
            ∙ checks
            ∙ ap (λ is. is ++ ids (later 0 (tables s').generations)) same.0
            ∙ ap (λ gs. log s ++ ids gs) left,
      )
