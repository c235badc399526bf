-- ===== src/Core/Sweep/Overlap/Invariant.antt =====
-- The slots and the checks of `sweepBatch`, over any interleaving.
use service_genai.Prelude.{
  ℕ, ◌+◌, ◌-◌, ◌≤◌, ◌≡◌, refl, ap, sym, subst, ◌∙◌, List, [], ◌∷◌, ◌++◌, length, arith,
}
use mathlib.Core.List.{append_assoc}
use service_genai.Dao.Rows.{Generation}
use service_genai.Core.Sweep.Overlap.{
  dispatching, holding, waiting, Batch, begin, Own, takes, breaks, gives_back, starts, exhausts,
  frees, dones, returns, Around, other_takes, other_frees, ends, passes, Run, here, own, around,
}
use service_genai.Core.Sweep.Overlap.Counts.{
  ids, count, count-append, loop_slots, Left, AllDone, running-AllDone, leaving-AllDone,
  count-middle, length-middle,
}

module _ (concurrency : ℕ) (page : List Generation) where
  pub record IsSound (b : Batch) : Type 0 where
    pub slots_held : b.slots ≡ length b.running + loop_slots b.loop + b.others
    pub bounded : b.slots ≤ concurrency
    pub in_order : (rest : List ℕ) × (ids page ≡ b.started ++ rest) × Left b.loop rest
    pub accounted :
        (id : ℕ)
        → count id b.started ≡ count id b.running + count id b.leaving + count id b.finished
    pub over : AllDone b.loop b.running b.leaving

  begin-IsSound : (others : ℕ) → others ≤ concurrency → IsSound (begin page others)
  begin-IsSound others h = record {
    slots_held = omega arith;
    bounded = h;
    in_order = (ids page, refl, refl);
    accounted = λ id. refl;
    over = tt;
  }

  -- The loop moves on to its wait.
  waits-IsSound :
      {b : Batch} (slots : ℕ)
      → slots ≤ concurrency
      → slots ≡ length b.running + b.others
      → IsSound b
      → IsSound (record b { loop = waiting; slots = slots })
  waits-IsSound {b} slots most e s =
      let (rest, p, left) = s.in_order in
      record {
        slots_held = omega (arith, e);
        bounded = most;
        in_order = (rest, p, tt);
        accounted = s.accounted;
        over = tt;
      }

  starts-IsSound :
      {b : Batch} (g : Generation) (gs : List Generation)
      → b.loop ≡ holding g gs
      → IsSound b
      → IsSound (record b {
        loop = dispatching gs;
        started = b.started ++ g.id ∷ [];
        running = g.id ∷ b.running;
      })
  starts-IsSound {b} g gs e s =
      let (rest, p, left) = s.in_order in
      let next = subst (λ l. Left l rest) e left in
      record {
        slots_held = omega (arith, s.slots_held, ap loop_slots e);
        bounded = s.bounded;
        in_order = (
          ids gs,
          p ∙ ap (λ x. b.started ++ x) next ∙ sym (append_assoc b.started (g.id ∷ []) (ids gs)),
          refl,
        );
        accounted = λ id.
            let before = s.accounted id in
            let split = count-append id b.started (g.id ∷ []) in ground (arith, before, split);
        over = tt;
      }

  frees-IsSound :
      {b : Batch} (id : ℕ) (xs ys : List ℕ)
      → b.running ≡ xs ++ id ∷ ys
      → IsSound b
      → IsSound (record b { running = xs ++ ys; leaving = id ∷ b.leaving; slots = b.slots - 1 })
  frees-IsSound {b} id xs ys e s = record {
    slots_held = omega (arith, s.slots_held, ap length e, length-middle id xs ys);
    bounded = omega (arith, s.bounded);
    in_order = s.in_order;
    accounted = λ n.
        let before = s.accounted n in
        let gone = ap (count n) e ∙ count-middle n id xs ys in ground (arith, before, gone);
    over = running-AllDone b.loop b.running b.leaving (xs ++ ys) (id ∷ b.leaving) id xs ys e s.over;
  }

  dones-IsSound :
      {b : Batch} (id : ℕ) (xs ys : List ℕ)
      → b.leaving ≡ xs ++ id ∷ ys
      → IsSound b
      → IsSound (record b { leaving = xs ++ ys; finished = id ∷ b.finished })
  dones-IsSound {b} id xs ys e s = record {
    slots_held = s.slots_held;
    bounded = s.bounded;
    in_order = s.in_order;
    accounted = λ n.
        let before = s.accounted n in
        let gone = ap (count n) e ∙ count-middle n id xs ys in ground (arith, before, gone);
    over = leaving-AllDone b.loop b.running b.leaving b.running (xs ++ ys) id xs ys e s.over;
  }

  Own-IsSound : {b c : Batch} → Own concurrency b c → IsSound b → IsSound c
  Own-IsSound {b} (takes g gs e h) s =
      let (rest, p, left) = s.in_order in
      record {
        slots_held = omega (arith, s.slots_held, ap loop_slots e);
        bounded = omega (arith, h);
        in_order = (rest, p, subst (λ l. Left l rest) e left);
        accounted = s.accounted;
        over = tt;
      }
  Own-IsSound {b} (breaks g gs e h) s =
      waits-IsSound b.slots s.bounded (omega (arith, s.slots_held, ap loop_slots e)) s
  Own-IsSound {b} (gives_back g gs e h) s =
      waits-IsSound (b.slots - 1) (omega (arith, s.bounded))
        (omega (arith, s.slots_held, ap loop_slots e)) s
  Own-IsSound (starts g gs e h) s = starts-IsSound g gs e s
  Own-IsSound {b} (exhausts e) s =
      waits-IsSound b.slots s.bounded (omega (arith, s.slots_held, ap loop_slots e)) s
  Own-IsSound (frees id xs ys e) s = frees-IsSound id xs ys e s
  Own-IsSound (dones id xs ys e) s = dones-IsSound id xs ys e s
  Own-IsSound {b} (returns e f h) s =
      let (rest, p, left) = s.in_order in
      record {
        slots_held = omega (arith, s.slots_held, ap loop_slots e);
        bounded = s.bounded;
        in_order = (rest, p, tt);
        accounted = s.accounted;
        over = (f, h);
      }

  Around-IsSound : {b c : Batch} → Around concurrency b c → IsSound b → IsSound c
  Around-IsSound (other_takes h) s = record {
    slots_held = omega (arith, s.slots_held);
    bounded = omega (arith, h);
    in_order = s.in_order;
    accounted = s.accounted;
    over = s.over;
  }
  Around-IsSound (other_frees n e) s = record {
    slots_held = omega (arith, s.slots_held, e);
    bounded = omega (arith, s.bounded);
    in_order = s.in_order;
    accounted = s.accounted;
    over = s.over;
  }
  Around-IsSound ends s = record {
    slots_held = s.slots_held;
    bounded = s.bounded;
    in_order = s.in_order;
    accounted = s.accounted;
    over = s.over;
  }
  Around-IsSound passes s = record {
    slots_held = s.slots_held;
    bounded = s.bounded;
    in_order = s.in_order;
    accounted = s.accounted;
    over = s.over;
  }

  Run-IsSound : {b : Batch} {n : ℕ} {c : Batch} → Run concurrency b n c → IsSound b → IsSound c
  Run-IsSound here s = s
  Run-IsSound (own r q) s = Own-IsSound q (Run-IsSound r s)
  Run-IsSound (around r q) s = Around-IsSound q (Run-IsSound r s)

  -- Where other calls hold at most as many slots as there are when the page is read, whatever the loop,
  -- the checks, the other calls of the sweep, the server and the clock do, in any order: the slots taken
  -- are those of the batch's running checks, of its loop and of the other calls, at most `Concurrency`
  -- together; the checks started are those of the page's first generations, one for each, in the page's
  -- order; each of them runs, leaves or has finished; and once the batch has returned none runs or leaves.
  pub Run-IsSound-begin :
      (others : ℕ) {n : ℕ} {c : Batch}
      → others ≤ concurrency
      → Run concurrency (begin page others) n c
      → IsSound c
  Run-IsSound-begin others h r = Run-IsSound r (begin-IsSound others h)
