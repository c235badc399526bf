-- ===== src/Core/Sweep/Overlap/Ends.antt =====
-- The end of `sweepBatch`, over any interleaving.
use service_genai.Prelude.{
  ℕ, suc, ◌+◌, ◌*◌, ◌≤◌, ◌≡◌, ◌⊎◌, inl, inr, refl, ap, ◌||◌, List, [], ◌∷◌, length, arith,
  Bool-cases, ltb, ltb→lt,
}
use service_genai.Dao.Rows.{Generation}
use service_genai.Core.Sweep.Overlap.{
  Loop, dispatching, holding, waiting, returned, Batch, begin, Own, takes, breaks, gives_back,
  starts, exhausts, frees, dones, returns, Around, other_takes, other_frees, ends, passes, Run,
  here, own, around,
}
use service_genai.Core.Sweep.Overlap.Counts.{loop_slots, length-middle}
use service_genai.Core.Sweep.Overlap.Invariant.{IsSound, Run-IsSound-begin}

-- The steps that a loop, and then a batch with its checks, may still take.
abbrev loop_work : Loop → ℕ
loop_work (dispatching gs) = 2 + 4 * length gs
loop_work (holding g gs) = 5 + 4 * length gs
loop_work waiting = 1
loop_work returned = 0

abbrev work : Batch → ℕ
work b = loop_work b.loop + (length b.running + length b.running) + length b.leaving

module _ (concurrency : ℕ) where
  Own-work : {b c : Batch} → Own concurrency b c → suc (work c) ≤ work b
  Own-work (takes g gs e h) = omega (arith, ap loop_work e)
  Own-work (breaks g gs e h) = omega (arith, ap loop_work e)
  Own-work (gives_back g gs e h) = omega (arith, ap loop_work e)
  Own-work (starts g gs e h) = omega (arith, ap loop_work e)
  Own-work (exhausts e) = omega (arith, ap loop_work e)
  Own-work (frees id xs ys e) = omega (arith, ap length e, length-middle id xs ys)
  Own-work (dones id xs ys e) = omega (arith, ap length e, length-middle id xs ys)
  Own-work (returns e f h) = omega (arith, ap loop_work e)

  Around-work : {b c : Batch} → Around concurrency b c → work c ≡ work b
  Around-work (other_takes h) = refl
  Around-work (other_frees n e) = refl
  Around-work ends = refl
  Around-work passes = refl

  Run-work : {b : Batch} {n : ℕ} {c : Batch} → Run concurrency b n c → n + work c ≤ work b
  Run-work here = omega arith
  Run-work (own r q) = omega (arith, Run-work r, Own-work q)
  Run-work (around r q) = omega (arith, Run-work r, Around-work q)

  -- A batch that has returned, one that has a step of its own to take, or one that waits while other calls
  -- hold every slot.
  abbrev pub GoesOn : Batch → Type 0
  GoesOn b = (b.loop ≡ returned) ⊎ (((c : Batch) × Own concurrency b c) ⊎ (b.others ≡ concurrency))

  loop-GoesOn :
      (b : Batch) (l : Loop)
      → b.loop ≡ l
      → b.running ≡ []
      → b.leaving ≡ []
      → b.slots ≡ loop_slots b.loop + b.others
      → b.slots ≤ concurrency
      → GoesOn b
  loop-GoesOn b (dispatching []) e f h held most = inr (inl (_, exhausts e))
  loop-GoesOn b (dispatching (g ∷ gs)) e f h held most =
      elim (Bool-cases (ltb b.slots concurrency)) [
        | inl some_slot ↦ inr (inl (_, takes g gs e (ltb→lt b.slots concurrency some_slot)))
        | inr full ↦ inr (inr (ground (arith, full, ap loop_slots e)))
      ]
  loop-GoesOn b (holding g gs) e f h held most = elim (Bool-cases (b.ended || b.late)) [
    | inl over ↦ inr (inl (_, gives_back g gs e over))
    | inr on ↦ inr (inl (_, starts g gs e on))
  ]
  loop-GoesOn b waiting e f h held most = inr (inl (_, returns e f h))
  loop-GoesOn b returned e f h held most = inl e

  batch-GoesOn :
      (page : List Generation) (b : Batch) (running leaving : List ℕ)
      → b.running ≡ running
      → b.leaving ≡ leaving
      → IsSound concurrency page b
      → GoesOn b
  batch-GoesOn page b (id ∷ running) leaving e f s = inr (inl (_, frees id [] running e))
  batch-GoesOn page b [] (id ∷ leaving) e f s = inr (inl (_, dones id [] leaving f))
  batch-GoesOn page b [] [] e f s =
      loop-GoesOn b b.loop refl e f (omega (arith, s.slots_held, ap length e)) s.bounded

  -- Where other calls hold at most as many slots as there are when the page is read, a batch takes at most
  -- four steps for each generation of its page and two more, in any interleaving, and it is never stuck:
  -- it has returned, or a step of its own is possible, or other calls hold every slot.
  pub Run-GoesOn :
      (page : List Generation) (others : ℕ) {n : ℕ} {c : Batch}
      → others ≤ concurrency
      → Run concurrency (begin page others) n c
      → (n ≤ 4 * length page + 2) × GoesOn c
  Run-GoesOn page others {n} {c} h r = (
    omega (arith, Run-work r),
    batch-GoesOn page c c.running c.leaving refl refl
        (Run-IsSound-begin concurrency page others h r),
  )
