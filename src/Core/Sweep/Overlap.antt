-- ===== src/Core/Sweep/Overlap.antt =====
-- `sweepBatch` of internal/core/generationSweep.go with its goroutines: the loop `dispatch`, the checks
-- that run beside it, and the channel `slots`, which overlapping calls of the sweep share.
pub mod Counts
pub mod Invariant
pub mod Ends
mod Tests
use service_genai.Prelude.{ℕ, suc, ◌+◌, ◌-◌, ◌<◌, ◌≡◌, Bool, true, false, ◌||◌, List, [], ◌∷◌, ◌++◌}
use service_genai.Dao.Rows.{Generation}

-- Where the loop stands: before the select for the next generation, with the slot of a generation, at
-- `checks.Wait()`, and past it.
pub data Loop : Type 0 where
  dispatching : List Generation → Loop
  holding : Generation → List Generation → Loop
  waiting : Loop
  returned : Loop

-- `slots` is the number of values in the channel, and `others` those of them that other calls put there.
-- A check that runs holds its slot; a check that leaves has given it back, and has yet to end its
-- goroutine. `ended` is `ctx.Err() != nil`, and `late` is `!mayStart(lastStart)`.
pub record Batch : Type 0 where
  pub loop : Loop
  pub slots : ℕ
  pub others : ℕ
  pub started : List ℕ
  pub running : List ℕ
  pub leaving : List ℕ
  pub finished : List ℕ
  pub ended : Bool
  pub late : Bool

-- The batch once its page is read.
abbrev pub begin : List Generation → ℕ → Batch
begin page others = record {
  loop = dispatching page;
  slots = others;
  others = others;
  started = [];
  running = [];
  leaving = [];
  finished = [];
  ended = false;
  late = false;
}

-- The sends on the channel wait while it is full.
module _ (concurrency : ℕ) where
  -- A step of the loop or of one of its checks.
  pub data Own (b : Batch) : Batch → Type 0 where
    takes :
        (g : Generation) (gs : List Generation)
        → b.loop ≡ dispatching (g ∷ gs)
        → b.slots < concurrency
        → Own b (record b { loop = holding g gs; slots = b.slots + 1 })
    breaks :
        (g : Generation) (gs : List Generation)
        → b.loop ≡ dispatching (g ∷ gs)
        → b.ended ≡ true
        → Own b (record b { loop = waiting })
    gives_back :
        (g : Generation) (gs : List Generation)
        → b.loop ≡ holding g gs
        → (b.ended || b.late) ≡ true
        → Own b (record b { loop = waiting; slots = b.slots - 1 })
    starts :
        (g : Generation) (gs : List Generation)
        → b.loop ≡ holding g gs
        → (b.ended || b.late) ≡ false
        → Own b (record b {
          loop = dispatching gs;
          started = b.started ++ g.id ∷ [];
          running = g.id ∷ b.running;
        })
    exhausts : b.loop ≡ dispatching [] → Own b (record b { loop = waiting })
    frees :
        (id : ℕ) (xs ys : List ℕ)
        → b.running ≡ xs ++ id ∷ ys
        → Own b (record b { running = xs ++ ys; leaving = id ∷ b.leaving; slots = b.slots - 1 })
    dones :
        (id : ℕ) (xs ys : List ℕ)
        → b.leaving ≡ xs ++ id ∷ ys
        → Own b (record b { leaving = xs ++ ys; finished = id ∷ b.finished })
    returns :
        b.loop ≡ waiting → b.running ≡ [] → b.leaving ≡ [] → Own b (record b { loop = returned })

  -- What other calls, the server and the clock do.
  pub data Around (b : Batch) : Batch → Type 0 where
    other_takes :
        b.slots < concurrency → Around b (record b { slots = b.slots + 1; others = b.others + 1 })
    other_frees :
        (n : ℕ) → b.others ≡ suc n → Around b (record b { slots = b.slots - 1; others = n })
    ends : Around b (record b { ended = true })
    passes : Around b (record b { late = true })

  -- Any interleaving, with the number of the batch's own steps.
  pub data Run (b : Batch) : ℕ → Batch → Type 0 where
    here : Run b 0 b
    own : {n : ℕ} {c d : Batch} → Run b n c → Own c d → Run b (suc n) d
    around : {n : ℕ} {c d : Batch} → Run b n c → Around c d → Run b n d
