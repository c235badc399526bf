-- ===== src/Core/Sweep/Overlap/Tests.antt =====
-- A batch of one generation beside a check of another call, with two slots.
use service_genai.Prelude.{◌+◌, ◌*◌, ◌≤◌, refl, List, [], ◌∷◌, arith, length}
use service_genai.Dao.Rows.{Generation}
use service_genai.Core.Check.Scenario.{running_row}
use service_genai.Core.Sweep.Overlap.{Batch, begin, dispatching, takes, starts, Run, here, own}
use service_genai.Core.Sweep.Overlap.Invariant.{IsSound, Run-IsSound-begin}
use service_genai.Core.Sweep.Overlap.Ends.{GoesOn, Run-GoesOn}

abbrev page : List Generation
page = running_row ∷ []

abbrev checking : Batch
checking = record (begin page 1) {
  loop = dispatching [];
  slots = 2;
  started = 1 ∷ [];
  running = 1 ∷ [];
}

-- The one check starts while another call holds the other slot.
abbrev started : Run 2 (begin page 1) 2 checking
started = own (own here (takes running_row [] refl (omega arith))) (starts running_row [] refl refl)

Run-IsSound-begin_example : IsSound 2 page checking
Run-IsSound-begin_example = Run-IsSound-begin 2 page 1 (omega arith) started

Run-GoesOn_example : (2 ≤ 4 * length page + 2) × GoesOn 2 checking
Run-GoesOn_example = Run-GoesOn 2 page 1 (omega arith) started
