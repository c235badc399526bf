-- ===== src/Dao/Replay.antt =====
-- The deduplication of pg.generationSubmit: a request resent while its generation is pending, running
-- or succeeded is a replay, and any other creates a generation.
use service_genai.Prelude.{◌≡◌, Bool, true, false, none, some, List, [], ◌∷◌, arith, find, ==_refl}
use service_genai.Action.{ok}
use service_genai.Dao.Rows.{Generation, GenerationStatus, Tables, checks}
use service_genai.Dao.Submit.{GenerationSubmitRequest, submit, submit_statement, new_row, replays}
use service_genai.Dao.Consistency.{has_id}

find-passes {ℓ} :
    {A : Type ℓ} (p : A → Bool) (xs : List A) (a : A) → find p xs ≡ some a → p a ≡ true
find-passes p [] a e = cc
find-passes p (x ∷ xs) a e = ground (arith, find-passes p xs a)

pub has_id-found :
    (p : Generation → Bool) (gs : List Generation) (g : Generation)
    → find p gs ≡ some g
    → has_id g.id gs ≡ true
has_id-found p [] g e = cc
has_id-found p (h ∷ hs) g e = ground (arith, has_id-found p hs g, ==_refl g.id)

-- While a generation holds the request's key, a submit of values that meet the CHECKs, with a
-- fresh identifier, is a replay: it gives that generation, reports that nothing was created, and changes no table.
pub submit-replays :
    (r : GenerationSubmitRequest) (t : Tables) (g : Generation)
    → checks (new_row r t.clock) ≡ true
    → has_id r.id t.generations ≡ false
    → find (replays r.request_key) t.generations ≡ some g
    → submit r t ≡ (ok (record { generation = g; created = false }), t)
unfolding submit submit_statement
submit-replays r t g valid fresh e =
    ground (arith, has_id-found (replays r.request_key) t.generations g)

-- Once no generation holds the request's key, as after a failure or a cancellation, a submit of values
-- that meet the CHECKs, with a fresh identifier, creates a generation: pending, with its start intent at the database clock, and
-- first of the rows.
pub submit-creates :
    (r : GenerationSubmitRequest) (t : Tables)
    → checks (new_row r t.clock) ≡ true
    → has_id r.id t.generations ≡ false
    → find (replays r.request_key) t.generations ≡ none
    → let g = new_row r t.clock in
      (submit r t ≡ (
        ok (record { generation = g; created = true }),
        record t { generations = g ∷ t.generations },
      ))
      × (g.status ≡ GenerationStatus.pending)
      × (g.start_requested_at ≡ some t.clock)
      × (g.request_key ≡ r.request_key)
unfolding submit submit_statement new_row
submit-creates r t valid fresh e = ground (arith, ==_refl r.id)
