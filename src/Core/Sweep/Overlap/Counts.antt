-- ===== src/Core/Sweep/Overlap/Counts.antt =====
-- The lists of checks of a batch, and how often an identifier stands in them.
use service_genai.Prelude.{
  ℕ, suc, ◌+◌, ◌≡◌, sym, ◌∙◌, List, [], ◌∷◌, ◌++◌, length, length-append, map, arith, ◌==◌,
  if◌then◌else◌,
}
use service_genai.Dao.Rows.{Generation}
use service_genai.Core.Sweep.Overlap.{Loop, dispatching, holding, waiting, returned}

abbrev pub ids : List Generation → List ℕ
ids = map (λ g. g.id)

-- How often an identifier stands in a list.
abbrev pub count : ℕ → List ℕ → ℕ
count id [] = 0
count id (n ∷ ns) = if n == id then suc (count id ns) else count id ns

pub count-append : (id : ℕ) (xs ys : List ℕ) → count id (xs ++ ys) ≡ count id xs + count id ys
count-append id [] ys = omega arith
count-append id (n ∷ xs) ys = ground (arith, count-append id xs ys)

-- The slots that the batch holds itself.
abbrev pub loop_slots : Loop → ℕ
loop_slots (holding g gs) = 1
loop_slots _ = 0

-- What the loop has left to dispatch.
abbrev pub Left : Loop → List ℕ → Type 0
Left (dispatching gs) rest = rest ≡ ids gs
Left (holding g gs) rest = rest ≡ g.id ∷ ids gs
Left waiting rest = Unit
Left returned rest = Unit

-- The checks of a batch that has returned.
abbrev pub AllDone : Loop → List ℕ → List ℕ → Type 0
AllDone returned running leaving = (running ≡ []) × (leaving ≡ [])
AllDone _ running leaving = Unit

pub cons_not_nil : (xs : List ℕ) (id : ℕ) (ys : List ℕ) → xs ++ id ∷ ys ≡ [] → ⊥
cons_not_nil [] id ys e = cc e
cons_not_nil (x ∷ xs) id ys e = cc e

-- A batch that has returned has no check that could go on.
pub running-AllDone :
    (l : Loop) (running leaving now next : List ℕ) (id : ℕ) (xs ys : List ℕ)
    → running ≡ xs ++ id ∷ ys
    → AllDone l running leaving
    → AllDone l now next
running-AllDone returned running leaving now next id xs ys e o =
    absurd (cons_not_nil xs id ys (sym e ∙ o.0))
running-AllDone waiting running leaving now next id xs ys e o = tt
running-AllDone (dispatching gs) running leaving now next id xs ys e o = tt
running-AllDone (holding g gs) running leaving now next id xs ys e o = tt

pub leaving-AllDone :
    (l : Loop) (running leaving now next : List ℕ) (id : ℕ) (xs ys : List ℕ)
    → leaving ≡ xs ++ id ∷ ys
    → AllDone l running leaving
    → AllDone l now next
leaving-AllDone returned running leaving now next id xs ys e o =
    absurd (cons_not_nil xs id ys (sym e ∙ o.1))
leaving-AllDone waiting running leaving now next id xs ys e o = tt
leaving-AllDone (dispatching gs) running leaving now next id xs ys e o = tt
leaving-AllDone (holding g gs) running leaving now next id xs ys e o = tt

pub count-middle : (n id : ℕ) (xs ys : List ℕ) → count n (xs ++ id ∷ ys) ≡ count n (id ∷ xs ++ ys)
count-middle n id xs ys =
    let apart = count-append n xs (id ∷ ys) in
    let together = count-append n xs ys in ground (arith, apart, together)

pub length-middle : (id : ℕ) (xs ys : List ℕ) → length (xs ++ id ∷ ys) ≡ suc (length (xs ++ ys))
length-middle id xs ys = omega (arith, length-append xs (id ∷ ys), length-append xs ys)
