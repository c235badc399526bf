-- ===== src/Dao/Updates.antt =====
-- What an UPDATE whose WHERE names an identifier does to the rows of pg.generation.go.
use service_genai.Prelude.{
  ℕ, ◌≡◌, ◌≢◌, refl, Bool, true, false, some, List, [], ◌∷◌, arith, ◌==◌, if◌then◌else◌,
}
use mathlib.Core.Option.{Option}
use mathlib.Core.Option
use service_genai.Action.{Res, ok, err}
use service_genai.Dao.Rows.{Generation, Tables, checks}
use service_genai.Dao.Answers.{Answer, row, empty, raised}
use service_genai.Dao.Lifecycle.{
  GenerationSettleRequest, settle, settle_match, settle_set, update, update_rows,
}
use service_genai.Dao.Consistency.{IdsUnique, IsConsistent, has_id, row_of, settle-IsTame}

-- The rows with the row of an identifier replaced.
abbrev pub replaced : ℕ → Generation → List Generation → List Generation
replaced id g [] = []
replaced id g (h ∷ hs) = if h.id == id then g ∷ hs else h ∷ replaced id g hs

pub row_of-replaced :
    (id : ℕ) (g old : Generation) (gs : List Generation)
    → g.id ≡ id
    → row_of id gs ≡ some old
    → row_of id (replaced id g gs) ≡ some g
row_of-replaced id g old [] same e = cc
row_of-replaced id g old (h ∷ hs) same e = ground (arith, row_of-replaced id g old hs)

pub row_of-replaced_ne :
    (id other : ℕ) (g : Generation) (gs : List Generation)
    → g.id ≡ id
    → other ≢ id
    → row_of other (replaced id g gs) ≡ row_of other gs
row_of-replaced_ne id other g [] same ne = refl
row_of-replaced_ne id other g (h ∷ hs) same ne =
    ground (arith, row_of-replaced_ne id other g hs same ne)

module _ (match : Generation → Bool) (change : Generation → Generation) (id : ℕ)
    (by_id : (g : Generation) → match g ≡ true → g.id ≡ id) where
  -- A WHERE that names an identifier reaches no row without it.
  update_rows-no_id :
      (gs : List Generation) → has_id id gs ≡ false → update_rows match change gs ≡ empty
  unfolding update_rows
  update_rows-no_id [] u = refl
  update_rows-no_id (g ∷ gs) u = ground (arith, update_rows-no_id gs, by_id g)

  -- Nor a row with it that fails the rest.
  update_rows-unmatched :
      (gs : List Generation) (g : Generation)
      → IdsUnique gs
      → row_of id gs ≡ some g
      → match g ≡ false
      → update_rows match change gs ≡ empty
  unfolding update_rows
  update_rows-unmatched [] g u e m = cc
  update_rows-unmatched (h ∷ hs) g u e m =
      ground (arith, update_rows-unmatched hs g u.1, update_rows-no_id hs, by_id h)

  -- A row that passes the WHERE, and whose new form passes the CHECKs, is replaced.
  update_rows-matched :
      (gs : List Generation) (g : Generation)
      → row_of id gs ≡ some g
      → match g ≡ true
      → checks (change g) ≡ true
      → update_rows match change gs ≡ row (change g, replaced id (change g) gs)
  unfolding update_rows
  update_rows-matched [] g e m c = cc
  update_rows-matched (h ∷ hs) g e m c = ground (arith, update_rows-matched hs g, by_id h)

  pub update-unmatched :
      (t : Tables) (g : Generation)
      → IdsUnique t.generations
      → row_of id t.generations ≡ some g
      → match g ≡ false
      → update match change t ≡ (empty, t)
  unfolding update
  update-unmatched t g u e m = ground (arith, update_rows-unmatched t.generations g u e m)

  update-no_id : (t : Tables) → has_id id t.generations ≡ false → update match change t ≡ (empty, t)
  unfolding update
  update-no_id t u = ground (arith, update_rows-no_id t.generations u)

  pub update-matched :
      (t : Tables) (g : Generation)
      → row_of id t.generations ≡ some g
      → match g ≡ true
      → checks (change g) ≡ true
      → update match change t
        ≡ (row (change g), record t { generations = replaced id (change g) t.generations })
  unfolding update
  update-matched t g e m c = ground (arith, update_rows-matched t.generations g e m c)

pub settle_by_id :
    (r : GenerationSettleRequest) (g : Generation) → settle_match r g ≡ true → g.id ≡ r.id
unfolding settle_match
settle_by_id r g h = ground arith

-- The row that an UPDATE returns is the row of its identifier.
abbrev Returned : ℕ → Answer (Generation × List Generation) → Type 0
Returned id (row (g, hs)) = row_of id hs ≡ some g
Returned id empty = Unit
Returned id (raised code) = Unit

update_rows-Returned :
    (match : Generation → Bool) (change : Generation → Generation) (id : ℕ) (gs : List Generation)
    → ((g : Generation) → match g ≡ true → g.id ≡ id)
    → ((g : Generation) → (change g).id ≡ g.id)
    → IdsUnique gs
    → Returned id (update_rows match change gs)
unfolding update_rows
update_rows-Returned match change id [] by_id same u = tt
update_rows-Returned match change id (h ∷ hs) by_id same u = ground (
  arith,
  update_rows-Returned match change id hs by_id same u.1,
  update_rows-no_id match change id by_id hs,
  by_id h,
  same h,
)

-- What a successful transition has done to the tables.
abbrev pub Moved : ℕ → Tables → Res Generation × Tables → Type 0
Moved id t (err e, t') = t' ≡ t
Moved id t (ok g, t') =
    (row_of id t'.generations ≡ some g)
    × (t'.attempts ≡ t.attempts)
    × (t'.usage ≡ t.usage)
    × (t'.clock ≡ t.clock)

pub settle-Moved :
    (r : GenerationSettleRequest) (t : Tables) → IsConsistent t → Moved r.id t (settle r t)
unfolding settle update
settle-Moved r t c = ground (
  arith,
  update_rows-Returned (settle_match r) (settle_set r t.clock) r.id t.generations (settle_by_id r)
      (settle-IsTame r t.clock).same_id c.ids,
)

-- The row that an UPDATE returns is the old row of its identifier, changed.
abbrev Changes :
    (Generation → Generation) → ℕ → List Generation → Answer (Generation × List Generation) → Type 0
Changes change id gs (row (g, hs)) = Option.map change (row_of id gs) ≡ some g
Changes change id gs empty = Unit
Changes change id gs (raised code) = Unit

update_rows-Changes :
    (match : Generation → Bool) (change : Generation → Generation) (id : ℕ) (gs : List Generation)
    → ((g : Generation) → match g ≡ true → g.id ≡ id)
    → IdsUnique gs
    → Changes change id gs (update_rows match change gs)
unfolding update_rows
update_rows-Changes match change id [] by_id u = tt
update_rows-Changes match change id (h ∷ hs) by_id u = ground (
  arith,
  update_rows-Changes match change id hs by_id u.1,
  update_rows-no_id match change id by_id hs,
  by_id h,
)

-- What a successful settle has set.
abbrev pub Sets : GenerationSettleRequest → Tables → Res Generation × Tables → Type 0
Sets r t (err e, t') = Unit
Sets r t (ok g, t') = Option.map (settle_set r t.clock) (row_of r.id t.generations) ≡ some g

pub settle-Sets :
    (r : GenerationSettleRequest) (t : Tables) → IsConsistent t → Sets r t (settle r t)
unfolding settle update
settle-Sets r t c = ground (
  arith,
  update_rows-Changes (settle_match r) (settle_set r t.clock) r.id t.generations (settle_by_id r)
      c.ids,
)
