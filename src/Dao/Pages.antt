-- ===== src/Dao/Pages.antt =====
-- The pages of pg.generationSweep.
use service_genai.Prelude.{
  ℕ, zero, suc, ◌≤◌, ◌<◌, ◌≡◌, refl, Bool, true, ◌&&◌, List, [], ◌∷◌, arith, All, map, take, select,
  length, ltb,
}
use service_genai.Action.{ok}
use service_genai.Dao.Rows.{Generation, Tables, is_live}
use service_genai.Dao.Reads.{GenerationSweepRequest, insert_by_id, sort_by_id, stamp, sweep}

-- An unsettled generation that follows `after`.
abbrev pub follows : ℕ → Generation → Bool
follows after g = is_live g.status && ltb after g.id

abbrev pub Follows : ℕ → Generation → Type 0
Follows after g = follows after g ≡ true

-- In the order of the identifiers.
abbrev pub IsOrdered : List Generation → Type 0
IsOrdered [] = Unit
IsOrdered (g ∷ gs) = All (λ h. g.id ≤ h.id) gs × IsOrdered gs

-- A page: unsettled generations after an identifier, in order, at most `limit`, and, of a number that
-- follow, all of them when there are fewer than `limit`.
abbrev pub IsPage : ℕ → ℕ → ℕ → List Generation → Type 0
IsPage after limit number page =
    All (Follows after) page
    × IsOrdered page
    × (length page ≤ limit)
    × (length page < limit → length page ≡ number)

select-Follows :
    (after : ℕ) (gs : List Generation) → All (Follows after) (select (follows after) gs)
select-Follows after [] = tt
select-Follows after (g ∷ gs) = ground (arith, select-Follows after gs)

insert_by_id-All :
    (after : ℕ) (g : Generation) (gs : List Generation)
    → Follows after g
    → All (Follows after) gs
    → All (Follows after) (insert_by_id g gs)
unfolding insert_by_id
insert_by_id-All after g [] f a = (f, tt)
insert_by_id-All after g (h ∷ hs) f a = ground (arith, insert_by_id-All after g hs f a.1)

insert_by_id-bound :
    (n : ℕ) (g : Generation) (gs : List Generation)
    → n ≤ g.id
    → All (λ h. n ≤ h.id) gs
    → All (λ h. n ≤ h.id) (insert_by_id g gs)
unfolding insert_by_id
insert_by_id-bound n g [] f a = (f, tt)
insert_by_id-bound n g (h ∷ hs) f a = ground (arith, insert_by_id-bound n g hs f a.1)

bound-le :
    (n m : ℕ) (gs : List Generation) → n ≤ m → All (λ h. m ≤ h.id) gs → All (λ h. n ≤ h.id) gs
bound-le n m [] l a = tt
bound-le n m (g ∷ gs) l a = (omega arith, bound-le n m gs l a.1)

pub insert_by_id-IsOrdered :
    (g : Generation) (gs : List Generation) → IsOrdered gs → IsOrdered (insert_by_id g gs)
unfolding insert_by_id
insert_by_id-IsOrdered g [] o = (tt, tt)
insert_by_id-IsOrdered g (h ∷ hs) o =
    ground
      (arith, insert_by_id-IsOrdered g hs o.1, insert_by_id-bound h.id g hs, bound-le g.id h.id hs)

length-insert_by_id :
    (g : Generation) (gs : List Generation) → length (insert_by_id g gs) ≡ suc (length gs)
unfolding insert_by_id
length-insert_by_id g [] = refl
length-insert_by_id g (h ∷ hs) = ground (arith, length-insert_by_id g hs)

sort_by_id_lem :
    (after : ℕ) (gs : List Generation)
    → All (Follows after) gs
    → All (Follows after) (sort_by_id gs)
      × IsOrdered (sort_by_id gs)
      × (length (sort_by_id gs) ≡ length gs)
unfolding sort_by_id
sort_by_id_lem after [] a = (tt, tt, refl)
sort_by_id_lem after (g ∷ gs) a =
    let (all, ordered, same) = sort_by_id_lem after gs a.1 in
    (
      insert_by_id-All after g (sort_by_id gs) a.0 all,
      insert_by_id-IsOrdered g (sort_by_id gs) ordered,
      omega (arith, length-insert_by_id g (sort_by_id gs), same),
    )

take-bound :
    (n limit at : ℕ) (gs : List Generation)
    → All (λ h. n ≤ h.id) gs
    → All (λ h. n ≤ h.id) (map (stamp at) (take limit gs))
take-bound n zero at gs a = tt
take-bound n (suc limit) at [] a = tt
take-bound n (suc limit) at (g ∷ gs) a = (a.0, take-bound n limit at gs a.1)

-- The first rows of an ordered list, stamped, are a page.
take-IsPage :
    (after limit at : ℕ) (gs : List Generation)
    → All (Follows after) gs
    → IsOrdered gs
    → IsPage after limit (length gs) (map (stamp at) (take limit gs))
take-IsPage after zero at gs a o = (tt, tt, omega arith, λ l. absurd (omega arith))
take-IsPage after (suc limit) at [] a o = (tt, tt, omega arith, λ l. refl)
take-IsPage after (suc limit) at (g ∷ gs) a o =
    let (all, ordered, most, full) = take-IsPage after limit at gs a.1 o.1 in
    ((a.0, all), (take-bound g.id limit at gs o.0, ordered), omega arith, λ l. ground (arith, full))

-- A sweep reads unsettled generations that follow the identifier it is given, in the order of their
-- identifiers, no more than its limit; a page below the limit holds all of them. The tables are as
-- before.
sweep-IsPage :
    (r : GenerationSweepRequest) (t : Tables)
    → (page : List Generation) × (sweep r t ≡ (ok page, t))
      × IsPage r.after r.limit (length (select (follows r.after) t.generations)) page
unfolding sweep
sweep-IsPage r t =
    let found = select (follows r.after) t.generations in
    let (all, ordered, same) =
      sort_by_id_lem r.after found (select-Follows r.after t.generations) in
    (
      map (stamp t.clock) (take r.limit (sort_by_id found)),
      refl,
      rw⁻¹ same (take-IsPage r.after r.limit t.clock (sort_by_id found) all ordered),
    )
