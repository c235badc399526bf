-- ===== src/Core/Sweep/Steady.antt =====
-- A sweep that nothing cuts short: what its checks of a page leave.
use service_genai.Prelude.{
  ℕ, suc, ◌≤◌, ◌≡◌, refl, sym, ap, ◌∙◌, true, false, Option, none, List, [], ◌∷◌, ◌++◌, arith, All,
  map, length,
}
use mathlib.Core.List.{append_assoc, append-nil}
use service_genai.Dao.Rows.{Generation, Tables}
use service_genai.Dao.Reads.{GenerationSweepRequest, sweep, stamp}
use service_genai.Core.Sweep.{SweepDeps, may_start, last_id, dispatch}
use service_genai.Core.Sweep.Order.{IsStrict, later, last_id-bound}

abbrev pub ids : List Generation → List ℕ
ids = map (λ g. g.id)

pub ids-append : (gs hs : List Generation) → ids (gs ++ hs) ≡ ids gs ++ ids hs
ids-append [] hs = refl
ids-append (g ∷ gs) hs = ap (λ is. g.id ∷ is) (ids-append gs hs)

-- A stamp changes no identifier.
pub stamp-ids :
    (at n : ℕ) (gs : List Generation)
    → (ids (map (stamp at) gs) ≡ ids gs)
      × (last_id n (map (stamp at) gs) ≡ last_id n gs)
      × (length (map (stamp at) gs) ≡ length gs)
unfolding last_id
stamp-ids at n [] = (refl, refl, refl)
stamp-ids at n (g ∷ gs) =
    let (same, last, long) = stamp-ids at g.id gs in (ap (λ is. g.id ∷ is) same, last, ap suc long)

pub stamp-bound :
    (at m : ℕ) (gs : List Generation)
    → All (λ h. h.id ≤ m) gs
    → All (λ h. h.id ≤ m) (map (stamp at) gs)
stamp-bound at m [] a = tt
stamp-bound at m (g ∷ gs) a = (a.0, stamp-bound at m gs a.1)

pub last_id-All : (n : ℕ) (gs : List Generation) → IsStrict gs → All (λ h. h.id ≤ last_id n gs) gs
unfolding last_id
last_id-All n [] s = tt
last_id-All n (g ∷ gs) s = (last_id-bound g.id gs s.0 s.1, last_id-All g.id gs s.1)

module _ {S L : Type 0} (d : SweepDeps S L) (last_start : Option ℕ) (tables : S → Tables)
    (log : S → List ℕ) where
  abbrev pub unsettled : ℕ → S → List Generation
  unsettled n s = later n (tables s).generations

  -- No check and no unsettled generation more or less.
  abbrev pub Unseen : S → S → Type 0
  Unseen s s' = (log s' ≡ log s) × ((m : ℕ) → unsettled m s' ≡ unsettled m s)

  -- A run that nothing cuts short, over tables, with a log of the checks. A check changes no generation
  -- that follows its own.
  pub record IsSteady : Type 0 where
    pub dao :
        (r : GenerationSweepRequest) (s : S)
        → ((d.dao r s).0 ≡ (sweep r (tables s)).0) × Unseen s (d.dao r s).1
    pub ended : (s : S) → d.ended s ≡ false
    pub timely : (s : S) → may_start last_start (d.now s) ≡ true
    pub slot : (s : S) → ((d.slot s).0 ≡ true) × Unseen s (d.slot s).1
    pub release : (s : S) → Unseen s (d.release s)
    pub check :
        (g : Generation) (s : S)
        → let s' = d.service_check (record { generation = g; start = none }) s in
          (log s' ≡ log s ++ g.id ∷ []) × ((m : ℕ) → g.id ≤ m → unsettled m s' ≡ unsettled m s)

  module _ (steady : IsSteady) where
    abbrev checked_one : Generation → S → S
    checked_one g s =
        d.release (d.service_check (record { generation = g; start = none }) (d.slot s).1)

    dispatch-step :
        (g : Generation) (gs : List Generation) (s : S)
        → dispatch d last_start (g ∷ gs) s ≡ dispatch d last_start gs (checked_one g s)
    unfolding dispatch
    dispatch-step g gs s =
        ground (arith, (steady.slot s).0, steady.ended (d.slot s).1, steady.timely (d.slot s).1)

    checked_one-log : (g : Generation) (s : S) → log (checked_one g s) ≡ log s ++ g.id ∷ []
    checked_one-log g s =
        let s1 = (d.slot s).1 in
        let s2 = d.service_check (record { generation = g; start = none }) s1 in
        (steady.release s2).0
        ∙ (steady.check g s1).0
        ∙ ap (λ is. is ++ g.id ∷ []) (steady.slot s).1.0

    pub dispatch-log :
        (gs : List Generation) (s : S) → log (dispatch d last_start gs s) ≡ log s ++ ids gs
    unfolding dispatch
    dispatch-log [] s = sym (append-nil (log s))
    dispatch-log (g ∷ gs) s =
        ap log (dispatch-step g gs s)
        ∙ dispatch-log gs (checked_one g s)
        ∙ ap (λ is. is ++ ids gs) (checked_one-log g s)
        ∙ append_assoc (log s) (g.id ∷ []) (ids gs)

    checked_one-unsettled :
        (m : ℕ) (g : Generation) (s : S) → g.id ≤ m → unsettled m (checked_one g s) ≡ unsettled m s
    checked_one-unsettled m g s l =
        let s1 = (d.slot s).1 in
        let s2 = d.service_check (record { generation = g; start = none }) s1 in
        (steady.release s2).1 m ∙ (steady.check g s1).1 m l ∙ (steady.slot s).1.1 m

    pub dispatch-unsettled :
        (m : ℕ) (gs : List Generation) (s : S)
        → All (λ h. h.id ≤ m) gs
        → unsettled m (dispatch d last_start gs s) ≡ unsettled m s
    unfolding dispatch
    dispatch-unsettled m [] s a = refl
    dispatch-unsettled m (g ∷ gs) s a =
        ap (unsettled m) (dispatch-step g gs s)
        ∙ dispatch-unsettled m gs (checked_one g s) a.1
        ∙ checked_one-unsettled m g s a.0
