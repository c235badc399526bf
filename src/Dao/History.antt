-- ===== src/Dao/History.antt =====
-- The history of a row of the table `generations`, over any sequence of statements.
pub mod Moves
use service_genai.Prelude.{
  ℕ, ◌+◌, ◌≡◌, refl, String, Bool, true, false, Option-cases, Bool-cases, sym, subst, ap, inl, inr,
  Option, none, some, List, [], ◌∷◌, arith, ◌==◌, All,
}
use service_genai.Errors.{Bytes}
use service_genai.Dao.Rows.{Generation, GenerationStatus, Tables, checks, is_live}
use service_genai.Dao.Lifecycle.{
  GenerationSettleRequest, GenerationRecordProviderCallRequest, GenerationRequestCancelRequest,
  settle, record_provider_call, request_cancel, update, update_rows, settle_match, settle_set,
  record_match, record_set, cancel_match, cancel_set,
}
use service_genai.Dao.Submit.{GenerationSubmitRequest, submit}
use service_genai.Dao.Consistency.{
  IsConsistent, IsChecked, IsTame, row_of, row_of-submit, settle-IsTame, record-IsTame,
  cancel-IsTame, updated, generations-update,
}
use service_genai.Dao.Steps.{
  Step, Reach, here, next, settling, recording, cancelling, submitting, answering, metering,
  ticking, attempt_insert_keeps, usage_insert_keeps, Reach-IsConsistent,
}
use service_genai.Dao.History.Moves.{
  IsMove, IsLater, IsLater-refl, IsLater-trans, settle-IsMove, record-IsMove, cancel-IsMove,
}

-- The row of an identifier, later.
abbrev pub Follows : Option Generation → Option Generation → Type 0
Follows none x = Unit
Follows (some g) none = ⊥
Follows (some g) (some h) = IsLater g h

Follows-refl : (x : Option Generation) → Follows x x
Follows-refl none = tt
Follows-refl (some g) = IsLater-refl g

Follows-trans : (x y z : Option Generation) → Follows x y → Follows y z → Follows x z
Follows-trans none y z p q = tt
Follows-trans (some g) none z p q = absurd p
Follows-trans (some g) (some h) none p q = absurd q
Follows-trans (some g) (some h) (some k) p q = IsLater-trans p q

module _ {match : Generation → Bool} {change : Generation → Generation} (tame : IsTame match change)
    (moves : IsMove match change) where
  -- The first row, changed or not.
  first-Follows :
      (id : ℕ) (g h : Generation) (gs hs : List Generation)
      → h.id ≡ g.id
      → IsLater g h
      → Follows (row_of id gs) (row_of id hs)
      → Follows (row_of id (g ∷ gs)) (row_of id (h ∷ hs))
  first-Follows id g h gs hs e l f =
      let same_test = ap (λ n. n == id) e in
      elim (Bool-cases (g.id == id)) [
        | inl same ↦ rw (same_test, same) l
        | inr other ↦ rw (same_test, other) f
      ]

  updated-changed :
      (g : Generation) (gs : List Generation)
      → match g ≡ true
      → checks (change g) ≡ true
      → updated tame (g ∷ gs) ≡ change g ∷ gs
  unfolding update_rows
  updated-changed g gs m d = ground arith

  updated-refused :
      (g : Generation) (gs : List Generation)
      → match g ≡ true
      → checks (change g) ≡ false
      → updated tame (g ∷ gs) ≡ g ∷ gs
  unfolding update_rows
  updated-refused g gs m d = ground arith

  updated-passed :
      (g : Generation) (gs : List Generation)
      → match g ≡ false
      → updated tame (g ∷ gs) ≡ g ∷ updated tame gs
  unfolding update_rows
  updated-passed g gs m = ground arith

  rows-Follows :
      (id : ℕ) (gs : List Generation)
      → All IsChecked gs
      → Follows (row_of id gs) (row_of id (updated tame gs))
  unfolding update_rows
  rows-Follows id [] c = tt
  rows-Follows id (g ∷ gs) c =
      let to = λ (x : List Generation). Follows (row_of id (g ∷ gs)) (row_of id x) in
      elim (Bool-cases (match g)) [
        | inl m ↦ elim (Bool-cases (checks (change g))) [
          | inl d ↦ subst to (sym (updated-changed g gs m d)) (
              first-Follows id g (change g) gs gs (tame.same_id g) (moves g c.0 m d)
                (Follows-refl (row_of id gs)))
          | inr d ↦ subst to (sym (updated-refused g gs m d)) (Follows-refl (row_of id (g ∷ gs)))
        ]
        | inr m ↦ subst to (sym (updated-passed g gs m)) (
            first-Follows id g g gs (updated tame gs) refl (IsLater-refl g)
              (rows-Follows id gs c.1))
      ]

  update-Follows :
      (id : ℕ) (t : Tables)
      → IsConsistent t
      → Follows (row_of id t.generations) (row_of id (update match change t).1.generations)
  update-Follows id t c =
      subst (λ gs. Follows (row_of id t.generations) (row_of id gs))
        (sym (generations-update tame t)) (rows-Follows id t.generations c.checked)

submit-Follows :
    (id : ℕ) (r : GenerationSubmitRequest) (t : Tables)
    → Follows (row_of id t.generations) (row_of id (submit r t).1.generations)
submit-Follows id r t = elim (Option-cases (row_of id t.generations)) [
  | inl e ↦ rw e tt
  | inr (g, e) ↦ rw (e, row_of-submit id r t e) (IsLater-refl g)
]

Step-Follows :
    {t u : Tables} (id : ℕ)
    → Step t u
    → IsConsistent t
    → Follows (row_of id t.generations) (row_of id u.generations)
unfolding settle record_provider_call request_cancel
Step-Follows id (settling r t) c =
    update-Follows (settle-IsTame r t.clock) (settle-IsMove r t.clock) id t c
Step-Follows id (recording r t) c =
    update-Follows (record-IsTame r t.clock) (record-IsMove r t.clock) id t c
Step-Follows id (cancelling r t) c =
    update-Follows (cancel-IsTame r t.clock) (cancel-IsMove r t.clock) id t c
Step-Follows id (submitting r t) c = submit-Follows id r t
Step-Follows id (answering r t) c =
    rw (attempt_insert_keeps r t) (Follows-refl (row_of id t.generations))
Step-Follows id (metering r t) c =
    rw (usage_insert_keeps r t) (Follows-refl (row_of id t.generations))
Step-Follows id (ticking n t) c = Follows-refl (row_of id t.generations)

Reach-Follows :
    {t u : Tables} (id : ℕ)
    → Reach t u
    → IsConsistent t
    → Follows (row_of id t.generations) (row_of id u.generations)
Reach-Follows {t} id here c = Follows-refl (row_of id t.generations)
Reach-Follows {t} {u} id (next {u = v} r s) c =
    Follows-trans (row_of id t.generations) (row_of id v.generations) (row_of id u.generations)
      (Reach-Follows id r c) (Step-Follows id s (Reach-IsConsistent r c))

later_row_lem :
    (g : Generation) (x : Option Generation)
    → Follows (some g) x
    → (h : Generation) × (x ≡ some h) × IsLater g h
later_row_lem g none f = absurd f
later_row_lem g (some h) f = (h, refl, f)

-- From consistent tables, after any sequence of statements, a generation still has its row. Its owner,
-- its request, its creation and its start intent are what they were, its recorded call and its request
-- to cancel are never changed or cleared, and its status has moved from pending to running and from
-- either to an end, or not at all.
pub Reach-IsLater :
    {t u : Tables} (id : ℕ) (g : Generation)
    → Reach t u
    → IsConsistent t
    → row_of id t.generations ≡ some g
    → (h : Generation) × (row_of id u.generations ≡ some h) × IsLater g h
Reach-IsLater {t} {u} id g r c e =
    later_row_lem g (row_of id u.generations)
      (subst (λ x. Follows x (row_of id u.generations)) e (Reach-Follows id r c))
