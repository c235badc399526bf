-- ===== src/Dao/Fencing.antt =====
-- What the fenced transitions of pg.generationSettle, pg.generationRecordProviderCall and
-- pg.generationRequestCancel do to a row, and to whom they refuse it.
use service_genai.Prelude.{
  ℕ, ◌≡◌, ◌≢◌, ◌∙◌, refl, String, Bool, true, false, ◌&&◌, none, some, List, [], ◌∷◌, arith, find,
  ◌==◌,
}
use service_genai.Errors.{Err, wraps, generation_changed, not_found, not_cancellable}
use service_genai.Action.{Res, ok, err}
use service_genai.Dao.Rows.{Generation, Tables, is_live, checks}
use service_genai.Dao.Lifecycle.{
  GenerationSettleRequest, GenerationRequestCancelRequest, settle, request_cancel, settle_match,
  settle_set, cancel_match, cancel_set, same_time, same_text,
}
use service_genai.Dao.Reads.{get}
use service_genai.Dao.Consistency.{IdsUnique, IsConsistent, has_id, row_of}
use service_genai.Dao.Updates.{
  row_of-replaced, row_of-replaced_ne, update-unmatched, update-matched, settle_by_id,
}

-- The result is this error, with these tables.
abbrev pub Refuses : {A : Type 0} → Res A × Tables → (Err → Type 0) → Tables → Type 0
Refuses (ok a, t') P t = ⊥
Refuses (err e, t') P t = P e × (t' ≡ t)

-- What a settle observed of a row: its call and its start, and that it had not settled.
abbrev pub observed : GenerationSettleRequest → Generation → Bool
observed r g =
    same_text g.provider_call_id r.provider_call_id
    && same_time g.start_requested_at r.start_requested_at
    && is_live g.status

pub cancel_by_id :
    (r : GenerationRequestCancelRequest) (g : Generation) → cancel_match r g ≡ true → g.id ≡ r.id
unfolding cancel_match
cancel_by_id r g h = ground arith

settle_match-observed :
    (r : GenerationSettleRequest) (g : Generation) → g.id ≡ r.id → settle_match r g ≡ observed r g
unfolding settle_match
settle_match-observed r g e = ground arith

id-row_of : (id : ℕ) (gs : List Generation) (g : Generation) → row_of id gs ≡ some g → g.id ≡ id
id-row_of id [] g e = cc
id-row_of id (h ∷ hs) g e = ground (arith, id-row_of id hs g)

settle_set-id :
    (r : GenerationSettleRequest) (g : Generation) (at : ℕ)
    → g.id ≡ r.id
    → (settle_set r at g).id ≡ r.id
unfolding settle_set
settle_set-id r g at e = e

-- Of consistent tables, a settle by a check whose read is out of date, because the row carries another call or start or
-- has settled, changes nothing and reports that the generation changed.
pub settle_fenced :
    (r : GenerationSettleRequest) (t : Tables) (g : Generation)
    → IsConsistent t
    → row_of r.id t.generations ≡ some g
    → observed r g ≡ false
    → Refuses (settle r t) (λ e. wraps generation_changed e ≡ true) t
unfolding settle wraps
settle_fenced r t g c e stale =
    rw
      (update-unmatched (settle_match r) (settle_set r t.clock) r.id (settle_by_id r) t g c.ids e
        (settle_match-observed r g (id-row_of r.id t.generations g e) ∙ stale))
      (refl, refl)

-- A settle whose observation still holds, with an outcome that meets the CHECKs, gives the settled
-- row, which the table then holds; every other row is as before.
pub settle_applies :
    (r : GenerationSettleRequest) (t : Tables) (g : Generation)
    → row_of r.id t.generations ≡ some g
    → observed r g ≡ true
    → checks (settle_set r t.clock g) ≡ true
    → ((settle r t).0 ≡ ok (settle_set r t.clock g))
      × (row_of r.id (settle r t).1.generations ≡ some (settle_set r t.clock g))
      × ((other : ℕ)
          → other ≢ r.id
          → row_of other (settle r t).1.generations ≡ row_of other t.generations)
unfolding settle
settle_applies r t g e holds valid =
    let same = id-row_of r.id t.generations g e in
    rw
      (update-matched (settle_match r) (settle_set r t.clock) r.id (settle_by_id r) t g e
        (settle_match-observed r g same ∙ holds) valid)
      (
        refl,
        row_of-replaced r.id (settle_set r t.clock g) g t.generations
            (settle_set-id r g t.clock same) e,
        λ other ne.
            row_of-replaced_ne r.id other (settle_set r t.clock g) t.generations
              (settle_set-id r g t.clock same) ne,
      )

abbrev cancel_of : ℕ → ℕ → String → ℕ → GenerationRequestCancelRequest
cancel_of id owner reason retention = record {
  id = id;
  owner_id = owner;
  error = reason;
  retention = retention;
}

cancel_match-other :
    (id owner : ℕ) (reason : String) (retention : ℕ) (g : Generation)
    → g.owner_id ≢ owner
    → cancel_match (cancel_of id owner reason retention) g ≡ false
unfolding cancel_match
cancel_match-other id owner reason retention g ne = ground arith

abbrev owned : ℕ → ℕ → Generation → Bool
owned id owner g = g.id == id && g.owner_id == owner

owned-no_id :
    (id owner : ℕ) (gs : List Generation) → has_id id gs ≡ false → find (owned id owner) gs ≡ none
owned-no_id id owner [] u = refl
owned-no_id id owner (g ∷ gs) u = ground (arith, owned-no_id id owner gs)

owned-none :
    (id owner : ℕ) (gs : List Generation) (g : Generation)
    → IdsUnique gs
    → row_of id gs ≡ some g
    → g.owner_id ≢ owner
    → find (owned id owner) gs ≡ none
owned-none id owner [] g u e ne = refl
owned-none id owner (h ∷ hs) g u e ne =
    ground (arith, owned-none id owner hs g u.1, owned-no_id id owner hs)

-- Of consistent tables, to a caller who does not own a generation, a read and a cancel answer as they do when there is no
-- such generation, and the cancel changes nothing.
pub other_owner :
    (id owner retention : ℕ) (reason : String) (t : Tables) (g : Generation)
    → IsConsistent t
    → row_of id t.generations ≡ some g
    → g.owner_id ≢ owner
    → Refuses (get (record { id = id; owner_id = owner }) t) (λ e. wraps not_found e ≡ true) t
      × Refuses
          (request_cancel
            (record { id = id; owner_id = owner; error = reason; retention = retention })
            t)
          (λ e. wraps not_cancellable e ≡ true)
          t
unfolding get request_cancel wraps
other_owner id owner retention reason t g c e ne = (
  rw (owned-none id owner t.generations g c.ids e ne) (refl, refl),
  rw
      (update-unmatched (cancel_match (cancel_of id owner reason retention))
        (cancel_set (cancel_of id owner reason retention) t.clock) id
        (cancel_by_id (cancel_of id owner reason retention)) t g c.ids e
        (cancel_match-other id owner reason retention g ne))
      (refl, refl),
)
