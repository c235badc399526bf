-- ===== src/Core/Cancel/Settled.antt =====
-- A cancel over the tables, of a generation that has settled and by a caller who does not own one.
use service_genai.Prelude.{
  ℕ, ◌≡◌, ◌≢◌, refl, true, false, ◌&&◌, none, some, List, [], ◌∷◌, arith, find, ◌==◌, is_some, All,
  ==_refl,
}
use service_genai.Errors.{wraps, not_found}
use service_genai.Action.{Action, ok}
use service_genai.Dao.Rows.{GenerationAttempt, Tables, checks, is_live}
use service_genai.Dao.Rows
use service_genai.Dao.Lifecycle.{
  GenerationRequestCancelRequest, request_cancel, cancel_match, cancel_set,
}
use service_genai.Dao.Reads.{get, attempt_list, attempts_of}
use service_genai.Dao.Consistency.{IsConsistent, IsChecked, row_of}
use service_genai.Dao.Fencing.{Refuses, other_owner, cancel_by_id}
use service_genai.Dao.Updates.{update-unmatched}
use service_genai.Core.Generation.{new_generation, may_have_attempts, view}
use service_genai.Core.Check.Outcome.{generation_cancelled_reason}
use service_genai.Core.Check.Deps.{CheckRequest}
use service_genai.Core.Cancel.{CancelDeps, GenerationCancelRequest, exec, request, stop_call}

-- A cancel over the tables, with any check.
abbrev pub over_tables : (CheckRequest → Action Tables Rows.Generation) → ℕ → CancelDeps Tables
over_tables check retention = record {
  dao = request_cancel;
  dao_get = get;
  dao_attempt_list = attempt_list;
  service_check = check;
  retention = retention;
  validate = λ r. none;
}

abbrev cancel_request : GenerationCancelRequest → ℕ → GenerationRequestCancelRequest
cancel_request r retention = record {
  id = r.id;
  owner_id = r.owner_id;
  error = generation_cancelled_reason;
  retention = retention;
}

cancel_match-settled :
    (r : GenerationRequestCancelRequest) (g : Rows.Generation)
    → is_live g.status ≡ false
    → cancel_match r g ≡ false
unfolding cancel_match
cancel_match-settled r g dead = ground arith

owned_row :
    (id owner : ℕ) (gs : List Rows.Generation) (g : Rows.Generation)
    → row_of id gs ≡ some g
    → g.owner_id ≡ owner
    → find (λ h. h.id == id && h.owner_id == owner) gs ≡ some g
owned_row id owner [] g e o = cc
owned_row id owner (h ∷ hs) g e o = ground (arith, owned_row id owner hs g, ==_refl owner)

IsChecked-row :
    (id : ℕ) (gs : List Rows.Generation) (g : Rows.Generation)
    → All IsChecked gs
    → row_of id gs ≡ some g
    → IsChecked g
IsChecked-row id [] g a e = absurd (cc e)
IsChecked-row id (h ∷ hs) g a e = ground (arith, IsChecked-row id hs g a.1)

settled_row :
    (g : Rows.Generation) → IsChecked g → is_live g.status ≡ false → is_some g.settled_at ≡ true
unfolding checks
settled_row g c dead = ground arith

view-settled :
    (g : Rows.Generation) (t : Tables)
    → is_some g.settled_at ≡ true
    → view attempt_list g t ≡ (ok (new_generation g (attempts_of g.id t.attempts)), t)
unfolding view may_have_attempts attempt_list
view-settled g t e = ground arith

module _ (check : CheckRequest → Action Tables Rows.Generation) (retention : ℕ) where
  abbrev d : CancelDeps Tables
  d = over_tables check retention

  request-settled :
      (r : GenerationCancelRequest) (t : Tables) (g : Rows.Generation)
      → IsConsistent t
      → row_of r.id t.generations ≡ some g
      → g.owner_id ≡ r.owner_id
      → is_live g.status ≡ false
      → request d r t ≡ (ok (record g { read_at = t.clock }), t)
  unfolding request request_cancel get wraps
  request-settled r t g c e o dead =
      let cr = cancel_request r retention in
      rw
        (
          update-unmatched (cancel_match cr) (cancel_set cr t.clock) r.id (cancel_by_id cr) t g
              c.ids e (cancel_match-settled cr g dead),
          owned_row r.id r.owner_id t.generations g e o,
        )
        refl

  stop_call-settled :
      (g : Rows.Generation) (t : Tables) → is_some g.settled_at ≡ true → stop_call d g t ≡ (ok g, t)
  unfolding stop_call
  stop_call-settled g t e = ground arith

  -- On consistent tables, a cancel of a generation that has settled, by its owner, gives the
  -- generation as it stands, with its answers in the order of the attempts, and changes nothing: a
  -- cancel that lost a race or is sent again still succeeds.
  pub exec-settled :
      (r : GenerationCancelRequest) (t : Tables) (g : Rows.Generation)
      → IsConsistent t
      → row_of r.id t.generations ≡ some g
      → g.owner_id ≡ r.owner_id
      → is_live g.status ≡ false
      → exec d r t ≡ (ok (new_generation g (attempts_of g.id t.attempts)), t)
  unfolding exec new_generation
  exec-settled r t g c e o dead =
      let done = settled_row g (IsChecked-row r.id t.generations g c.checked e) dead in
      let g' = record g { read_at = t.clock } in
      ground (
        arith,
        request-settled r t g c e o dead,
        stop_call-settled g' t done,
        view-settled g' t done,
      )

  -- On consistent tables, a cancel by a caller who does not own the generation fails as if there were
  -- none, and changes nothing.
  exec-other_owner :
      (r : GenerationCancelRequest) (t : Tables) (g : Rows.Generation)
      → IsConsistent t
      → row_of r.id t.generations ≡ some g
      → g.owner_id ≢ r.owner_id
      → Refuses (exec d r t) (λ e. wraps not_found e ≡ true) t
  unfolding exec request wraps
  exec-other_owner r t g c e ne =
      let (unread, uncancelled) =
        other_owner r.id r.owner_id retention generation_cancelled_reason t g c e ne in
      ground (arith, unread, uncancelled)
