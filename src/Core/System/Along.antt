-- ===== src/Core/System/Along.antt =====
-- What a read, a cancel and a sweep do to any state: no more than what they are given does.
use service_genai.Prelude.{
  ℕ, zero, suc, ◌+◌, length, String, Option, none, List, [], ◌∷◌, arith, Option-cases, inl, inr,
}
use service_genai.Action.{Action, Res, Res-cases, ok, err, wrapped, ◌>>=◌}
use service_genai.Dao.Rows
use service_genai.Dao.Rows.{GenerationAttempt}
use service_genai.Dao.Reads.{GenerationGetRequest, GenerationSweepRequest}
use service_genai.Dao.Lifecycle.{GenerationRequestCancelRequest}
use service_genai.Core.Generation.{view}
use service_genai.Core.Check.Outcome.{generation_cancelled_reason}
use service_genai.Core.Get.{GetDeps}
use service_genai.Core.Get
use service_genai.Core.Cancel.{CancelDeps}
use service_genai.Core.Cancel
use service_genai.Core.Sweep.{SweepDeps, dispatch, sweep_batch, sweep_loop, last_id, last_start_of}
use service_genai.Core.Sweep

pub record IsOrder {S : Type 0} (R : S → S → Type 0) : Type 0 where
  pub stays : (s : S) → R s s
  pub goes_on : {s t u : S} → R s t → R t u → R s u

-- An action moves the state along a relation, whatever it returns.
abbrev pub Runs : {S A : Type 0} → (S → S → Type 0) → Action S A → Type 0
Runs {S} R m = (s : S) → R s (m s).1

module _ {S : Type 0} {R : S → S → Type 0} (o : IsOrder R) where
  bind-Runs :
      {A B : Type 0} (m : Action S A) (f : A → Action S B)
      → Runs R m
      → ((a : A) → Runs R (f a))
      → Runs R (m >>= f)
  bind-Runs m f p q s = elim (Res-cases (m s).0) [
    | inl (a, e) ↦ let r = p s in let r' = o.goes_on r (q a (m s).1) in ground (arith, e, r')
    | inr (x, e) ↦ let r = p s in ground (arith, e, r)
  ]

  wrapped-along :
      {A : Type 0} (prefix : String) (x : Res A × S) (s : S) → R s x.1 → R s (wrapped prefix x).1
  wrapped-along prefix (ok a, u) s r = r
  wrapped-along prefix (err e, u) s r = r

  view-Runs :
      (lists : ℕ → Action S (List GenerationAttempt))
      → ((id : ℕ) → Runs R (lists id))
      → (g : Rows.Generation) → Runs R (view lists g)
  unfolding view
  view-Runs lists l g s = let r = o.stays s in let q = l g.id s in ground (arith, r, q)

  module _ (d : GetDeps S) where
    -- What a read is given moves the state along the relation.
    pub record IsGetAlong : Type 0 where
      pub gets : (r : GenerationGetRequest) → Runs R (d.dao r)
      pub lists : (id : ℕ) → Runs R (d.dao_attempt_list id)
      pub checks :
          (g : Rows.Generation) → Runs R (d.service_check (record { generation = g; start = none }))

    module _ (w : IsGetAlong) where
      refresh-Runs : (g : Rows.Generation) → Runs R (Get.refresh d g)
      unfolding Get.refresh
      refresh-Runs g s = let r = w.checks g s in let r' = o.stays s in ground (arith, r, r')

      read-Runs : (r : Get.GenerationGetRequest) → Runs R (Get.read d r)
      unfolding Get.read
      read-Runs r s = wrapped-along "get generation: " _ s (w.gets _ s)

      pub get-along : (r : Get.GenerationGetRequest) → Runs R (Get.exec d r)
      unfolding Get.exec
      get-along r s = elim (Option-cases (d.validate r)) [
        | inl e ↦
            rw (Get.exec, e)
              (bind-Runs (Get.read d r >>= Get.refresh d) (view d.dao_attempt_list)
                (bind-Runs (Get.read d r) (Get.refresh d) (read-Runs r) refresh-Runs)
                (view-Runs d.dao_attempt_list w.lists) s)
        | inr (x, e) ↦ rw (Get.exec, e) (o.stays s)
      ]

  module _ (d : CancelDeps S) where
    -- What a cancel is given moves the state along the relation.
    pub record IsCancelAlong : Type 0 where
      pub cancels : (r : GenerationRequestCancelRequest) → Runs R (d.dao r)
      pub gets : (r : GenerationGetRequest) → Runs R (d.dao_get r)
      pub lists : (id : ℕ) → Runs R (d.dao_attempt_list id)
      pub checks :
          (g : Rows.Generation) → Runs R (d.service_check (record { generation = g; start = none }))

    module _ (w : IsCancelAlong) where
      request-Runs : (r : Cancel.GenerationCancelRequest) → Runs R (Cancel.request d r)
      unfolding Cancel.request
      request-Runs r s =
          let request : GenerationRequestCancelRequest = record {
            id = r.id;
            owner_id = r.owner_id;
            error = generation_cancelled_reason;
            retention = d.retention;
          } in
          let step = w.cancels request s in
          let reread =
            o.goes_on step
              (w.gets (record { id = r.id; owner_id = r.owner_id }) (d.dao request s).1) in
          ground (arith, step, reread)

      stop_call-Runs : (g : Rows.Generation) → Runs R (Cancel.stop_call d g)
      unfolding Cancel.stop_call
      stop_call-Runs g s = let r = w.checks g s in let r' = o.stays s in ground (arith, r, r')

      pub cancel-along : (r : Cancel.GenerationCancelRequest) → Runs R (Cancel.exec d r)
      unfolding Cancel.exec
      cancel-along r s = elim (Option-cases (d.validate r)) [
        | inl e ↦
            rw (Cancel.exec, e)
              (bind-Runs (Cancel.request d r >>= Cancel.stop_call d) (view d.dao_attempt_list)
                (bind-Runs (Cancel.request d r) (Cancel.stop_call d) (request-Runs r)
                  stop_call-Runs)
                (view-Runs d.dao_attempt_list w.lists) s)
        | inr (x, e) ↦ rw (Cancel.exec, e) (o.stays s)
      ]

  module _ {L : Type 0} (d : SweepDeps S L) where
    -- What a sweep is given moves the state along the relation.
    pub record IsSweepAlong : Type 0 where
      pub pages : (r : GenerationSweepRequest) → Runs R (d.dao r)
      pub locks : Runs R d.dao_lock
      pub unlocks : (role : L) (s : S) → R s (d.dao_unlock role s)
      pub checks :
          (g : Rows.Generation) (s : S)
          → R s (d.service_check (record { generation = g; start = none }) s)
      pub slots : (s : S) → R s (d.slot s).1
      pub releases : (s : S) → R s (d.release s)

    module _ (w : IsSweepAlong) where
      dispatch-along :
          (last_start : Option ℕ) (gs : List Rows.Generation) (s : S)
          → R s (dispatch d last_start gs s)
      unfolding dispatch
      dispatch-along last_start [] s = o.stays s
      dispatch-along last_start (g ∷ gs) s =
          let u = (d.slot s).1 in
          let v = d.service_check (record { generation = g; start = none }) u in
          let slot = w.slots s in
          let given_back = o.goes_on slot (w.releases u) in
          let one = o.goes_on slot (o.goes_on (w.checks g u) (w.releases v)) in
          let all = o.goes_on one (dispatch-along last_start gs (d.release v)) in
          ground (arith, slot, given_back, all)

      sweep_batch-Runs :
          (last_start : Option ℕ) (after : ℕ) → Runs R (sweep_batch d last_start after)
      unfolding sweep_batch
      sweep_batch-Runs last_start after s =
          let (page, u) = d.dao (record { after = after; limit = d.batch_size }) s in
          let read = w.pages (record { after = after; limit = d.batch_size }) s in
          elim (Res-cases page) [
            | inl (gs, e) ↦
                let all = o.goes_on read (dispatch-along last_start gs u) in ground (arith, e, all)
            | inr (x, e) ↦ ground (arith, e, read)
          ]

      sweep_loop-Runs :
          (fuel : ℕ) (last_start : Option ℕ) (after checked : ℕ)
          → Runs R (sweep_loop d fuel last_start after checked)
      unfolding sweep_loop
      sweep_loop-Runs zero last_start after checked s = o.stays s
      sweep_loop-Runs (suc fuel) last_start after checked s =
          let (page, u) = sweep_batch d last_start after s in
          let batch = sweep_batch-Runs last_start after s in
          let stays = o.stays s in
          elim (Res-cases page) [
            | inr (x, e) ↦ ground (arith, e, batch, stays)
            | inl (gs, e) ↦
                let rest =
                  o.goes_on batch
                    (sweep_loop-Runs fuel last_start (last_id after gs) (checked + length gs) u) in
                ground (arith, e, batch, stays, rest)
          ]

      pub sweep-along : (fuel : ℕ) (deadline : Option ℕ) → Runs R (Sweep.exec d fuel deadline)
      unfolding Sweep.exec
      sweep-along fuel deadline s =
          let (locked, u) = d.dao_lock s in
          let stays = o.stays s in
          let taken = w.locks s in
          elim (Res-cases locked) [
            | inr (x, e) ↦ ground (arith, e, stays, taken)
            | inl (role, e) ↦
                let outcome = sweep_loop d fuel (last_start_of deadline) 0 0 u in
                let run = o.goes_on taken (
                  o.goes_on (sweep_loop-Runs fuel (last_start_of deadline) 0 0 u)
                    (w.unlocks role outcome.1)) in
                ground (arith, e, stays, taken, run)
          ]
