-- ===== src/Core/Sweep/Slots.antt =====
-- The slots that a sweep takes and gives back.
use service_genai.Prelude.{
  ℕ, zero, suc, ◌+◌, ◌-◌, ◌≡◌, refl, true, false, Option, none, List, [], ◌∷◌, arith, length,
  Bool-cases, inl, inr,
}
use service_genai.Action.{Res-cases}
use service_genai.Dao.Rows.{Generation}
use service_genai.Dao.Reads.{GenerationSweepRequest}
use service_genai.Core.Check.Deps.{CheckRequest}
use service_genai.Core.Sweep.{
  SweepDeps, last_start_of, last_id, dispatch, sweep_batch, sweep_loop, exec,
}

module _ {S L : Type 0} (d : SweepDeps S L) (held : S → ℕ) where
  -- The slots that are taken: a wait that gets one takes it, and a wait that the context ends does not.
  pub record IsPooled : Type 0 where
    pub got : (s : S) → (d.slot s).0 ≡ true → held (d.slot s).1 ≡ held s + 1
    pub ended : (s : S) → (d.slot s).0 ≡ false → held (d.slot s).1 ≡ held s
    pub release : (s : S) → held (d.release s) ≡ held s - 1
    pub check : (r : CheckRequest) (s : S) → held (d.service_check r s) ≡ held s
    pub dao : (r : GenerationSweepRequest) (s : S) → held (d.dao r s).1 ≡ held s
    pub lock : (s : S) → held (d.dao_lock s).1 ≡ held s
    pub unlock : (role : L) (s : S) → held (d.dao_unlock role s) ≡ held s

  module _ (pooled : IsPooled) (last_start : Option ℕ) where
    dispatch-held : (gs : List Generation) (s : S) → held (dispatch d last_start gs s) ≡ held s
    unfolding dispatch
    dispatch-held [] s = refl
    dispatch-held (g ∷ gs) s =
        let u = (d.slot s).1 in
        let r : CheckRequest = record { generation = g; start = none } in
        let v = d.service_check r u in
        elim (Bool-cases (d.slot s).0) [
          | inl e ↦ ground (
            arith,
            e,
            pooled.got s e,
            pooled.release u,
            pooled.check r u,
            pooled.release v,
            dispatch-held gs (d.release v),
          )
          | inr e ↦ ground (arith, e, pooled.ended s e)
        ]

    sweep_batch-held : (after : ℕ) (s : S) → held (sweep_batch d last_start after s).1 ≡ held s
    unfolding sweep_batch
    sweep_batch-held after s =
        let r : GenerationSweepRequest = record { after = after; limit = d.batch_size } in
        elim (Res-cases (d.dao r s).0) [
          | inl (gs, e) ↦ ground (arith, e, pooled.dao r s, dispatch-held gs (d.dao r s).1)
          | inr (x, e) ↦ ground (arith, e, pooled.dao r s)
        ]

    sweep_loop-held :
        (fuel after checked : ℕ) (s : S)
        → held (sweep_loop d fuel last_start after checked s).1 ≡ held s
    unfolding sweep_loop
    sweep_loop-held zero after checked s = refl
    sweep_loop-held (suc fuel) after checked s =
        let (page, u) = sweep_batch d last_start after s in
        elim (Res-cases page) [
          | inr (x, e) ↦ ground (arith, e, sweep_batch-held after s)
          | inl (gs, e) ↦ ground (
            arith,
            e,
            sweep_batch-held after s,
            sweep_loop-held fuel (last_id after gs) (checked + length gs) u,
          )
        ]

  -- Where the queries, the lock and the checks take no slot, a sweep leaves as many slots taken as there
  -- were, whether it ends, fails, skips its run or is cut short, so the calls that share the slots keep
  -- theirs.
  exec-held :
      (pooled : IsPooled) (fuel : ℕ) (deadline : Option ℕ) (s : S)
      → held (exec d fuel deadline s).1 ≡ held s
  unfolding exec
  exec-held pooled fuel deadline s =
      let u = (d.dao_lock s).1 in
      elim (Res-cases (d.dao_lock s).0) [
        | inr (x, e) ↦ ground (arith, e, pooled.lock s)
        | inl (role, e) ↦
            let v = (sweep_loop d fuel (last_start_of deadline) 0 0 u).1 in
            ground (
              arith,
              e,
              pooled.lock s,
              pooled.unlock role v,
              sweep_loop-held pooled (last_start_of deadline) fuel 0 0 u,
            )
      ]
