-- ===== src/Core/Check/Reach/Start.antt =====
-- `start`, `recordCall` and `Exec` do to the state what a check is given does.
use service_genai.Prelude.{ℕ, zero, suc, ◌+◌, min, String, Bool, true, false, arith, inl, inr}
use service_genai.Errors.{Err}
use service_genai.Action.{Res-cases, Action, Res, ok, err}
use service_genai.Connectors.{Async}
use service_genai.Dao.Rows.{Generation}
use service_genai.Core.Check.Outcome.{Log, record_pause_ceiling, record_patience, record_pause}
use service_genai.Core.Check.Deps.{CheckDeps, Captured}
use service_genai.Core.Check.Commit.{record_usage}
use service_genai.Core.Check.RecordCall.{
  Ending, written, interrupted, exhausted, write, record_loop, stop_orphan, give_up, after_loop,
  moved, record_call,
}
use service_genai.Core.Check.Reach.Commit.{IsAlong, IsConnected, record_usage-along}

module _ {S St : Type 0} {R : S → S → Type 0} {d : CheckDeps S St} (w : IsAlong R d) where
  record_loop-along :
      (fuel : ℕ) (writes : Action S Generation) (deadline pause : ℕ) (r : Res Generation) (s : S)
      → ((u : S) → R u (writes u).1)
      → R s (record_loop d fuel writes deadline pause r s).1
  unfolding record_loop
  record_loop-along zero writes deadline pause r s h = w.stays s
  record_loop-along (suc fuel) writes deadline pause (ok g) s h = w.stays s
  record_loop-along (suc fuel) writes deadline pause (err e) s h =
      let p = w.stays s in
      let s' = (d.wait pause s).1 in
      let q = w.waits pause s in
      let next = writes s' in
      let t = w.goes_on (w.goes_on q (h s')) (
        record_loop-along fuel writes deadline (min (pause + pause) record_pause_ceiling) next.0
          next.1 h) in
      ground (arith, p, q, t)

  stop_orphan-along :
      {a : Async S Captured} (c : IsConnected R a) (g : Generation) (id : String) (s : S)
      → R s (stop_orphan d a g id s)
  unfolding stop_orphan
  stop_orphan-along {a} c g id s = elim (Res-cases (a.cancel id s).0) [
    | inl (call, e) ↦
        let s' = (a.cancel id s).1 in
        let p = w.goes_on (c.cancels id s) (record_usage-along w g call s') in
        elim (Res-cases (record_usage d g call s').0) [
          | inl (u, n) ↦ ground (arith, e, n, p)
          | inr (x, n) ↦
              let q =
                w.goes_on p (w.logs (Log.orphan g.id id x.text) (record_usage d g call s').1) in
              ground (arith, e, n, q)
        ]
    | inr (x, e) ↦
        let q = w.goes_on (c.cancels id s) (w.logs (Log.orphan g.id id x.text) (a.cancel id s).1) in
        ground (arith, e, q)
  ]

  give_up-along :
      {a : Async S Captured} (c : IsConnected R a) (g : Generation) (id : String) (moved_on : Bool)
      (e : Err) (s : S)
      → R s (give_up d a g id moved_on e s).1
  unfolding give_up
  give_up-along c g id true e s = stop_orphan-along c g id s
  give_up-along {a} c g id false e s =
      let x = d.dao_get (record { id = g.id; owner_id = g.owner_id }) s in
      let p = w.gets (record { id = g.id; owner_id = g.owner_id }) s in
      let q = w.goes_on p (stop_orphan-along c g id x.1) in ground (arith, p, q)

  after_loop-along :
      {a : Async S Captured} (c : IsConnected R a) (g : Generation) (id : String) (moved_on : Bool)
      (x : Ending × S)
      → R x.1 (after_loop d a g id moved_on x).1
  after_loop-along c g id moved_on (written (ok recorded), s) = w.stays s
  after_loop-along c g id moved_on (written (err e), s) = give_up-along c g id moved_on e s
  after_loop-along c g id moved_on (interrupted e, s) = w.stays s
  after_loop-along c g id moved_on (exhausted, s) = w.stays s

  write-along : (g : Generation) (id : String) (s : S) → R s (write d g.id id s).1
  unfolding write
  write-along g id s = w.records (record { id = g.id; provider_call_id = id }) s

  pub record_call-along :
      (fuel : ℕ) {a : Async S Captured} (c : IsConnected R a) (g : Generation) (at : ℕ)
      (id : String) (s : S)
      → R s (record_call d fuel a g at id s).1
  unfolding record_call
  record_call-along fuel {a} c g at id s =
      let (r, s') = write d g.id id s in
      let x = record_loop d fuel (write d g.id id) (at + record_patience) record_pause r s' in
      w.goes_on
        (w.goes_on (write-along g id s) (
          record_loop-along fuel (write d g.id id) (at + record_patience) record_pause r s'
            (write-along g id)))
        (after_loop-along c g id (moved d r) x)
