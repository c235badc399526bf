-- ===== src/Core/Check/Reach/Observe.antt =====
-- `ask` and `observe` do to the state what the connector, the queries and the logs do.
use service_genai.Prelude.{
  ℕ, ◌+◌, ◌-◌, String, ◌≡◌, Bool, ◌&&◌, Option, none, some, arith, Option-cases, inl, inr,
  if◌then◌else◌, leb,
}
use service_genai.Errors.{Err, wraps, refused}
use service_genai.Action.{Res-cases, Action, Res, ok, err}
use service_genai.Connectors.{Async, Call, async}
use service_genai.Dao.Rows.{Generation, GenerationFailure}
use service_genai.Core.Check.Outcome.{failure_not_recorded, run_ceiling, stop_retry_window}
use service_genai.Core.Check.Deps.{CheckDeps, Captured}
use service_genai.Core.Check.Commit.{settle, settle_failure}
use service_genai.Core.Check.Observe.{
  observe, observe_call, ask, read_call, conclude, settle_or_give_up, relabel, verdict, Verdict,
  settles, leaves, fails, act,
}
use service_genai.Core.Check.Reach.Commit.{
  IsAlong, IsConnected, settle-along, settle_failure-along, chosen-along,
}

-- What follows the result of a call.
abbrev pub followed :
    {S A B : Type 0} → (A → Action S B) → (Err → Action S B) → Res A × S → Res B × S
followed f h x = elim x.0 [ ok a ↦ f a x.1 | err e ↦ h e x.1 ]

module _ {S St : Type 0} {R : S → S → Type 0} {d : CheckDeps S St} (w : IsAlong R d) where
  -- A call, and what follows its result.
  result-along :
      {A B : Type 0} (x : Res A × S) (f : A → Action S B) (h : Err → Action S B) (s : S)
      → R s x.1
      → ((a : A) (u : S) → R u (f a u).1)
      → ((e : Err) (u : S) → R u (h e u).1)
      → R s (followed f h x).1
  result-along (ok a, u) f h s p q r = w.goes_on p (q a u)
  result-along (err e, u) f h s p q r = w.goes_on p (r e u)

  read_call-along :
      {a : Async S Captured} (c : IsConnected R a) (id : String) (streamed : Bool) (start age : ℕ)
      (s : S)
      → R s (read_call a id streamed start age s).1
  unfolding read_call
  read_call-along {a} c id streamed start age s =
      let p = c.gets id s in
      let q = w.goes_on p (c.cancels id (a.get id s).1) in ground (arith, p, q)

  ask-along :
      {a : Async S Captured} (c : IsConnected R a) (g : Generation) (start : ℕ) (id : String)
      (s : S)
      → R s (ask a g start id s).1
  unfolding ask
  ask-along {a} c g start id s =
      let p = read_call-along c id g.streamed start (g.read_at - start) s in
      let q = c.cancels id s in ground (arith, p, q)

  settle_or_give_up-along :
      (g : Generation) (start : ℕ) (call : Call) (s : S)
      → R s (settle_or_give_up d g start call s).1
  unfolding settle_or_give_up
  settle_or_give_up-along g start call s =
      result-along (settle d g call s) (λ settled u. (ok settled, u))
        (λ e u.
          if wraps refused e && leb (run_ceiling + stop_retry_window) (g.read_at - start)
          then settle_failure d g failure_not_recorded GenerationFailure.provider_failed e.text none
              u
          else (err e, u))
        s (settle-along w g call s) (λ settled u. w.stays u)
        (λ e u. chosen-along w _ _ _ u (settle_failure-along w g _ _ _ none u) (w.stays u))

  relabel-along : (g : Generation) (s : S) → R s (relabel d g s).1
  unfolding relabel
  relabel-along g s =
      let p = w.gets (record { id = g.id; owner_id = g.owner_id }) s in ground (arith, p)

  conclude-along :
      (g : Generation) (start : ℕ) (call : Call) (since : Option ℕ) (s : S)
      → R s (conclude d g start call since s).1
  unfolding conclude
  conclude-along g start call since s =
      chosen-along w _ _ _ s
        (result-along (relabel d g s) (λ labeled. settle_or_give_up d labeled start call)
          (λ e u. (err e, u)) s (relabel-along g s)
          (λ labeled u. settle_or_give_up-along labeled start call u) (λ e u. w.stays u))
        (settle_or_give_up-along g start call s)

  act-along :
      (g : Generation) (start : ℕ) (since : Option ℕ) (v : Verdict) (s : S)
      → R s (act d g start since v s).1
  act-along g start since (settles call) s = conclude-along g start call since s
  act-along g start since leaves s = w.stays s
  act-along g start since (fails message class reason) s =
      settle_failure-along w g message class reason none s

  abbrev asked : Async S Captured → Generation → ℕ → String → Action S Generation
  asked a g start id s =
      let (answer, s') = ask a g start id s in
      act d g start answer.1 (verdict g.read_at answer.0 answer.1) s'

  asked-along :
      {a : Async S Captured} (c : IsConnected R a) (g : Generation) (start : ℕ) (id : String)
      (s : S)
      → R s (asked a g start id s).1
  asked-along {a} c g start id s =
      let (answer, s') = ask a g start id s in
      w.goes_on (ask-along c g start id s)
        (act-along g start answer.1 (verdict g.read_at answer.0 answer.1) s')

  observe_call-asked :
      (a : Async S Captured) (g : Generation) (start : ℕ) (id : String) (s : S)
      → g.start_requested_at ≡ some start
      → g.provider_call_id ≡ some id
      → observe_call d a g s ≡ asked a g start id s
  unfolding observe_call
  observe_call-asked a g start id s e n = ground arith

  observe_call-along :
      {a : Async S Captured} (c : IsConnected R a) (g : Generation) (s : S)
      → R s (observe_call d a g s).1
  unfolding observe_call
  observe_call-along {a} c g s = elim (Option-cases g.start_requested_at) [
    | inl e ↦ let p = w.stays s in ground (arith, e, p)
    | inr (start, e) ↦ elim (Option-cases g.provider_call_id) [
      | inl n ↦ let p = w.stays s in ground (arith, e, n, p)
      | inr (id, n) ↦ rw (observe_call-asked a g start id s e n) (asked-along c g start id s)
    ]
  ]

  pub observe-along : (g : Generation) (s : S) → R s (observe d g s).1
  unfolding observe
  observe-along g s = elim (Res-cases (async d.registry g.provider)) [
    | inl (a, e) ↦ rw (observe, e) (observe_call-along (w.connects g.provider a e) g s)
    | inr (x, e) ↦ rw (observe, e) (settle_failure-along w g _ _ _ none s)
  ]
