-- ===== src/Core/Check/Reach/Exec.antt =====
-- `start`, `resolveStart` and `Exec` do to the state what a check is given does.
use service_genai.Prelude.{
  ℕ, ◌-◌, leb, String, ◌≡◌, Bool, true, false, Bool-cases, Option, none, some, arith, inl, inr,
  if◌then◌else◌,
}
use service_genai.Errors.{Err, wraps, generation_changed}
use service_genai.Action.{Res-cases, Res, ok, err}
use service_genai.Connectors.{Async, AsyncStartRequest, Call, async}
use service_genai.Dao.Rows.{Generation, GenerationFailure}
use service_genai.Core.Check.Outcome.{failure_outcome_unknown, start_timeout}
use service_genai.Core.Check.Deps.{CheckDeps, CheckStart, CheckRequest, Captured}
use service_genai.Core.Check.Start.{
  record_rounds, start_failure, fail_start, resolve_start, accepted, after_record, send, start,
  after_start, after_late_record, capture, nothing_captured, stale_result,
}
use service_genai.Core.Check.Exec.{
  Due, due, apply, exec, reread, to_start, already_settled, to_observe, to_resolve, to_cancel,
  to_fail,
}
use service_genai.Core.Check.Reach.Commit.{
  IsAlong, IsConnected, settle-along, settle_failure-along, chosen-along,
}
use service_genai.Core.Check.Reach.Start.{record_call-along}
use service_genai.Core.Check.Reach.Observe.{observe-along}

-- The transitions that start no call.
abbrev pub Sendless : Due → Type 0
Sendless (to_start st) = ⊥
Sendless _ = Unit

pub due-Sendless : (g : Generation) → Sendless (due g none)
unfolding due
due-Sendless g = ground arith

-- The start of a connector moves the state along a relation of its own, which holds wherever the
-- first does and goes on along it, when its callback moves the state along the first.
pub record IsStarted {S St : Type 0} (R T : S → S → Type 0) (d : CheckDeps S St) : Type 0 where
  pub within : {s t : S} → R s t → T s t
  pub goes_on : {s t u : S} → T s t → R t u → T s u
  pub starts :
      (p : String) (a : Async S Captured)
      → async d.registry p ≡ ok a
      → (r : AsyncStartRequest (Captured × S))
      → ((call : Call) (c : Captured) (s : S) → R s (r.accepted call (c, s)).1.1)
      → (c : Captured) (s : S) → T s (a.start r (c, s)).1.1

module _ {S St : Type 0} {R : S → S → Type 0} {d : CheckDeps S St} (w : IsAlong R d) where
  fail_start-along : (g : Generation) (cause : Err) (s : S) → R s (fail_start d g cause s).1
  unfolding fail_start
  fail_start-along g cause s =
      let (message, class, response) = start_failure cause in
      settle_failure-along w g message class cause.text response s

  resolve_start-along : (g : Generation) (s : S) → R s (resolve_start d g s).1
  unfolding resolve_start
  resolve_start-along g s =
      let p = w.stays s in
      let q =
        settle_failure-along w g failure_outcome_unknown GenerationFailure.outcome_unknown
          "start intent recorded without a provider call id" none s in
      ground (arith, p, q)

  capture-along : (x : Res Generation × S) (s : S) → R s x.1 → R s (capture x).1.1
  capture-along (ok g, u) s p = p
  capture-along (err e, u) s p = p

  accepted-along :
      {a : Async S Captured} (c : IsConnected R a) (g : Generation) (at : ℕ) (call : Call)
      (v : Captured) (s : S)
      → R s (accepted d a g at call (v, s)).1.1
  unfolding accepted
  accepted-along c g at call v s =
      capture-along _ s (record_call-along w record_rounds c g at call.id s)

  after_record-along : (recorded : Generation) (s : S) → R s (after_record d recorded s).1
  unfolding after_record
  after_record-along recorded s =
      let p = w.stays s in let q = observe-along w recorded s in ground (arith, p, q)

  after_late_record-along :
      (x : Res Generation × S) (s : S) → R s x.1 → R s (after_late_record d x).1
  after_late_record-along (ok recorded, u) s p = w.goes_on p (after_record-along recorded u)
  after_late_record-along (err e, u) s p = p

  after_start-along :
      {a : Async S Captured} (c : IsConnected R a) (g : Generation) (at : ℕ) (r : Res Call)
      (recorded : Option Generation) (record_err : Option Err) (s : S)
      → R s (after_start d a g at r recorded record_err s).1
  after_start-along c g at r recorded (some e) s = w.stays s
  after_start-along c g at r (some recorded) none s = after_record-along recorded s
  after_start-along c g at (err e) none none s = fail_start-along g e s
  after_start-along c g at (ok call) none none s =
      after_late_record-along _ s (record_call-along w record_rounds c g at call.id s)

  stale_result-along : (x : Res Generation × S) (s : S) → R s x.1 → R s (stale_result d x).1
  stale_result-along (ok g, u) s p = p
  stale_result-along (err e, u) s p = p

  reread-along : (g : Generation) (x : Res Generation × S) (s : S) → R s x.1 → R s (reread d g x).1
  reread-along g (ok checked, u) s p = p
  reread-along g (err e, u) s p = chosen-along w _ _ _ s (w.goes_on p (w.gets _ u)) p

  apply-along : (what : Due) (g : Generation) (s : S) → Sendless what → R s (apply d what g s).1
  unfolding apply
  apply-along already_settled g s q = w.stays s
  apply-along to_observe g s q = observe-along w g s
  apply-along (to_start st) g s q = absurd q
  apply-along to_resolve g s q = resolve_start-along g s
  apply-along to_cancel g s q = settle-along w g _ s
  apply-along to_fail g s q = settle_failure-along w g _ _ _ none s

  -- A check whose transition starts no call does nothing but through what it is given, and never
  -- through the start of a connector.
  pub sendless-along :
      (r : CheckRequest) (s : S) → Sendless (due r.generation r.start) → R s (exec d r s).1
  unfolding exec
  sendless-along r s q =
      reread-along r.generation _ s (apply-along (due r.generation r.start) r.generation s q)

  -- A start whose intent is too old starts no call.
  pub late-along :
      (r : CheckRequest) (st : CheckStart) (s : S)
      → due r.generation r.start ≡ to_start st
      → leb start_timeout (d.now s - st.intent_at) ≡ true
      → R s (exec d r s).1
  unfolding exec apply start
  late-along r st s e late = rw e (
      reread-along r.generation (apply d (to_start st) r.generation s) s
        (elim (Res-cases (async d.registry r.generation.provider)) [
          | inl (a, f) ↦
              rw (start, f, late)
                (stale_result-along _ s (settle_failure-along w r.generation _ _ _ none s))
          | inr (x, f) ↦ rw (start, f) (settle_failure-along w r.generation _ _ _ none s)
        ]))

  module _ {T : S → S → Type 0} (v : IsStarted R T d) where
    send-along :
        (p : String) (a : Async S Captured)
        → async d.registry p ≡ ok a
        → (g : Generation) (st : CheckStart) (s : S) → T s (send d a g st s).1
    unfolding send
    send-along p a e g st s =
        let request : AsyncStartRequest (Captured × S) = record {
          payload = st.payload;
          stream = g.streamed;
          accepted = accepted d a g st.intent_at;
        } in
        let (r, (c, s')) = a.start request (nothing_captured, s) in
        let connected = w.connects p a e in
        v.goes_on
          (v.starts p a e request (λ call c s. accepted-along connected g st.intent_at call c s)
            nothing_captured s)
          (after_start-along connected g st.intent_at r c.recorded c.record_err s')

    chosen-started :
        (b : Bool) (x y : Res Generation × S) (s : S)
        → R s x.1
        → T s y.1
        → T s (if b then x else y).1
    chosen-started true x y s p q = v.within p
    chosen-started false x y s p q = q

    start-along : (g : Generation) (st : CheckStart) (s : S) → T s (start d g st s).1
    unfolding start
    start-along g st s = elim (Res-cases (async d.registry g.provider)) [
      | inl (a, e) ↦
          rw (start, e)
            (chosen-started _ _ _ s (stale_result-along _ s (settle_failure-along w g _ _ _ none s))
              (send-along g.provider a e g st s))
      | inr (x, e) ↦ rw (start, e) (v.within (settle_failure-along w g _ _ _ none s))
    ]

    apply-started : (what : Due) (g : Generation) (s : S) → T s (apply d what g s).1
    unfolding apply
    apply-started (to_start st) g s = start-along g st s
    apply-started already_settled g s = v.within (apply-along already_settled g s tt)
    apply-started to_observe g s = v.within (apply-along to_observe g s tt)
    apply-started to_resolve g s = v.within (apply-along to_resolve g s tt)
    apply-started to_cancel g s = v.within (apply-along to_cancel g s tt)
    apply-started to_fail g s = v.within (apply-along to_fail g s tt)

    reread-started :
        (g : Generation) (x : Res Generation × S) (s : S) → T s x.1 → T s (reread d g x).1
    reread-started g (ok checked, u) s p = p
    reread-started g (err e, u) s p = elim (Bool-cases (wraps generation_changed e)) [
      | inl c ↦ rw c (v.goes_on p (w.gets _ u))
      | inr c ↦ rw c p
    ]

    -- A check does nothing but through what it is given, whichever transition is due and whatever
    -- fails, and it starts at most one call.
    pub exec-along : (r : CheckRequest) (s : S) → T s (exec d r s).1
    unfolding exec
    exec-along r s =
        reread-started r.generation _ s (apply-started (due r.generation r.start) r.generation s)
