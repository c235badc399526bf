-- ===== src/Core/Check/Once.antt =====
-- `GenerationCheck.Exec` and the provider's start: a count of the starts that a provider was asked for.
pub mod Scenario
mod Tests
use service_genai.Prelude.{
  ℕ, suc, ◌≤◌, ◌<◌, ◌-◌, ◌≡◌, refl, sym, subst, String, Bool-cases, Option, none, some, arith, inl,
  inr, ◌⊎◌, leb,
}
use service_genai.Action.{ok}
use service_genai.Connectors.{Async, AsyncStartRequest, Call, async}
use service_genai.Dao.Rows.{Generation}
use service_genai.Core.Check.Outcome.{start_timeout}
use service_genai.Core.Check.Deps.{CheckDeps, CheckStart, CheckRequest, Captured}
use service_genai.Core.Check.Exec.{
  Due, due, exec, to_start, already_settled, to_observe, to_resolve, to_cancel, to_fail,
}
use service_genai.Core.Check.Reach.Commit.{IsAlong}
use service_genai.Core.Check.Reach.Exec.{
  Sendless, IsStarted, exec-along, sendless-along, late-along,
}

module _ {S : Type 0} (count : S → ℕ) where
  abbrev pub SameCount : S → S → Type 0
  SameCount s t = count t ≡ count s

  abbrev pub OneMore : S → S → Type 0
  OneMore s t = count t ≤ suc (count s)

module _ {S St : Type 0} (count : S → ℕ) where
  -- What the count relies on: a start of a connector counts for one, and nothing else that a check is
  -- given counts.
  pub record IsCounted (d : CheckDeps S St) : Type 0 where
    pub keeps : IsAlong (SameCount count) d
    pub starts :
        (p : String) (a : Async S Captured)
        → async d.registry p ≡ ok a
        → (r : AsyncStartRequest (Captured × S))
        → ((call : Call) (c : Captured) (s : S) → SameCount count s (r.accepted call (c, s)).1.1)
        → (c : Captured) (s : S) → OneMore count s (a.start r (c, s)).1.1

  module _ (d : CheckDeps S St) (counted : IsCounted d) where
    started : IsStarted (SameCount count) (OneMore count) d
    started = record {
      within = λ e. omega arith;
      goes_on = λ e f. omega arith;
      starts = counted.starts;
    }

    -- The start that a check holds may still be sent.
    abbrev pub IsTimely : Option CheckStart → S → Type 0
    IsTimely none s = ⊥
    IsTimely (some st) s = d.now s - st.intent_at < start_timeout

    abbrev pub Sends : CheckRequest → S → S → Type 0
    Sends r s t =
        SameCount count s t
        ⊎ (OneMore count s t
            × (r.generation.settled_at ≡ none)
            × (r.generation.provider_call_id ≡ none)
            × IsTimely r.start s)

    due_start_lem :
        (g : Generation) (o : Option CheckStart) (st : CheckStart)
        → due g o ≡ to_start st
        → (g.settled_at ≡ none) × (g.provider_call_id ≡ none) × (o ≡ some st)
    unfolding due
    due_start_lem g o st e = ground arith

    start-Sends :
        (r : CheckRequest) (st : CheckStart) (s : S)
        → due r.generation r.start ≡ to_start st
        → Sends r s (exec d r s).1
    start-Sends r st s e =
        let (settled, unsent, held) = due_start_lem r.generation r.start st e in
        elim (Bool-cases (leb start_timeout (d.now s - st.intent_at))) [
          | inl late ↦ inl (late-along counted.keeps r st s e late)
          | inr early ↦ inr (
            exec-along counted.keeps started r s,
            settled,
            unsent,
            subst (λ o. IsTimely o s) (sym held) (ground (arith, early)),
          )
        ]

    due-Sends :
        (r : CheckRequest) (s : S) (what : Due)
        → due r.generation r.start ≡ what
        → Sends r s (exec d r s).1
    due-Sends r s (to_start st) e = start-Sends r st s e
    due-Sends r s already_settled e =
        inl (sendless-along counted.keeps r s (subst Sendless (sym e) tt))
    due-Sends r s to_observe e = inl (sendless-along counted.keeps r s (subst Sendless (sym e) tt))
    due-Sends r s to_resolve e = inl (sendless-along counted.keeps r s (subst Sendless (sym e) tt))
    due-Sends r s to_cancel e = inl (sendless-along counted.keeps r s (subst Sendless (sym e) tt))
    due-Sends r s to_fail e = inl (sendless-along counted.keeps r s (subst Sendless (sym e) tt))

    -- Where a start of a connector counts for one and nothing else counts, a check asks a provider for
    -- one start at most, whatever fails, and for none unless its generation is unsettled, has no
    -- recorded call, and the check holds a start whose intent is younger than the start's timeout.
    pub exec-Sends : (r : CheckRequest) (s : S) → Sends r s (exec d r s).1
    exec-Sends r s = due-Sends r s (due r.generation r.start) refl
