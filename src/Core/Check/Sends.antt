-- ===== src/Core/Check/Sends.antt =====
-- A check that holds no start sends nothing: what a provider's start does is out of its reach.
use service_genai.Prelude.{String, ◌≡◌, refl, Option, none, some, [], ◌∷◌, arith}
use service_genai.Errors.{Bytes}
use service_genai.Action.{Action, Res, ok, err}
use service_genai.Connectors.{Async, AsyncStartRequest, Call, Registry, mode_of, async}
use service_genai.Dao.Rows.{Generation, GenerationFailure}
use service_genai.Core.Check.Outcome.{failure_provider_unavailable}
use service_genai.Core.Check.Deps.{CheckDeps, Captured}
use service_genai.Core.Check.Commit.{
  settle, settle_failure, commit, commit_tx, record_attempt, record_usage,
}
use service_genai.Core.Check.Observe.{
  observe, observe_call, ask, read_call, conclude, settle_or_give_up, relabel,
}
use service_genai.Core.Check.Start.{resolve_start}
use service_genai.Core.Check.Reach.Exec.{Sendless, due-Sendless}
use service_genai.Core.Check.Exec.{
  Due, due, apply, exec, to_start, already_settled, to_observe, to_resolve, to_cancel, to_fail,
}

abbrev Sends : Type 0 → Type 0
Sends S = AsyncStartRequest (Captured × S) → Action (Captured × S) Call

abbrev restarted : {S : Type 0} → Sends S → Option (Async S Captured) → Option (Async S Captured)
restarted sends none = none
restarted sends (some a) = some (record a { start = sends })

-- The registry with the start of every connector replaced.
abbrev pub with_start : {S St : Type 0} → Sends S → Registry S Captured St → Registry S Captured St
with_start sends [] = []
with_start sends ((p, c) ∷ r) =
    (p, record c { async_mode = restarted sends c.async_mode }) ∷ with_start sends r

abbrev restarted_result : {S : Type 0} → Sends S → Res (Async S Captured) → Res (Async S Captured)
restarted_result sends (ok a) = ok (record a { start = sends })
restarted_result sends (err e) = err e

module _ {S St : Type 0} (d : CheckDeps S St) (sends : Sends S) where
  async-with_start :
      (r : Registry S Captured St) (p : String)
      → async (with_start sends r) p ≡ restarted_result sends (async r p)
  unfolding async mode_of
  async-with_start [] p = refl
  async-with_start ((q, c) ∷ r) p = ground (arith, async-with_start r p)

  abbrev pub sending : CheckDeps S St
  sending = record d { registry = with_start sends d.registry }

  settle_failure-registry :
      (g : Generation) (message : String) (class : GenerationFailure) (cause : String)
      (response : Option Bytes) (s : S)
      → settle_failure sending g message class cause response s
        ≡ settle_failure d g message class cause response s
  unfolding settle_failure commit commit_tx record_attempt record_usage
  settle_failure-registry g message class cause response s = refl

  observe_call-start :
      (a : Async S Captured) (g : Generation) (s : S)
      → observe_call sending (record a { start = sends }) g s ≡ observe_call d a g s
  unfolding observe_call ask read_call conclude settle_or_give_up relabel settle settle_failure
      commit commit_tx record_attempt record_usage
  observe_call-start a g s = refl

  abbrev observed_by : CheckDeps S St → Generation → Res (Async S Captured) → Action S Generation
  observed_by c g (err e) s =
      settle_failure c g failure_provider_unavailable GenerationFailure.outcome_unknown e.text none
        s
  observed_by c g (ok a) s = observe_call c a g s

  observe-by :
      (c : CheckDeps S St) (g : Generation) (s : S)
      → observe c g s ≡ observed_by c g (async c.registry g.provider) s
  unfolding observe
  observe-by c g s = ground arith

  observed_by-start :
      (g : Generation) (r : Res (Async S Captured)) (s : S)
      → observed_by sending g (restarted_result sends r) s ≡ observed_by d g r s
  observed_by-start g (ok a) s = observe_call-start a g s
  observed_by-start g (err e) s =
      settle_failure-registry g failure_provider_unavailable GenerationFailure.outcome_unknown
        e.text none s

  observe-start : (g : Generation) (s : S) → observe sending g s ≡ observe d g s
  observe-start g s =
      rw (observe-by sending g s, observe-by d g s, async-with_start d.registry g.provider)
        (observed_by-start g (async d.registry g.provider) s)

  resolve_start-registry :
      (g : Generation) (s : S) → resolve_start sending g s ≡ resolve_start d g s
  unfolding resolve_start settle_failure commit commit_tx record_attempt record_usage
  resolve_start-registry g s = refl

  apply-start :
      (what : Due) (g : Generation) (s : S)
      → Sendless what
      → apply sending what g s ≡ apply d what g s
  unfolding apply settle settle_failure commit commit_tx record_attempt record_usage
  apply-start already_settled g s q = refl
  apply-start to_observe g s q = observe-start g s
  apply-start (to_start st) g s q = absurd q
  apply-start to_resolve g s q = resolve_start-registry g s
  apply-start to_cancel g s q = refl
  apply-start to_fail g s q = refl

  -- A check without a start that its submit holds never starts a call of the provider: it gives the
  -- same result and leaves the same state whatever the starts of the connectors do.
  exec-without_start :
      (g : Generation) (s : S)
      → exec sending (record { generation = g; start = none }) s
        ≡ exec d (record { generation = g; start = none }) s
  unfolding exec
  exec-without_start g s = rw (apply-start (due g none) g s (due-Sendless g)) refl
