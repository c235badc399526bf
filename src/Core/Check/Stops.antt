-- ===== src/Core/Check/Stops.antt =====
-- When a check stops a provider call, and that a call that will not stop is given up on.
use service_genai.Prelude.{
  ℕ, ◌+◌, ◌≤◌, ◌<◌, ◌≡◌, ◌⊎◌, ◌↔◌, String, Bool, true, false, Option, none, some, is_some, arith,
  Option-cases, inl, inr,
}
use service_genai.Errors.{Bytes}
use service_genai.Action.{Action, Res, ok, err, Res-cases}
use service_genai.Connectors.{Async, Call, Registry, zero_call}
use service_genai.Dao.Rows.{Generation, GenerationStatus, GenerationFailure, Tables}
use service_genai.Dao.Reads.{get}
use service_genai.Dao.Consistency.{IsConsistent, row_of}
use service_genai.Core.Check.Outcome.{
  run_ceiling, stop_retry_window, stream_queued_ceiling, settle_outcome_of, failure_not_recorded,
}
use service_genai.Core.Check.Deps.{CheckDeps, Captured}
use service_genai.Core.Check.Commit.{commit, settle, settle_failure}
use service_genai.Core.Check.Observe.{
  Verdict, settles, leaves, fails, stop_since, ask, read_call, verdict, act, conclude, relabel,
  settle_or_give_up, observe_call,
}
use service_genai.Core.Check.Atomic.{over_tables, Commits, commit-Recorded}

-- No stop is wanted exactly while the owner has not asked and the call is younger than the ceiling.
stop_since-none :
    (start read_at : ℕ) (asked : Option ℕ)
    → (stop_since start read_at asked ≡ none) ↔ ((asked ≡ none) × (read_at < start + run_ceiling))
unfolding stop_since
stop_since-none start read_at asked = (λ h. ground arith, λ h. ground arith)

-- A wanted stop counts from the earlier of the owner's request and, once the call is that old, the
-- run ceiling.
stop_since-some :
    (start read_at since : ℕ) (asked : Option ℕ)
    → stop_since start read_at asked ≡ some since
    → ((at : ℕ) → asked ≡ some at → since ≤ at)
      × (start + run_ceiling ≤ read_at → since ≤ start + run_ceiling)
      × ((asked ≡ some since) ⊎ (since ≡ start + run_ceiling))
unfolding stop_since
stop_since-some start read_at since asked h =
    (λ at e. ground arith, λ old. ground arith, ground arith)

-- A verdict that is not to leave the generation.
abbrev Decides : Verdict → Type 0
Decides (settles call) = Unit
Decides leaves = ⊥
Decides (fails message class reason) = Unit

module _ {S : Type 0} (connector : Async S Captured) where
  verdict-Decides :
      (g : Generation) (start : ℕ) (id : String) (s : S)
      → start + run_ceiling + stop_retry_window ≤ g.read_at
      → let (answer, s') = ask connector g start id s in
        Decides (verdict g.read_at answer.0 answer.1)
  unfolding ask verdict stop_since
  verdict-Decides g start id s old = ground arith

  ask-young :
      (g : Generation) (start : ℕ) (id : String) (s : S) (cancel : String → Action S Call)
      → g.cancel_requested_at ≡ none
      → g.read_at < start + run_ceiling
      → (g.streamed ≡ false) ⊎ (g.read_at < start + stream_queued_ceiling)
      → ask (record connector { cancel = cancel }) g start id s ≡ ask connector g start id s
  unfolding ask read_call stop_since
  ask-young g start id s cancel e young h = ground arith

-- Until its owner asks or the run ceiling passes, the look that a check takes at a recorded call reads
-- the call and does not stop it, unless the call was streamed and is past the ceiling of a queued one:
-- the look has the same end for every way to cancel. The stop of a call whose id could not be recorded
-- is no part of it.
pub young_call_runs :
    {S St : Type 0} (d : CheckDeps S St) (connector : Async S Captured) (g : Generation) (start : ℕ)
    (id : String) (s : S) (cancel : String → Action S Call)
    → g.start_requested_at ≡ some start
    → g.provider_call_id ≡ some id
    → g.cancel_requested_at ≡ none
    → g.read_at < start + run_ceiling
    → (g.streamed ≡ false) ⊎ (g.read_at < start + stream_queued_ceiling)
    → observe_call d (record connector { cancel = cancel }) g s ≡ observe_call d connector g s
unfolding observe_call
young_call_runs d connector g start id s cancel b c e young h =
    ground (arith, ask-young connector g start id s cancel e young h)

-- A generation that a check has settled, in the answer and in the table, or an error that leaves the
-- tables as they were.
abbrev pub Decided : ℕ → Tables → Res Generation × Tables → Type 0
Decided id t (ok settled, t') =
    (is_some settled.settled_at ≡ true) × (row_of id t'.generations ≡ some settled)
Decided id t (err e, t') = t' ≡ t

-- The provider's answers leave the tables consistent.
pub record IsSound (connector : Async Tables Captured) : Type 0 where
  pub gets : (id : String) (t : Tables) → IsConsistent t → IsConsistent (connector.get id t).1
  pub cancels : (id : String) (t : Tables) → IsConsistent t → IsConsistent (connector.cancel id t).1

ask-IsConsistent :
    (connector : Async Tables Captured) (g : Generation) (start : ℕ) (id : String) (t : Tables)
    → IsSound connector
    → IsConsistent t
    → IsConsistent (ask connector g start id t).1
unfolding ask read_call
ask-IsConsistent connector g start id t sound c =
    ground (arith, sound.gets id t c, sound.cancels id (connector.get id t).1, sound.cancels id t c)

module _ {St : Type 0} (within_tx : Action Tables Generation → Action Tables Generation)
    (registry : Registry Tables Captured St) (now : Tables → ℕ) (wait : ℕ → Tables → Bool × Tables)
    (retention : ℕ)
    (commits : (f : Action Tables Generation) (t : Tables) → Commits (f t) t (within_tx f t)) where
  abbrev d : CheckDeps Tables St
  d = over_tables within_tx registry now wait retention

  commit-Decided :
      (g : Generation) (status : GenerationStatus) (message : Option String)
      (class : Option GenerationFailure) (call : Call) (t : Tables)
      → IsConsistent t
      → Decided g.id t (commit d g status message class call t)
  commit-Decided g status message class call t c = ground (
    arith,
    commit-Recorded within_tx registry now wait retention commits g status message class call t c,
    Option-cases (row_of g.id t.generations),
  )

  settle-Decided :
      (g : Generation) (call : Call) (t : Tables)
      → IsConsistent t
      → Decided g.id t (settle d g call t)
  unfolding settle
  settle-Decided g call t c =
      let (status, message) = settle_outcome_of g call in
      ground (
        arith,
        commit-Decided g status message (some GenerationFailure.provider_failed) call t c,
        commit-Decided g status message none call t c,
      )

  settle_failure-Decided :
      (g : Generation) (message : String) (class : GenerationFailure) (cause : String)
      (response : Option Bytes) (t : Tables)
      → IsConsistent t
      → Decided g.id t (settle_failure d g message class cause response t)
  unfolding settle_failure
  settle_failure-Decided g message class cause response t c =
      commit-Decided g GenerationStatus.failed (some message) (some class)
        (record zero_call { response = response }) t c

  settle_or_give_up-Decided :
      (g : Generation) (start : ℕ) (call : Call) (t : Tables)
      → IsConsistent t
      → Decided g.id t (settle_or_give_up d g start call t)
  unfolding settle_or_give_up
  settle_or_give_up-Decided g start call t c = elim (Res-cases (settle d g call t).0) [
    | inl (settled, e) ↦ ground (arith, settle-Decided g call t c)
    | inr (x, e) ↦ ground (
      arith,
      settle-Decided g call t c,
      settle_failure-Decided g failure_not_recorded GenerationFailure.provider_failed x.text none t
          c,
    )
  ]

  conclude-Decided :
      (g : Generation) (start : ℕ) (call : Call) (since : Option ℕ) (t : Tables)
      → IsConsistent t
      → Decided g.id t (conclude d g start call since t)
  unfolding conclude relabel get
  conclude-Decided g start call since t c =
      elim (Res-cases (get (record { id = g.id; owner_id = g.owner_id }) t).0) [
        | inl (current, e) ↦
            let labeled = record g { cancel_requested_at = current.cancel_requested_at } in
            ground (
              arith,
              settle_or_give_up-Decided g start call t c,
              settle_or_give_up-Decided labeled start call t c,
            )
        | inr (x, e) ↦ ground (arith, settle_or_give_up-Decided g start call t c)
      ]

  act-Decided :
      (g : Generation) (start : ℕ) (since : Option ℕ) (v : Verdict) (t : Tables)
      → Decides v
      → IsConsistent t
      → Decided g.id t (act d g start since v t)
  act-Decided g start since (settles call) t v c = conclude-Decided g start call since t c
  act-Decided g start since leaves t v c = absurd v
  act-Decided g start since (fails message class reason) t v c =
      settle_failure-Decided g message class reason none t c

  -- Over consistent tables, which the provider's answers leave so, and transactions that keep
  -- PostgreSQL's promise: the look that a check takes at a recorded call, older than the run ceiling and
  -- the retry window together, never leaves it for the next check, whatever the provider answers. The
  -- generation that it gives is settled, and is the row of the table; or it fails with an error, and the
  -- tables are as the provider's answer left them.
  pub old_call_settles :
      (connector : Async Tables Captured) (g : Generation) (start : ℕ) (id : String) (t : Tables)
      → IsSound connector
      → IsConsistent t
      → g.start_requested_at ≡ some start
      → g.provider_call_id ≡ some id
      → start + run_ceiling + stop_retry_window ≤ g.read_at
      → Decided g.id (ask connector g start id t).1 (observe_call d connector g t)
  unfolding observe_call
  old_call_settles connector g start id t sound c b i old =
      let (answer, t') = ask connector g start id t in
      ground (
        arith,
        act-Decided g start answer.1 (verdict g.read_at answer.0 answer.1) t'
            (verdict-Decides connector g start id t old)
            (ask-IsConsistent connector g start id t sound c),
      )
