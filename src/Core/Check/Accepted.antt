-- ===== src/Core/Check/Accepted.antt =====
-- The CHECK constraints of the database accept every outcome that a check settles.
use service_genai.Prelude.{
  ℕ, String, ◌≡◌, ◌⊎◌, true, false, Option, none, some, arith, if◌then◌else◌, str_eq, inr, refl,
  inl, get_or, Bool-cases,
}
use service_genai.Connectors.{Call}
use service_genai.Dao.Rows.{
  Generation, GenerationFailure, GenerationStatus, checks, is_failed, is_live, filled,
}
use service_genai.Dao.Lifecycle.{settle_set, GenerationSettleRequest}
use service_genai.Dao.Consistency.{IsChecked}
use service_genai.Core.Check.Outcome.{settle_outcome_of, failure_log}
use service_genai.Core.Check.Deps.{CheckDeps}
use service_genai.Action.{Res}
use service_genai.Core.Check.Commit.{settle_request, settle, commit, commit_tx, is_call_failed}

-- What a settle leaves of the CHECKs: those of the columns that it does not write.
abbrev IsNamed : Generation → Type 0
IsNamed row =
    (str_eq row.purpose "" ≡ false)
    × (str_eq row.provider "" ≡ false)
    × (filled row.provider_call_id ≡ true)

IsChecked-IsNamed : (row : Generation) → IsChecked row → IsNamed row
unfolding checks
IsChecked-IsNamed row c = ground arith

-- A row that meets the CHECKs meets them once settled with a terminal status, a message that is not
-- empty, and a class that only a failure carries.
settle_set-IsNamed :
    (retention at : ℕ) (g row : Generation) (status : GenerationStatus) (message : Option String)
    (class : Option GenerationFailure)
    → IsNamed row
    → is_live status ≡ false
    → filled message ≡ true
    → (class ≡ none) ⊎ (is_failed status ≡ true)
    → IsChecked (settle_set (settle_request retention g status message class) at row)
unfolding checks settle_set settle_request
settle_set-IsNamed retention at g row GenerationStatus.failed message class n t f k =
    rw (n.0, n.1, n.2, f) (ground arith)
settle_set-IsNamed retention at g row GenerationStatus.succeeded message none n t f k =
    rw (n.0, n.1, n.2, f)
settle_set-IsNamed retention at g row GenerationStatus.cancelled message none n t f k =
    rw (n.0, n.1, n.2, f)
settle_set-IsNamed retention at g row status message class n t f k = ground arith

outcome_fits :
    (g : Generation) (call : Call)
    → let (status, message) = settle_outcome_of g call in
      (is_live status ≡ false) × (filled message ≡ true)
unfolding settle_outcome_of
outcome_fits g call = ground arith

module _ {S St : Type 0} (d : CheckDeps S St) where
  -- A commit of an outcome that the CHECKs accept, whatever the row.
  abbrev pub Accepts : Generation → Call → Res Generation × S → Type 0
  Accepts g call result =
      (r : GenerationSettleRequest) × (s : S) × (result ≡ d.within_tx (commit_tx d r g call) s)
      × ((at : ℕ) (row : Generation) → IsChecked row → IsChecked (settle_set r at row))

  commit-Accepts :
      (g : Generation) (call : Call) (status : GenerationStatus) (message : Option String)
      (class : Option GenerationFailure) (s : S)
      → is_live status ≡ false
      → filled message ≡ true
      → (class ≡ none) ⊎ (is_failed status ≡ true)
      → Accepts g call (commit d g status message class call s)
  unfolding commit
  commit-Accepts g call status message class s t f k = (
    settle_request d.retention g status message class,
    s,
    refl,
    λ at row c.
        settle_set-IsNamed d.retention at g row status message class (IsChecked-IsNamed row c) t f
          k,
  )

  -- Whatever the provider answers and whoever stops the call, `settle` commits an outcome with which
  -- every row that meets the CHECK constraints meets them too once it is settled.
  pub settle-Accepts : (g : Generation) (call : Call) (s : S) → Accepts g call (settle d g call s)
  unfolding settle
  settle-Accepts g call s =
      let (status, message) = settle_outcome_of g call in
      let fits = outcome_fits g call in
      elim (Bool-cases (is_failed status)) [
        | inl e ↦ rw e (
            commit-Accepts g call status message (some GenerationFailure.provider_failed)
              (d.log
                (failure_log g
                  (if is_call_failed call.state then call.reason else get_or "" message))
                s)
              fits.0 fits.1 (inr e))
        | inr e ↦ rw e (commit-Accepts g call status message none s fits.0 fits.1 (inl refl))
      ]

-- A row that meets the CHECK constraints meets them too once it is settled as failed, with any message
-- that is not empty and any class, as `settleFailure` does.
settled_failure-IsChecked :
    (retention at : ℕ) (g row : Generation) (message : String) (class : GenerationFailure)
    → IsChecked row
    → str_eq message "" ≡ false
    → IsChecked (
        settle_set
          (settle_request retention g GenerationStatus.failed (some message) (some class))
          at
          row)
settled_failure-IsChecked retention at g row message class c f =
    settle_set-IsNamed retention at g row GenerationStatus.failed (some message) (some class)
      (IsChecked-IsNamed row c) refl (rw f) (inr refl)
