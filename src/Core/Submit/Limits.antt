-- ===== src/Core/Submit/Limits.antt =====
-- What a submit's caps admit, and which limit a refusal names.
use service_genai.Prelude.{
  ℕ, ◌+◌, ◌≤◌, ◌≡◌, ◌⊎◌, inl, inr, refl, String, Option, none, some, List, [], ◌∷◌, arith, All,
  Option-cases,
}
use mathlib.Core.List.{Perm}
use mathlib.Core.List.Perm
use service_genai.Prelude.Int.{ℤ, ◌≤ℤ◌}
use service_genai.Errors.{UsageCapError, Limit, plain}
use service_genai.Action.{Res, ok, err}
use service_genai.Dao.Reads.{GenerationUsageTotals}
use service_genai.Core.Submit.Request.{GenerationCapWindow}
use service_genai.Core.Submit.Admit.{
  reached, refusing, window_refusal, first_refusal, cap_error, retry_after,
}

-- A window has room while each limit that it sets is above what was used.
abbrev pub HasRoom : GenerationCapWindow → GenerationUsageTotals → Type 0
HasRoom w u =
    ((limit : ℤ) → w.input_tokens ≡ some limit → ¬ (limit ≤ℤ u.input_tokens))
    × ((limit : ℤ) → w.output_tokens ≡ some limit → ¬ (limit ≤ℤ u.output_tokens))

refusing-none :
    (w : GenerationCapWindow) (u : GenerationUsageTotals) → refusing w u ≡ none → HasRoom w u
unfolding refusing reached
refusing-none w u e = (λ limit s. ground arith, λ limit s. ground arith)

-- A limit that is set and that the usage has reached.
abbrev AtLimit : Option ℤ → ℤ → Type 0
AtLimit none used = ⊥
AtLimit (some limit) used = limit ≤ℤ used

-- The window lacks room, for the tokens that the limit names, input first.
abbrev IsFull : GenerationCapWindow → GenerationUsageTotals → Limit → Type 0
IsFull w u (Limit.input_tokens duration) =
    (duration ≡ w.duration) × AtLimit w.input_tokens u.input_tokens
IsFull w u (Limit.output_tokens duration) =
    (duration ≡ w.duration)
    × (¬ (AtLimit w.input_tokens u.input_tokens))
    × AtLimit w.output_tokens u.output_tokens
IsFull w u (Limit.concurrency cap live) = ⊥

-- After the wait, and no earlier, the window no longer reaches back to the oldest usage in it.
abbrev Frees : ℕ → ℕ → Option ℕ → ℕ → Type 0
Frees now duration none pause = pause ≡ 0
Frees now duration (some oldest) pause =
    (oldest + duration ≤ now + pause) × ((pause ≡ 0) ⊎ (now + pause ≡ oldest + duration))

-- What a refusal says is so.
abbrev pub IsTrue :
    ℕ → String → GenerationCapWindow → GenerationUsageTotals → UsageCapError → Type 0
IsTrue now purpose w u refusal =
    (refusal.purpose ≡ purpose)
    × IsFull w u refusal.limit
    × Frees now w.duration u.oldest_at refusal.retry_after

refusing-some :
    (w : GenerationCapWindow) (u : GenerationUsageTotals) (limit : Limit)
    → refusing w u ≡ some limit
    → IsFull w u limit
unfolding refusing reached
refusing-some w u limit e = ground (arith, e)

retry_after-Frees :
    (now duration : ℕ) (oldest : Option ℕ)
    → Frees now duration oldest (retry_after now duration oldest)
unfolding retry_after
retry_after-Frees now duration none = refl
retry_after-Frees now duration (some oldest) = (omega arith, ground arith)

window_refusal-IsTrue :
    (now : ℕ) (purpose : String) (w : GenerationCapWindow) (u : GenerationUsageTotals)
    (refusal : UsageCapError)
    → window_refusal now purpose w u ≡ some refusal
    → IsTrue now purpose w u refusal
unfolding window_refusal
window_refusal-IsTrue now purpose w u refusal e = elim (Option-cases (refusing w u)) [
  | inl n ↦ absurd (ground (arith, e, n))
  | inr (limit, s) ↦
      ground (arith, refusing-some w u limit s, retry_after-Frees now w.duration u.oldest_at)
]

-- Every window has room, or the first one without room is refused, by what is true of it.
abbrev pub Judged :
    ℕ → String → List GenerationCapWindow → List GenerationUsageTotals → Res (Unit {0}) → Type 0
Judged now purpose [] us r = r ≡ ok tt
Judged now purpose (w ∷ ws) [] r = r ≡ err (plain "runtime error: index out of range")
Judged now purpose (w ∷ ws) (u ∷ us) r =
    ((refusal : UsageCapError) × IsTrue now purpose w u refusal × (r ≡ err (cap_error refusal)))
    ⊎ (HasRoom w u × Judged now purpose ws us r)

window_refusal-none :
    (now : ℕ) (purpose : String) (w : GenerationCapWindow) (u : GenerationUsageTotals)
    → window_refusal now purpose w u ≡ none
    → refusing w u ≡ none
unfolding window_refusal
window_refusal-none now purpose w u e = ground arith

first_refusal-none :
    (now : ℕ) (purpose : String) (w : GenerationCapWindow) (u : GenerationUsageTotals)
    (ws : List GenerationCapWindow) (us : List GenerationUsageTotals)
    → window_refusal now purpose w u ≡ none
    → first_refusal now purpose (w ∷ ws) (u ∷ us) ≡ first_refusal now purpose ws us
unfolding first_refusal
first_refusal-none now purpose w u ws us e = ground arith

first_refusal-some :
    (now : ℕ) (purpose : String) (w : GenerationCapWindow) (u : GenerationUsageTotals)
    (ws : List GenerationCapWindow) (us : List GenerationUsageTotals) (refusal : UsageCapError)
    → window_refusal now purpose w u ≡ some refusal
    → first_refusal now purpose (w ∷ ws) (u ∷ us) ≡ err (cap_error refusal)
unfolding first_refusal
first_refusal-some now purpose w u ws us refusal e = ground arith

-- The loop over the windows admits when every window has room, and otherwise refuses with the first
-- window in their order whose usage has reached a limit that it sets. The refusal names the purpose,
-- the window and the limit, that of input first, and the wait after which the window has moved past
-- the oldest usage. A window without its total is an error.
pub first_refusal-Judged :
    (now : ℕ) (purpose : String) (ws : List GenerationCapWindow) (us : List GenerationUsageTotals)
    → Judged now purpose ws us (first_refusal now purpose ws us)
first_refusal-Judged now purpose [] us = unfold first_refusal in refl
first_refusal-Judged now purpose (w ∷ ws) [] = unfold first_refusal in refl
first_refusal-Judged now purpose (w ∷ ws) (u ∷ us) =
    elim (Option-cases (window_refusal now purpose w u)) [
      | inl e ↦ inr (
        refusing-none w u (window_refusal-none now purpose w u e),
        rw (first_refusal-none now purpose w u ws us e) (first_refusal-Judged now purpose ws us),
      )
      | inr (refusal, e) ↦ inl (
        refusal,
        window_refusal-IsTrue now purpose w u refusal e,
        first_refusal-some now purpose w u ws us refusal e,
      )
    ]

-- The shortest window first.
abbrev pub IsSorted : List GenerationCapWindow → Type 0
IsSorted [] = Unit
IsSorted (w ∷ ws) = All (λ v. w.duration ≤ v.duration) ws × IsSorted ws
