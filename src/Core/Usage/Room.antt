-- ===== src/Core/Usage/Room.antt =====
-- The room under the caps of a submit, by the summary of its owner and purpose.
use service_genai.Prelude.{
  ℕ, suc, ◌≡◌, ◌⊎◌, refl, ◌∙◌, String, Bool, true, false, ◌&&◌, Option, none, some, List, [], ◌∷◌,
  arith, leb, length, select, ==_refl, eq_iff, find, inl, inr,
}
use service_genai.Errors.{Err, Bytes}
use service_genai.Action.{Res-cases, ok}
use service_genai.Dao.Rows.{Tables, checks}
use service_genai.Dao.Submit.{submit, new_row, replays}
use service_genai.Dao.Replay.{submit-creates}
use service_genai.Dao.Consistency.{has_id}
use service_genai.Core.Submit.Exec.{submission, submit_tx}
use service_genai.Dao.Submit
use service_genai.Dao.Reads.{
  GenerationUsageTotals, count_live, counts_live, usage_sum, totals, in_window,
}
use service_genai.Core.Submit.Request.{GenerationSubmitRequest, SubmitDeps}
use service_genai.Core.Submit.Admit.{
  unknown_outcome_hold, admit, admit_concurrency, admit_windows, caps_of, sort_windows,
}
use service_genai.Core.Usage.{UsageDeps, UsageSummaryRequest, UsageSummaryResult, exec}
use service_genai.Core.Usage.Windows.{
  one_more_fits, all_below, durations, is_ok, all_roomy, reported, first_refusal-all_roomy,
  all_roomy-sort_windows, window_totals-reported, all_below-reported,
}

-- A summary over the tables.
abbrev pub summary_over : List String → (UsageSummaryRequest → Option Err) → UsageDeps Tables
summary_over purposes validate = record {
  dao_count_live = count_live;
  dao_usage_sum = usage_sum;
  purposes = purposes;
  validate = validate;
}

-- A submit over the tables.
abbrev pub counted_over : {St : Type 0} → SubmitDeps Tables St → SubmitDeps Tables St
counted_over d = record d { dao = submit; dao_usage_sum = usage_sum; dao_count_live = count_live }

-- The totals of an owner's usage for a purpose, over a window, and the generations in flight.
abbrev totals_of : ℕ → String → Tables → ℕ → GenerationUsageTotals
totals_of owner purpose t window = totals (select (in_window owner purpose t.clock window) t.usage)

abbrev live_of : ℕ → String → Tables → ℕ
live_of owner purpose t = length (
    select
      (counts_live
        (record {
          owner_id = owner;
          purpose = purpose;
          unknown_outcome_window = unknown_outcome_hold;
        })
        t.clock)
      t.generations)

List-cases {ℓ} : {A : Type ℓ} (xs : List A) → (xs ≡ []) ⊎ ((y : A) × (ys : List A) × (xs ≡ y ∷ ys))
List-cases [] = inl refl
List-cases (x ∷ xs) = inr (x, xs, refl)

abbrev is_within : Option ℕ → ℕ → Bool
is_within none live = true
is_within (some cap) live = leb live cap

module _ {St : Type 0} (d : SubmitDeps Tables St) (r : GenerationSubmitRequest) where
  abbrev total_at : Tables → ℕ → GenerationUsageTotals
  total_at = totals_of r.owner_id r.purpose

  admit_windows-all_roomy :
      (t : Tables)
      → is_ok (admit_windows (counted_over d) r t).0
        ≡ all_roomy (total_at t) (caps_of r.caps).windows
  unfolding admit_windows usage_sum
  admit_windows-all_roomy t = elim (List-cases (caps_of r.caps).windows) [
    | inl e ↦ ground (arith, e)
    | inr (w, ws, e) ↦ ground (
      arith,
      e,
      first_refusal-all_roomy (total_at t) (d.now t) r.purpose (sort_windows (w ∷ ws)),
      all_roomy-sort_windows (total_at t) (w ∷ ws),
    )
  ]

  admit-fits :
      (t : Tables)
      → is_ok (admit (counted_over d) r t).0 ≡ (
          is_within (caps_of r.caps).concurrency (live_of r.owner_id r.purpose t)
          && all_roomy (total_at t) (caps_of r.caps).windows)
  unfolding admit admit_concurrency count_live
  admit-fits t = ground (arith, admit_windows-all_roomy t)

  abbrev asked : UsageSummaryRequest
  asked = record {
    owner_id = r.owner_id;
    purpose = r.purpose;
    windows = durations (caps_of r.caps).windows;
  }

  exec-summary :
      (purposes : List String) (validate : UsageSummaryRequest → Option Err) (t u : Tables)
      (s : UsageSummaryResult)
      → exec (summary_over purposes validate) asked t ≡ (ok s, u)
      → (s.live ≡ live_of r.owner_id r.purpose t)
        × (s.windows ≡ reported (total_at t) (caps_of r.caps).windows)
  unfolding exec count_live usage_sum
  exec-summary purposes validate t u s e = elim (List-cases (caps_of r.caps).windows) [
    | inl f ↦ ground (arith, e, f)
    | inr (w, ws, f) ↦ ground (arith, e, f, window_totals-reported (total_at t) (w ∷ ws))
  ]

  module _ (id : ℕ) (key : Bytes) (traceparent : Option String) where
    abbrev submitted : Submit.GenerationSubmitRequest
    submitted = submission (counted_over d) r id key traceparent

    -- The tables with the generation of the submit.
    abbrev grown : Tables → Tables
    grown t = record t { generations = new_row submitted t.clock ∷ t.generations }

    live_of-grown :
        (t : Tables) → live_of r.owner_id r.purpose (grown t) ≡ suc (live_of r.owner_id r.purpose t)
    unfolding counts_live new_row submission
    live_of-grown t = ground (arith, ==_refl r.owner_id, (eq_iff r.purpose r.purpose).1 refl)

    submit_tx-admits :
        (t : Tables)
        → submit submitted t
          ≡ (ok (record { generation = new_row submitted t.clock; created = true }), grown t)
        → is_ok (submit_tx (counted_over d) r submitted t).0.1
          ≡ is_ok (admit (counted_over d) r (grown t)).0
    unfolding submit_tx
    submit_tx-admits t e = elim (Res-cases (admit (counted_over d) r (grown t)).0) [
      | inl (a, f) ↦ ground (arith, e, f)
      | inr (x, f) ↦ ground (arith, e, f)
    ]

    -- Where the values of a submit meet the CHECKs, its identifier is fresh and no generation holds its
    -- key: the transaction of the submit succeeds exactly when the summary of the same owner, purpose
    -- and windows, read just before over the same tables, shows fewer generations in flight than the cap
    -- on concurrency, and in each window of the caps fewer tokens than each limit that it sets.
    pub submit_tx-summary :
        (purposes : List String) (validate : UsageSummaryRequest → Option Err) (t u : Tables)
        (s : UsageSummaryResult)
        → checks (new_row submitted t.clock) ≡ true
        → has_id submitted.id t.generations ≡ false
        → find (replays submitted.request_key) t.generations ≡ none
        → exec (summary_over purposes validate) asked t ≡ (ok s, u)
        → is_ok (submit_tx (counted_over d) r submitted t).0.1 ≡ (
            one_more_fits (caps_of r.caps).concurrency s.live
            && all_below (caps_of r.caps).windows s.windows)
    submit_tx-summary purposes validate t u s valid fresh free e =
        let (live, windows) = exec-summary purposes validate t u s e in
        let created = (submit-creates submitted t valid fresh free).0 in
        submit_tx-admits t created
        ∙ admit-fits (grown t)
        ∙ ground (
          arith,
          live,
          windows,
          live_of-grown t,
          all_below-reported (total_at t) (caps_of r.caps).windows,
        )
