-- ===== src/Core/System/Sent.antt =====
-- The tables, a count of the starts that providers were asked for, and a log of the generations whose
-- check was given a start.
use service_genai.Prelude.{
  suc, ◌≤◌, length, ap, arith, ==_iff, Bool-cases, inl, inr, subst, ℕ, ◌≡◌, refl, Bool, true, false,
  Option, none, some, List, [], ◌∷◌, ◌==◌, any, All,
}
use service_genai.Errors.{Err}
use service_genai.Action.{Action}
use service_genai.Dao.Rows
use service_genai.Dao.Rows.{Tables}
use service_genai.Dao.Lifecycle.{request_cancel}
use service_genai.Dao.Reads.{get, attempt_list, sweep, usage_sum, count_live}
use service_genai.Dao.Submit.{submit}
use service_genai.Dao.Consistency.{has_id}
use service_genai.Dao.Steps.{Reach, here}
use service_genai.Dao.Kept.{Reach-has_id}
use service_genai.Core.Check.Deps.{CheckRequest, CheckStart}
use service_genai.Core.Check.Reach.Tables.{Reach-trans}
use service_genai.Core.Get.{GetDeps}
use service_genai.Core.Get
use service_genai.Core.Cancel.{CancelDeps}
use service_genai.Core.Cancel
use service_genai.Core.Submit.Request.{SubmitDeps}
use service_genai.Core.Sweep.{SweepDeps}
use service_genai.Core.System.Along.{IsOrder, Runs}

pub record World : Type 0 where
  pub tables : Tables
  pub starts : ℕ
  pub sent : List ℕ

-- What a check runs on: the count, and the tables.
abbrev pub Counted : Type 0
Counted = ℕ × Tables

-- A check runs statements, and asks a provider for one start at most, and for none without a start.
pub record IsPriced (check : CheckRequest → Action Counted Rows.Generation) : Type 0 where
  pub runs : (r : CheckRequest) (s : Counted) → Reach s.1 (check r s).1.1
  pub free :
      (g : Rows.Generation) (s : Counted)
      → (check (record { generation = g; start = none }) s).1.0 ≡ s.0
  pub one : (r : CheckRequest) (s : Counted) → (check r s).1.0 ≤ suc s.0

-- The log after a check.
abbrev pub logged : Option CheckStart → ℕ → List ℕ → List ℕ
logged none id sent = sent
logged (some st) id sent = id ∷ sent

abbrev pub on_tables : {A : Type 0} → Action Tables A → Action World A
on_tables m w = let (r, t) = m w.tables in (r, record w { tables = t })

abbrev pub has_sent : ℕ → List ℕ → Bool
has_sent id = any (λ n. n == id)

-- No generation twice.
abbrev pub Distinct : List ℕ → Type 0
Distinct [] = Unit
Distinct (n ∷ ns) = (has_sent n ns ≡ false) × Distinct ns

abbrev pub InTable : Tables → ℕ → Type 0
InTable t id = has_id id t.generations ≡ true

-- Each generation was given one start at most, and has its row, and the providers were asked for at most
-- as many.
pub record IsPaidOnce (w : World) : Type 0 where
  pub once : Distinct w.sent
  pub rows : All (InTable w.tables) w.sent
  pub paid : w.starts ≤ length w.sent

-- Statements, and no start.
pub record Quiet (w v : World) : Type 0 where
  pub runs : Reach w.tables v.tables
  pub same_sent : v.sent ≡ w.sent
  pub same_starts : v.starts ≡ w.starts

pub Quiet-IsOrder : IsOrder Quiet
Quiet-IsOrder = record {
  stays = λ w. record { runs = here; same_sent = refl; same_starts = refl };
  goes_on = λ p q. record {
    runs = Reach-trans p.runs q.runs;
    same_sent = cc (p.same_sent, q.same_sent);
    same_starts = cc (p.same_starts, q.same_starts);
  };
}

rows-later : {t u : Tables} (ids : List ℕ) → Reach t u → All (InTable t) ids → All (InTable u) ids
rows-later [] r a = tt
rows-later (id ∷ ids) r a = (Reach-has_id id r a.0, rows-later ids r a.1)

pub Quiet-IsPaidOnce : {w v : World} → Quiet w v → IsPaidOnce w → IsPaidOnce v
Quiet-IsPaidOnce {w} {v} q p = record {
  once = rw q.same_sent p.once;
  rows = rw q.same_sent (rows-later w.sent q.runs p.rows);
  paid = rw (q.same_sent, q.same_starts) p.paid;
}

unsent_lem :
    (t : Tables) (id : ℕ) (ids : List ℕ)
    → has_id id t.generations ≡ false
    → All (InTable t) ids
    → has_sent id ids ≡ false
unsent_lem t id [] e a = refl
unsent_lem t id (n ∷ ns) e a = elim (Bool-cases (n == id)) [
  | inl same ↦ let there = a.0 in absurd (cc (e, subst (InTable t) ((==_iff n id).0 same) there))
  | inr other ↦ rw other (unsent_lem t id ns e a.1)
]

-- A start for a generation that had no row before, and has one now.
pub sent-IsPaidOnce :
    {w v : World} (id : ℕ)
    → Reach w.tables v.tables
    → v.sent ≡ id ∷ w.sent
    → v.starts ≤ suc w.starts
    → has_id id w.tables.generations ≡ false
    → has_id id v.tables.generations ≡ true
    → IsPaidOnce w
    → IsPaidOnce v
sent-IsPaidOnce {w} {v} id r same one fresh there p = record {
  once = rw same (unsent_lem w.tables id w.sent fresh p.rows, p.once);
  rows = rw same (there, rows-later w.sent r p.rows);
  paid = omega (arith, one, p.paid, ap length same);
}

-- A check over the tables, which every service shares.
module _ (check : CheckRequest → Action Counted Rows.Generation) where
  unfoldable pub check_sent : CheckRequest → Action World Rows.Generation
  check_sent r w =
      let (g, (n, t)) = check r (w.starts, w.tables) in
      (g, record { tables = t; starts = n; sent = logged r.start r.generation.id w.sent })

  pub check_sent-Quiet :
      IsPriced check
      → (g : Rows.Generation) → Runs Quiet (check_sent (record { generation = g; start = none }))
  unfolding check_sent
  check_sent-Quiet priced g w = record {
    runs = priced.runs (record { generation = g; start = none }) (w.starts, w.tables);
    same_sent = refl;
    same_starts = priced.free g (w.starts, w.tables);
  }

  abbrev pub get_sent : (Get.GenerationGetRequest → Option Err) → GetDeps World
  get_sent validate = record {
    dao = λ r. on_tables (get r);
    dao_attempt_list = λ id. on_tables (attempt_list id);
    service_check = check_sent;
    validate = validate;
  }

  abbrev pub cancel_sent : (Cancel.GenerationCancelRequest → Option Err) → ℕ → CancelDeps World
  cancel_sent validate retention = record {
    dao = λ r. on_tables (request_cancel r);
    dao_get = λ r. on_tables (get r);
    dao_attempt_list = λ id. on_tables (attempt_list id);
    service_check = check_sent;
    retention = retention;
    validate = validate;
  }

  abbrev pub sweep_sent : {L : Type 0} → SweepDeps World L → SweepDeps World L
  sweep_sent d = record d {
    dao = λ r. on_tables (sweep r);
    service_check = λ r w. (check_sent r w).1;
  }

  abbrev pub submit_sent : {St : Type 0} → SubmitDeps World St → SubmitDeps World St
  submit_sent d = record d {
    dao = λ r. on_tables (submit r);
    dao_attempt_list = λ id. on_tables (attempt_list id);
    dao_usage_sum = λ r. on_tables (usage_sum r);
    dao_count_live = λ r. on_tables (count_live r);
    service_check = check_sent;
  }
