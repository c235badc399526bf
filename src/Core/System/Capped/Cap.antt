-- ===== src/Core/System/Capped/Cap.antt =====
-- The count of admission for one owner and purpose, and what the statements do to it.
use service_genai.Prelude.{ℕ, ◌≤◌, ◌≡◌, String, true, ◌&&◌, some, arith, ◌==◌, str_eq}
use service_genai.Dao.Rows.{Tables}
use service_genai.Dao.Reads.{
  GenerationGetRequest, GenerationSweepRequest, GenerationCountLiveRequest, get, attempt_list,
  sweep,
}
use service_genai.Dao.Records.{
  attempt_insert, usage_insert, attempt_statement, usage_statement, GenerationAttemptInsertRequest,
  GenerationUsageInsertRequest,
}
use service_genai.Dao.Lifecycle.{record_provider_call, settle}
use service_genai.Dao.InFlight.{in_flight, in_flight-settle, in_flight-record}
use service_genai.Core.Check.Reach.Tables.{IsStated}
use service_genai.Core.Submit.Request.{GenerationSubmitRequest}
use service_genai.Core.Submit.Admit.{caps_of, unknown_outcome_hold}
use service_genai.Core.System.Along.{IsOrder, Runs}

-- The count that admission makes for an owner and a purpose.
abbrev pub quota : ℕ → String → GenerationCountLiveRequest
quota owner_id purpose = record {
  owner_id = owner_id;
  purpose = purpose;
  unknown_outcome_window = unknown_outcome_hold;
}

module _ (owner_id : ℕ) (purpose : String) (cap : ℕ) where
  -- At most `cap` generations of the owner are in flight for the purpose.
  abbrev pub IsWithin : Tables → Type 0
  IsWithin t = in_flight (quota owner_id purpose) t ≤ cap

  abbrev pub Keeps : Tables → Tables → Type 0
  Keeps t u = IsWithin t → IsWithin u

  pub fewer-Keeps :
      (t u : Tables)
      → in_flight (quota owner_id purpose) u ≤ in_flight (quota owner_id purpose) t
      → Keeps t u
  fewer-Keeps t u h p = omega (arith, h, p)

  pub Keeps-IsOrder : IsOrder Keeps
  Keeps-IsOrder = record { stays = λ t p. p; goes_on = λ p q r. q (p r) }

  attempt-Keeps : (r : GenerationAttemptInsertRequest) (t : Tables) → Keeps t (attempt_insert r t).1
  unfolding attempt_insert attempt_statement
  attempt-Keeps r t p = ground (arith, p)

  usage-Keeps : (r : GenerationUsageInsertRequest) (t : Tables) → Keeps t (usage_insert r t).1
  unfolding usage_insert usage_statement
  usage-Keeps r t p = ground (arith, p)

  pub Keeps-IsStated : IsStated Keeps
  Keeps-IsStated = record {
    stays = λ t p. p;
    goes_on = λ p q r. q (p r);
    records = λ r t.
        fewer-Keeps t (record_provider_call r t).1 (in_flight-record (quota owner_id purpose) r t);
    settles = λ r t. fewer-Keeps t (settle r t).1 (in_flight-settle (quota owner_id purpose) r t);
    attempts = attempt-Keeps;
    usages = usage-Keeps;
  }

  pub get-Keeps : (r : GenerationGetRequest) → Runs Keeps (get r)
  unfolding get
  get-Keeps r t p = p

  pub list-Keeps : (id : ℕ) → Runs Keeps (attempt_list id)
  unfolding attempt_list
  list-Keeps id t p = p

  pub sweep-Keeps : (r : GenerationSweepRequest) → Runs Keeps (sweep r)
  unfolding sweep
  sweep-Keeps r t p = p

  -- A submit of the owner for the purpose sends a concurrency of at most `cap`.
  abbrev pub IsCapped : GenerationSubmitRequest → Type 0
  IsCapped r =
      (r.owner_id == owner_id && str_eq r.purpose purpose) ≡ true
      → (n : ℕ) × ((caps_of r.caps).concurrency ≡ some n) × (n ≤ cap)
