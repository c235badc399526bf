-- ===== src/Core/Check/Recorded.antt =====
-- What a commit of internal/core/generationCheck.go is to record, row by row.
use service_genai.Prelude.{
  ℕ, String, ◌≡◌, refl, Bool, ◌&&◌, Option, none, some, List, arith, ◌==◌, any, ◌+◌, ◌∷◌, str_eq,
  if◌then◌else◌,
}
use mathlib.Core.Option
use service_genai.Errors.{Bytes}
use service_genai.Action.{Res, ok, err}
use service_genai.Connectors.{Call, Usage}
use service_genai.Dao.Rows.{
  Generation, GenerationStatus, GenerationFailure, GenerationAttempt, GenerationUsage, Tables,
}
use service_genai.Dao.Lifecycle.{settle_set}
use service_genai.Dao.Records.{usage_row}
use service_genai.Dao.Consistency.{row_of}
use service_genai.Core.Check.Commit.{settle_request, usage_request}

abbrev pub has_usage : ℕ → List GenerationUsage → Bool
has_usage id = any (λ u. u.generation_id == id && u.attempt == 1)

abbrev unknown_since : Option GenerationFailure → ℕ → Option ℕ
unknown_since (some GenerationFailure.outcome_unknown) at = some at
unknown_since _ at = none

-- The row that a settle leaves: the columns that it writes, over those of the row as it stood.
abbrev pub settled_row :
    ℕ → ℕ → GenerationStatus → Option String → Option GenerationFailure → Generation → Generation
settled_row retention at status message class old = record old {
  status = status;
  error = message;
  failure = class;
  settled_at = some at;
  expires_at = some (at + retention);
  outcome_unknown_at = unknown_since class at;
  updated_at = at;
}

-- The row of an answer.
abbrev pub answer_row : Generation → Bytes → ℕ → GenerationAttempt
answer_row g body at = record {
  generation_id = g.id;
  attempt = 1;
  response = body;
  created_at = at;
}

abbrev tier_of : String → Option String
tier_of tier = if str_eq tier "" then none else some tier

-- When a call started: as the provider says, or else as the intent does.
abbrev start_of : Option ℕ → Option ℕ → ℕ
start_of (some at) intent = at
start_of none (some at) = at
start_of none none = 0

-- The row of the usage of a call.
abbrev pub metered_row : Generation → Call → Usage → ℕ → GenerationUsage
metered_row g call u at = record {
  generation_id = g.id;
  attempt = 1;
  owner_id = g.owner_id;
  purpose = g.purpose;
  provider = g.provider;
  model = call.model;
  class = call.class;
  tier = tier_of call.tier;
  input_tokens = u.input_tokens;
  cached_input_tokens = u.cached_input_tokens;
  cache_write_tokens = u.cache_write_tokens;
  output_tokens = u.output_tokens;
  reasoning_tokens = u.reasoning_tokens;
  started_at = start_of call.started_at g.start_requested_at;
  completed_at = call.completed_at;
  created_at = at;
}

-- The answers with that of a call, when there is one.
abbrev pub answers : Generation → Option Bytes → Tables → List GenerationAttempt
answers g none t = t.attempts
answers g (some body) t = answer_row g body t.clock ∷ t.attempts

-- The usage with that of a call, when the provider reported it and none was recorded before.
abbrev pub metered : Generation → Call → Option Usage → Tables → List GenerationUsage
metered g call none t = t.usage
metered g call (some u) t =
    if has_usage g.id t.usage then t.usage else metered_row g call u t.clock ∷ t.usage

-- What a commit has done: nothing, or the row with its outcome, the answer and the usage of the call.
abbrev pub Recorded :
    ℕ
    → Generation
    → GenerationStatus
    → Option String
    → Option GenerationFailure
    → Call
    → Tables
    → Res Generation × Tables
    → Type 0
Recorded retention g status message class call t (err e, t') = t' ≡ t
Recorded retention g status message class call t (ok settled, t') =
    (Option.map (settled_row retention t.clock status message class) (row_of g.id t.generations)
      ≡ some settled)
    × (row_of g.id t'.generations ≡ some settled)
    × (t'.attempts ≡ answers g call.response t)
    × (t'.usage ≡ metered g call call.usage t)

-- The request of a commit sets the columns as written out above.
settle_set-settled_row :
    (retention at : ℕ) (g old : Generation) (status : GenerationStatus) (message : Option String)
    (class : Option GenerationFailure)
    → settle_set (settle_request retention g status message class) at old
      ≡ settled_row retention at status message class old
unfolding settle_set settle_request
settle_set-settled_row retention at g old status message class = ground arith

pub map-settle_set :
    (retention at : ℕ) (g : Generation) (old : Option Generation) (status : GenerationStatus)
    (message : Option String) (class : Option GenerationFailure)
    → Option.map (settle_set (settle_request retention g status message class) at) old
      ≡ Option.map (settled_row retention at status message class) old
map-settle_set retention at g none status message class = refl
map-settle_set retention at g (some old) status message class =
    rw (settle_set-settled_row retention at g old status message class) refl

pub usage_row-metered_row :
    (g : Generation) (call : Call) (u : Usage) (at : ℕ)
    → usage_row (usage_request g call u) at ≡ metered_row g call u at
unfolding usage_request
usage_row-metered_row g call u at = ground arith

pub answers-same :
    (g : Generation) (response : Option Bytes) (t u : Tables)
    → u.attempts ≡ t.attempts
    → u.clock ≡ t.clock
    → answers g response u ≡ answers g response t
answers-same g response t u a c = ground (arith, a, c)

pub metered-same :
    (g : Generation) (call : Call) (usage : Option Usage) (t u : Tables)
    → u.usage ≡ t.usage
    → u.clock ≡ t.clock
    → metered g call usage u ≡ metered g call usage t
metered-same g call none t u a c = a
metered-same g call (some x) t u a c = rw (a, c) refl
