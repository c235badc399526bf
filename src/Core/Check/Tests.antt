-- ===== src/Core/Check/Tests.antt =====
-- The theorems of a check at concrete tables, calls and answers of the provider.
use service_genai.Prelude.{
  ◌+◌, ◌<◌, ◌≡◌, ◌≢◌, inl, refl, String, Bool, true, false, none, some, [], ◌∷◌, arith, ltb,
  if◌then◌else◌,
}
use service_genai.Prelude.Int.{pos}
use service_genai.Errors.{plain}
use service_genai.Action.{Action, ok, err}
use service_genai.Connectors.{AsyncStartRequest, Call}
use service_genai.Connectors.OpenAi.Classify.{HttpError}
use service_genai.Connectors.OpenAi.Operations as OpenAi
use service_genai.Connectors.OpenAi.Operations.{Client, broken}
use service_genai.Dao.Rows.{Generation, GenerationStatus, Tables}
use service_genai.Dao.Lifecycle
use service_genai.Dao.Lifecycle.{record_provider_call, update, update_rows}
use service_genai.Core.Check.Outcome.{record_pause, record_patience, persistence_timeout}
use service_genai.Core.Check.Commit.{commit, commit_tx, settle, settle_request, settle_failure}
use service_genai.Core.Check.Observe.{ask, stop_since, observe_call}
use service_genai.Core.Check.RecordCall.{exhausted, record_loop}
use service_genai.Core.Check.Start.{record_rounds, resolve_start}
use service_genai.Core.Check.Stops.{IsSound, Decided, old_call_settles, young_call_runs}
use service_genai.Core.Check.Writes.{IsMonotonic, record_loop_ends, writes_before_unknown}
use service_genai.Core.Check.Accepted.{Accepts, settle-Accepts}
use service_genai.Core.Check.Recorded.{Recorded}
use service_genai.Core.Check.Atomic.{commit-Recorded}
use service_genai.Core.Check.Classes.{IsForeign, Tells, may_run, start-Tells}
use service_genai.Core.Check.Scenario.{
  running_row, tables, running-IsConsistent, within_tx, rolled_back-Commits, registry, wait, deps,
  answer, stubborn, old_row,
}

-- An answer with its usage.
abbrev metered_answer : Call
metered_answer = record answer {
  model = "gpt-5";
  class = "low";
  usage = some (record {
    input_tokens = pos 30;
    cached_input_tokens = pos 10;
    cache_write_tokens = pos 0;
    output_tokens = pos 20;
    reasoning_tokens = pos 5;
  });
}

commit-Recorded_example :
    Recorded 1000 running_row GenerationStatus.succeeded none none metered_answer tables
      (commit deps running_row GenerationStatus.succeeded none none metered_answer tables)
commit-Recorded_example =
    commit-Recorded within_tx registry (λ t. t.clock) wait 1000 (λ f t. rolled_back-Commits t (f t))
      running_row GenerationStatus.succeeded none none metered_answer tables running-IsConsistent

abbrev writes : Action Tables Generation
writes = record_provider_call (record { id = 1; provider_call_id = "resp_1" })

update-clock :
    (match : Generation → Bool) (change : Generation → Generation) (t : Tables)
    → (update match change t).1.clock ≡ t.clock
unfolding update
update-clock match change t = ground arith

writes-IsMonotonic : IsMonotonic deps writes
unfolding record_provider_call
writes-IsMonotonic = record {
  waits = λ pause s e. omega arith;
  moves = λ s. grind (arith, update-clock);
}

record_loop_ends_example :
    (record_loop deps record_rounds writes
      (90 + record_patience)
      record_pause
      (err (plain "refused"))
      tables).0
    ≢ exhausted
record_loop_ends_example =
    record_loop_ends deps writes writes-IsMonotonic 90 (err (plain "refused")) tables (omega arith)

-- Three minutes after a start without a call.
abbrev unstarted_row : Generation
unstarted_row = record running_row {
  start_requested_at = some 95;
  provider_call_id = none;
  read_at = 180000000095;
}

-- A write that fails from four seconds before that read on.
abbrev late_writes : Action Tables Generation
late_writes t =
    if ltb (t.clock + persistence_timeout) 180000000095
    then writes t
    else (err (plain "too late"), t)

late_writes-agree :
    (t : Tables) → t.clock + persistence_timeout < 180000000095 → writes t ≡ late_writes t
late_writes-agree t h = ground arith

-- No generation is in the tables, so the settle fails.
abbrev emptied : Tables
emptied = record tables { generations = [] }

emptied-not_left : resolve_start deps unstarted_row emptied ≢ (ok unstarted_row, emptied)
unfolding resolve_start settle_failure commit commit_tx Lifecycle.settle settle_request update
    update_rows
emptied-not_left e = absurd (cc e)

writes_before_unknown_example :
    record_loop deps record_rounds writes
      (90 + record_patience)
      record_pause
      (err (plain "refused"))
      tables
    ≡ record_loop deps record_rounds late_writes
        (90 + record_patience)
        record_pause
        (err (plain "refused"))
        tables
writes_before_unknown_example =
    writes_before_unknown deps 0 (λ pause t e. omega arith) writes late_writes record_rounds
      record_pause 90 95 unstarted_row (err (plain "refused")) tables emptied (omega arith) refl
      (omega arith) emptied-not_left late_writes-agree

stubborn-IsSound : IsSound stubborn
stubborn-IsSound = record { gets = λ id t c. c; cancels = λ id t c. c }

old_call_settles_example : Decided 1 tables (observe_call deps stubborn old_row tables)
unfolding ask stop_since
old_call_settles_example =
    old_call_settles within_tx registry (λ t. t.clock) wait 1000
      (λ f t. rolled_back-Commits t (f t)) stubborn old_row 50 "resp_1" tables stubborn-IsSound
      running-IsConsistent refl refl (omega arith)

abbrev refusing_cancel : String → Action Tables Call
refusing_cancel id t = (err (plain "refused"), t)

young_call_runs_example :
    observe_call deps (record stubborn { cancel = refusing_cancel }) running_row tables
    ≡ observe_call deps stubborn running_row tables
young_call_runs_example =
    young_call_runs deps stubborn running_row 50 "resp_1" tables refusing_cancel refl refl refl
      (omega arith) (inl refl)

settle-Accepts_example : Accepts deps running_row answer (settle deps running_row answer tables)
settle-Accepts_example = settle-Accepts deps running_row answer tables

abbrev lost : HttpError
lost = record { cause = plain "unexpected EOF"; api = none; oversized = false }

-- A client whose posts go unanswered though they fully left.
abbrev silent : Client (Unit {0})
silent = record {
  post = λ body s. ((broken lost, true), s);
  post_stream = λ body s. ((broken lost, true), s);
  read = λ id s. (broken lost, s);
  post_cancel = λ id s. (broken lost, s);
  decode = λ raw. err (plain "unexpected end of JSON input");
  decode_fields = λ raw. ok [];
  encode = λ fields. ok (123 ∷ 125 ∷ []);
}

silent-IsForeign : IsForeign silent
silent-IsForeign = record {
  posts = λ body s. (refl, refl);
  streams = λ body s. (refl, refl);
  decodes = λ raw. (refl, refl);
  opens = λ raw. tt;
  encodes = λ fields. tt;
}

abbrev posted_request : AsyncStartRequest (Bool × Unit {0})
posted_request = record {
  payload = 123 ∷ 125 ∷ [];
  stream = false;
  accepted = λ call t. (ok tt, t);
}

start-Tells_example :
    Tells (may_run silent posted_request tt) (OpenAi.start silent posted_request (false, tt))
start-Tells_example = start-Tells silent silent-IsForeign posted_request false tt (λ call t. tt)
