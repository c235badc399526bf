-- ===== src/Config/Tests.antt =====
-- The theorems of internal/config at concrete settings.
use service_genai.Prelude.{String, str_eq, true, if◌then◌else◌, [], ◌∷◌, refl, ◌≡◌, ◌↔◌, none}
use service_genai.Action.{ok, err}
use service_genai.Config.Env.{Loader, Libraries, read_env, get_env}
use service_genai.Config.Preset.{IsLoader, app_preset_default, app_preset_default-valid}
use service_genai.Prelude.Int.{pos, ◌≤ℤ◌, ◌+ℤ◌}
use service_genai.Config.{
  App, validate, sweep_concurrency, unknown_outcome_hold, sweep_interval_ceiling,
}
use service_genai.Config.Bounds.{validate-none, sweep_concurrency_bounds}

-- A retention of 30 days, and a sweep every 10 seconds.
abbrev app : App
app = record {
  retention = pos 2592000000000000;
  sweep_interval = pos 10000000000;
  sweep_batch_size = pos 100;
  sweep_concurrency = pos 8;
}

validate-none_example : (validate app ≡ none) ↔ (
    (unknown_outcome_hold ≤ℤ app.retention)
    × (pos 1 ≤ℤ app.sweep_interval)
    × (app.sweep_interval ≤ℤ sweep_interval_ceiling)
    × (pos 1 ≤ℤ app.sweep_batch_size)
    × (app.sweep_batch_size ≤ℤ pos 100)
    × (pos 1 ≤ℤ app.sweep_concurrency))
validate-none_example = validate-none app

sweep_concurrency_bounds_example :
    (pos 1 ≤ℤ sweep_concurrency (pos 5))
    × (sweep_concurrency (pos 5) ≤ℤ pos 8)
    × (pos 2 ≤ℤ pos 5 → sweep_concurrency (pos 5) +ℤ pos 1 ≤ℤ pos 5)
sweep_concurrency_bounds_example = sweep_concurrency_bounds (pos 5)

-- LoadEnv where every set variable parses, as those of the environment below do, and parsers of one
-- answer each. A value that does not parse would stop the start; the default stands for it.
abbrev loader : Loader
loader = record {
  load_env = λ value default parse.
      if str_eq value "" then default else elim (parse value) [ ok a ↦ a | err e ↦ default ];
  atoi = λ text. ok (pos 5);
  parse_bool = λ text. ok true;
  parse_duration = λ text. ok (pos 60000000000);
  parse_start = λ text. ok none;
  string_parser = λ text. ok text;
  slice_parser = λ text. ok (text ∷ []);
}

abbrev libraries : Libraries (Unit {0}) (Unit {0})
libraries = record {
  loader = loader;
  http_default = record {
    port = pos 8080;
    shutdown_timeout = pos 0;
    request_timeout = pos 0;
    write_timeout = pos 0;
    allowed_methods = [];
    liveness = "/ping";
    others = tt;
  };
  grpc_default = record { shutdown_timeout = pos 0; max_concurrent_calls = pos 0; others = tt };
  load_http = λ get defaults. defaults;
  load_grpc = λ get defaults. defaults;
}

-- An environment that sets the size of the pool and nothing else.
abbrev environment : String → String
environment name = if str_eq name "POSTGRES_MAX_OPEN_CONNS" then "5" else ""

loader-IsLoader : IsLoader loader
loader-IsLoader = record { unset = λ default parse. refl }

app_preset_default-valid_example :
    validate (app_preset_default [] (read_env libraries environment)).validated ≡ none
unfolding get_env
app_preset_default-valid_example =
    app_preset_default-valid libraries loader-IsLoader environment [] refl refl refl
