-- ===== src/Config/Preset.antt =====
-- `AppPresetDefault` and the values around it in internal/config/app.config.default.go, with
-- `NewPostgresPreset` of postgres.config.default.go up to the driver.
use service_genai.Prelude.{ℕ, ◌≡◌, String, Bool, Option, none, some, List, if◌then◌else◌, arith}
use service_genai.Prelude.Int.{ℤ, pos}
use service_genai.Action.{Res}
use service_genai.Config.{
  App, OtelPreset, validate, sweep_concurrency, exports_otlp, new_otel_preset,
}
use service_genai.Config.Bounds.{validate-none, sweep_concurrency_bounds}
use service_genai.Config.Env.{
  Env, Libraries, Loader, HttpConfig, GrpcConfig, get_env, read_env, retention_default,
  sweep_interval_default, sweep_batch_size_default,
}

-- `OtelFlushTimeout` and `SweepTelemetryTimeout`.
abbrev pub otel_flush_timeout : ℤ
otel_flush_timeout = pos 2000000000

abbrev pub sweep_telemetry_timeout : ℤ
sweep_telemetry_timeout = pos 10000000000

-- Where the service logs: the console, or the backend of OpenTelemetry.
pub data Logs : Type 0 where
  console backend : Logs

-- `postgrespresets.Connection`, and the limits of the pool.
pub record PostgresPreset : Type 0 where
  pub dsn : String
  pub host : String
  pub port : ℤ
  pub user : String
  pub password : String
  pub database : String
  pub tls_enabled : Bool
  pub max_open_conns : ℤ
  pub max_idle_conns : ℤ

-- The rest of `App`, beside the fields that `Validate` reads.
pub record Preset (Http Grpc : Type 0) : Type 0 where
  pub name : String
  pub downtime_start : Option ℕ
  pub grpc : GrpcConfig Grpc
  pub metrics : HttpConfig Http
  pub rest : HttpConfig Http
  pub issuer : String
  pub audience : String
  pub callers : List String
  pub service_issuer_optional : Bool
  pub validated : App
  pub sweep_ticker : Bool
  pub api_key : String
  pub base_url : String
  pub purposes : List String
  pub otel : OtelPreset
  pub logger : Logs
  pub grpc_logger : Logs
  pub rest_logger : Option Logs
  pub postgres : PostgresPreset

module _ {Http Grpc : Type 0} where
  unfoldable pub new_postgres_preset : Env Http Grpc → PostgresPreset
  new_postgres_preset env = record {
    dsn = env.postgres_dsn;
    host = env.postgres_host;
    port = env.postgres_port;
    user = env.postgres_user;
    password = env.postgres_password;
    database = env.postgres_database;
    tls_enabled = env.postgres_tls_enabled;
    max_open_conns = env.postgres_max_open_conns;
    max_idle_conns = env.postgres_max_idle_conns;
  }

  -- `AppPresetDefault`, with the purposes of the embedded file.
  unfoldable pub app_preset_default : List String → Env Http Grpc → Preset Http Grpc
  app_preset_default purposes env =
      let exported = exports_otlp env.otel env.otlp_endpoint in
      record {
        name = env.app_name;
        downtime_start = env.downtime_start;
        grpc = env.grpc;
        metrics = env.metrics;
        rest = env.rest;
        issuer = env.service_token_issuer;
        audience = env.service_token_audience;
        callers = env.service_token_callers;
        service_issuer_optional = env.service_issuer_optional;
        validated = record {
          retention = env.retention;
          sweep_interval = env.sweep_interval;
          sweep_batch_size = env.sweep_batch_size;
          sweep_concurrency = sweep_concurrency env.postgres_max_open_conns;
        };
        sweep_ticker = env.sweep_ticker;
        api_key = env.open_ai_api_key;
        base_url = env.open_ai_base_url;
        purposes = purposes;
        otel = new_otel_preset env.otel env.otlp_endpoint env.rest.liveness;
        logger = if exported then backend else console;
        grpc_logger = if exported then backend else console;
        rest_logger = if exported then none else some console;
        postgres = new_postgres_preset env;
      }

-- An unset or empty variable takes its default, as golib documents.
pub record IsLoader (l : Loader) : Type 1 where
  pub unset :
      {A : Type 0} (default : A) (parse : String → Res A) → l.load_env "" default parse ≡ default

module _ {Http Grpc : Type 0} (l : Libraries Http Grpc) (loads : IsLoader l.loader) where
  -- Where golib gives an unset variable its default, and the environment leaves the retention, the
  -- sweep's interval and its batch size unset, the settings that the service starts with pass
  -- `Validate`, whatever else the environment holds: any pool of connections, any parser's answer.
  pub app_preset_default-valid :
      (getenv : String → String) (purposes : List String)
      → get_env getenv "RETENTION" ≡ ""
      → get_env getenv "SWEEP_INTERVAL" ≡ ""
      → get_env getenv "SWEEP_BATCH_SIZE" ≡ ""
      → validate (app_preset_default purposes (read_env l getenv)).validated ≡ none
  unfolding app_preset_default read_env
  app_preset_default-valid getenv purposes no_retention no_interval no_batch_size =
      let app = (app_preset_default purposes (read_env l getenv)).validated in
      let conns = (read_env l getenv).postgres_max_open_conns in
      let retention : app.retention ≡ retention_default =
        rw no_retention (loads.unset retention_default l.loader.parse_duration) in
      let interval : app.sweep_interval ≡ sweep_interval_default =
        rw no_interval (loads.unset sweep_interval_default l.loader.parse_duration) in
      let batch : app.sweep_batch_size ≡ sweep_batch_size_default =
        rw no_batch_size (loads.unset sweep_batch_size_default l.loader.atoi) in
      (validate-none app).1 (
        ground (arith, retention),
        ground (arith, interval),
        ground (arith, interval),
        ground (arith, batch),
        ground (arith, batch),
        (sweep_concurrency_bounds conns).0,
      )
