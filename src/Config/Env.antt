-- ===== src/Config/Env.antt =====
-- The package internal/config/env: the settings as the environment gives them, with golib's LoadEnv, its
-- server configurations and the parsers as parameters.
use service_genai.Prelude.{ℕ, String, concat, Bool, true, false, Option, none, List, [], ◌∷◌}
use service_genai.Prelude.Int.{ℤ, pos}
use service_genai.Action.{Res}

-- `config.LoadEnv` of golib, and the parsers of a value. In the source a set variable that does not
-- parse stops the start; here `load_env` has a value, so the environments are those whose set
-- variables parse.
pub record Loader : Type 1 where
  pub load_env : {A : Type 0} → String → A → (String → Res A) → A
  pub atoi : String → Res ℤ
  pub parse_bool : String → Res Bool
  pub parse_duration : String → Res ℤ
  pub parse_start : String → Res (Option ℕ)
  pub string_parser : String → Res String
  pub slice_parser : String → Res (List String)

-- `httpf.ServerConfig` and `grpcf.ServerConfig`: the fields that the source sets or reads, and the rest.
pub record HttpConfig (Rest : Type 0) : Type 0 where
  pub port : ℤ
  pub shutdown_timeout : ℤ
  pub request_timeout : ℤ
  pub write_timeout : ℤ
  pub allowed_methods : List String
  pub liveness : String
  pub others : Rest

pub record GrpcConfig (Rest : Type 0) : Type 0 where
  pub shutdown_timeout : ℤ
  pub max_concurrent_calls : ℤ
  pub others : Rest

-- The defaults, durations in nanoseconds; a write has 15 seconds more than a request.
abbrev pub app_name_default : String
app_name_default = "service-genai"

abbrev pub timeout_shutdown_default : ℤ
timeout_shutdown_default = pos 6000000000

abbrev pub max_concurrent_calls_default : ℤ
max_concurrent_calls_default = pos 20

abbrev pub metrics_port_default : ℤ
metrics_port_default = pos 9090

abbrev pub timeout_request_default : ℤ
timeout_request_default = pos 120000000000

abbrev pub timeout_write_default : ℤ
timeout_write_default = pos 135000000000

abbrev pub open_ai_base_url_default : String
open_ai_base_url_default = "https://api.openai.com/v1/"

abbrev pub retention_default : ℤ
retention_default = pos 21600000000000

abbrev pub sweep_interval_default : ℤ
sweep_interval_default = pos 60000000000

abbrev pub sweep_batch_size_default : ℤ
sweep_batch_size_default = pos 50

abbrev pub postgres_max_open_conns_default : ℤ
postgres_max_open_conns_default = pos 20

abbrev pub postgres_max_idle_conns_default : ℤ
postgres_max_idle_conns_default = pos 20

abbrev pub postgres_port_default : ℤ
postgres_port_default = pos 5432

abbrev pub postgres_tls_enabled_default : Bool
postgres_tls_enabled_default = true

-- The variables of the package.
pub record Env (Http Grpc : Type 0) : Type 0 where
  pub postgres_dsn : String
  pub postgres_host : String
  pub postgres_port : ℤ
  pub postgres_user : String
  pub postgres_password : String
  pub postgres_database : String
  pub postgres_tls_enabled : Bool
  pub postgres_max_open_conns : ℤ
  pub postgres_max_idle_conns : ℤ
  pub app_name : String
  pub otel : Bool
  pub grpc_url : String
  pub rest : HttpConfig Http
  pub grpc : GrpcConfig Grpc
  pub metrics : HttpConfig Http
  pub service_token_issuer : String
  pub service_token_audience : String
  pub service_token_callers : List String
  pub service_issuer_optional : Bool
  pub open_ai_api_key : String
  pub open_ai_base_url : String
  pub retention : ℤ
  pub sweep_interval : ℤ
  pub sweep_batch_size : ℤ
  pub sweep_ticker : Bool
  pub otlp_endpoint : String
  pub downtime_start : Option ℕ

-- What the libraries give beside the parsers: their default configurations, and how they read theirs.
pub record Libraries (Http Grpc : Type 0) : Type 1 where
  pub loader : Loader
  pub http_default : HttpConfig Http
  pub grpc_default : GrpcConfig Grpc
  pub load_http : (String → String) → HttpConfig Http → HttpConfig Http
  pub load_grpc : (String → String) → GrpcConfig Grpc → GrpcConfig Grpc

-- `getEnv`, over `os.Getenv`.
unfoldable pub get_env : (String → String) → String → String
get_env getenv name = getenv (concat (getenv "SERVICE_GENAI_ENV_PREFIX") name)

module _ {Http Grpc : Type 0} (l : Libraries Http Grpc) where
  unfoldable pub rest_defaults : HttpConfig Http
  rest_defaults = record (l.http_default) {
    shutdown_timeout = timeout_shutdown_default;
    request_timeout = timeout_request_default;
    write_timeout = timeout_write_default;
    allowed_methods = "HEAD" ∷ "GET" ∷ "POST" ∷ [];
  }

  unfoldable pub grpc_defaults : GrpcConfig Grpc
  grpc_defaults = record (l.grpc_default) {
    shutdown_timeout = timeout_shutdown_default;
    max_concurrent_calls = max_concurrent_calls_default;
  }

  unfoldable pub metrics_config : (String → String) → HttpConfig Http
  metrics_config get = record (l.http_default) {
    port = l.loader.load_env (get "METRICS_PORT") metrics_port_default l.loader.atoi;
    shutdown_timeout = timeout_shutdown_default;
  }

  -- The values of the package's variables, over `os.Getenv`.
  unfoldable pub read_env : (String → String) → Env Http Grpc
  read_env getenv =
      let get = get_env getenv in
      let load_int : String → ℤ → ℤ =
        λ name default. l.loader.load_env (get name) default l.loader.atoi in
      let load_bool : String → Bool → Bool =
        λ name default. l.loader.load_env (get name) default l.loader.parse_bool in
      let load_text : String → String → String =
        λ name default. l.loader.load_env (get name) default l.loader.string_parser in
      let load_duration : String → ℤ → ℤ =
        λ name default. l.loader.load_env (get name) default l.loader.parse_duration in
      record {
        postgres_dsn = get "POSTGRES_DSN";
        postgres_host = get "POSTGRES_HOST";
        postgres_port = load_int "POSTGRES_PORT" postgres_port_default;
        postgres_user = get "POSTGRES_USER";
        postgres_password = get "POSTGRES_PASSWORD";
        postgres_database = get "POSTGRES_DATABASE";
        postgres_tls_enabled = load_bool "POSTGRES_TLS_ENABLED" postgres_tls_enabled_default;
        postgres_max_open_conns =
            load_int "POSTGRES_MAX_OPEN_CONNS" postgres_max_open_conns_default;
        postgres_max_idle_conns =
            load_int "POSTGRES_MAX_IDLE_CONNS" postgres_max_idle_conns_default;
        app_name = load_text "APP_NAME" app_name_default;
        otel = load_bool "OTEL" false;
        grpc_url = get "GRPC_URL";
        rest = l.load_http get rest_defaults;
        grpc = l.load_grpc get grpc_defaults;
        metrics = metrics_config get;
        service_token_issuer = get "SERVICE_TOKEN_ISSUER";
        service_token_audience = get "SERVICE_TOKEN_AUDIENCE";
        service_token_callers =
            l.loader.load_env (get "SERVICE_TOKEN_CALLERS") [] l.loader.slice_parser;
        service_issuer_optional = load_bool "SERVICE_ISSUER_OPTIONAL" false;
        open_ai_api_key = get "OPENAI_API_KEY";
        open_ai_base_url = load_text "OPENAI_BASE_URL" open_ai_base_url_default;
        retention = load_duration "RETENTION" retention_default;
        sweep_interval = load_duration "SWEEP_INTERVAL" sweep_interval_default;
        sweep_batch_size = load_int "SWEEP_BATCH_SIZE" sweep_batch_size_default;
        sweep_ticker = load_bool "SWEEP_TICKER" false;
        otlp_endpoint = getenv "OTEL_EXPORTER_OTLP_ENDPOINT";
        downtime_start = l.loader.load_env (get "DOWNTIME_START") none l.loader.parse_start;
      }
