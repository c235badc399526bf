-- ===== src/Config.antt =====
-- internal/config: the validation of the configuration and the concurrency of the sweep.
pub mod Bounds
pub mod Env
pub mod Preset
mod Tests
use service_genai.Prelude.{
  ℕ, ◌+◌, Bool, true, false, ◌||◌, ◌&&◌, not, String, str_eq, List, [], ◌∷◌, Option, none, some,
  if◌then◌else◌, min, max,
}
use service_genai.Prelude.Int.{ℤ, pos, negsuc, ltb_ℤ, leb_ℤ, ◌-ℤ◌}
use service_genai.Errors.{Err, sentinel, join, plain, invalid_config}

-- `UnknownOutcomeHold`, 15 minutes, and `SweepIntervalCeiling`, 5 minutes, in nanoseconds.
abbrev pub unknown_outcome_hold : ℤ
unknown_outcome_hold = pos 900000000000

abbrev pub sweep_interval_ceiling : ℤ
sweep_interval_ceiling = pos 300000000000

-- The fields of `App` that `Validate` reads.
pub record App : Type 0 where
  pub retention : ℤ
  pub sweep_interval : ℤ
  pub sweep_batch_size : ℤ
  pub sweep_concurrency : ℤ

abbrev pub config_refusal : Err
config_refusal = sentinel "invalid configuration" invalid_config

-- `App.Validate`
unfoldable pub validate : App → Option Err
validate app =
    if ltb_ℤ app.retention unknown_outcome_hold
    then some config_refusal
    else if leb_ℤ app.sweep_interval (pos 0) || ltb_ℤ sweep_interval_ceiling app.sweep_interval
    then some config_refusal
    else if ltb_ℤ app.sweep_batch_size (pos 1) || ltb_ℤ (pos 100) app.sweep_batch_size
    then some config_refusal
    else if ltb_ℤ app.sweep_concurrency (pos 1)
    then some config_refusal
    else none

abbrev min_ℤ : ℤ → ℤ → ℤ
min_ℤ a b = if leb_ℤ a b then a else b

abbrev max_ℤ : ℤ → ℤ → ℤ
max_ℤ a b = if leb_ℤ a b then b else a

-- `sweepConcurrency`
unfoldable pub sweep_concurrency : ℤ → ℤ
unfolding ◌-ℤ◌
sweep_concurrency max_open_conns =
    if leb_ℤ max_open_conns (pos 0)
    then pos 8
    else max_ℤ (min_ℤ (max_open_conns -ℤ pos 1) (pos 8)) (pos 1)

-- What `newOtelPreset` picks from: nothing exported, standard output, or OTLP with the paths that it
-- does not trace.
pub data OtelPreset : Type 0 where
  disabled standard_output : OtelPreset
  otlp : List String → OtelPreset

-- `exportsOTLP`
unfoldable pub exports_otlp : Bool → String → Bool
exports_otlp otel endpoint = otel && not (str_eq endpoint "")

-- `newOtelPreset`, with the path of the liveness probe.
unfoldable pub new_otel_preset : Bool → String → String → OtelPreset
new_otel_preset otel endpoint liveness =
    if not otel
    then disabled
    else if str_eq endpoint ""
    then standard_output
    else otlp (liveness ∷ [])
