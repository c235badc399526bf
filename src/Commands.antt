-- ===== src/Commands.antt =====
-- What the commands do beside wiring: `sweepRun` of cmd/sweep/main.go and the gate of `newServer` of
-- cmd/grpc/main.go. The services over the tables are in Core.System and Core.Usage.Room.
use service_genai.Prelude.{ℕ, String, Bool, false, Option, if◌then◌else◌}
use service_genai.Errors.{prefixed}
use service_genai.Action.{Action, Res, ok, err}
use service_genai.Handlers.Status.{service_token}

abbrev not_again : {S : Type 0} → Res ℕ × S → Res Bool × S
not_again (ok checked, s) = (ok false, s)
not_again (err e, s) = (err e, s)

-- `sweepRun`, given whether a planned downtime has started: the run asks for no rerun.
unfoldable pub sweep_run : {S : Type 0} → (S → Bool) → Action S ℕ → Action S Bool
sweep_run downtime_started service s =
    if downtime_started s then (ok false, s) else not_again (service s)

-- `newServer`, up to grpcf: the server has its gate, or does not start.
unfoldable pub new_server :
    {Server : Type 0} → String → Bool → (Option String → Server) → Res Server
new_server issuer issuer_optional serve = elim (service_token issuer issuer_optional) [
  | err e ↦ err (prefixed "service token gate: " e)
  | ok gate ↦ ok (serve gate)
]
