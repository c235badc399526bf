-- ===== src/Handlers/Status.antt =====
-- `GrpcStatus`, `RestHealth`, `RestPing`, `RestGenerationSweep` and `GrpcServiceToken`:
-- grpc.status.go, rest.health.go, rest.ping.go, rest.generationSweep.go and grpc.serviceToken.go.
use service_genai.Prelude.{ℕ, String, Bool, Option, none, some, if◌then◌else◌, str_eq, is_some}
use service_genai.Errors.{Err, plain}
use service_genai.Action.{Action, Res, ok, err}
use service_genai.Core.Queue.{GenerationQueueDepth}
use service_genai.Handlers.{Code, Reply, answered, fault}

abbrev dependencies_unavailable : {A : Type 0} → Err → Reply A
dependencies_unavailable e = fault Code.unavailable "service dependencies unavailable" e

abbrev queue_reply : {S : Type 0} → Res GenerationQueueDepth × S → Reply GenerationQueueDepth × S
queue_reply (ok depth, s) = (answered depth, s)
queue_reply (err e, s) = (dependencies_unavailable e, s)

-- `GrpcStatus.Status`, with the probe of PostgreSQL. A reply reports PostgreSQL up, with the queue.
unfoldable pub grpc_status :
    {S : Type 0}
    → (S → Option Err × S)
    → Action S GenerationQueueDepth
    → S
    → Reply GenerationQueueDepth × S
grpc_status probe service s =
    let (failed, s') = probe s in
    elim failed [ some e ↦ (dependencies_unavailable e, s') | none ↦ queue_reply (service s') ]

-- An answer over HTTP: its status code, and the body that a handler writes.
pub record RestReply (A : Type 0) : Type 0 where
  pub code : ℕ
  pub body : A

-- `NewRestHealthStatus`: the error is dropped.
unfoldable pub rest_health_status : Option Err → String
rest_health_status failed = if is_some failed then "down" else "up"

-- `RestHealth.ServeHTTP`, of what the probe of PostgreSQL found.
unfoldable pub rest_health : Option Err → RestReply String
rest_health failed = record {
  code = if is_some failed then 503 else 200;
  body = rest_health_status failed;
}

-- `RestPing.ServeHTTP`
unfoldable pub rest_ping : RestReply String
rest_ping = record { code = 200; body = "pong" }

-- `RestGenerationSweep.ServeHTTP`: the count, or an error for `httpf.HandleError`.
unfoldable pub rest_sweep : Res ℕ → Res (RestReply ℕ)
rest_sweep (ok checked) = ok (record { code = 200; body = checked })
rest_sweep (err e) = err e

-- `GrpcServiceToken`: the gate that a server puts before its calls, none for no gate.
unfoldable pub service_token : String → Bool → Res (Option String)
service_token issuer optional =
    if str_eq issuer ""
    then if optional then ok none else err (plain "service token issuer required")
    else ok (some issuer)
