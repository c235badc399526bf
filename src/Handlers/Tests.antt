-- ===== src/Handlers/Tests.antt =====
-- The theorems of the handlers at concrete messages and streams.
use service_genai.Prelude.{
  ◌≡◌, refl, String, str_eq, ◌==◌, none, some, List, [], ◌∷◌, arith, if◌then◌else◌,
}
use service_genai.Prelude.Int.{pos}
use service_genai.Errors.{Bytes}
use service_genai.Action.{ok}
use service_genai.Dao.Rows.{GenerationStatus, GenerationFailure, Tables}
use service_genai.Connectors.{StreamRequest}
use service_genai.Connectors.OpenAi.Operations.{answered}
use service_genai.Connectors.OpenAi.Stream.{
  EventClient, open_ai_stream, is_terminal, stream_event_of,
}
use service_genai.Core.Generation.{Generation}
use service_genai.Core.Stream.{GenerationStreamEvent, forward_events}
use service_genai.Core.Check.Scenario.{tables}
use service_genai.Core.Cancel
use service_genai.Core.Cancel.Settled.{over_tables}
use service_genai.Core.Get
use service_genai.Core.Stream
use service_genai.Handlers.{Code, Reply, status}
use service_genai.Handlers.Generation.{new_grpc_generation}
use service_genai.Handlers.Read.{Ids, generation_get, generation_cancel}
use service_genai.Handlers.Stream.{Caller, replied, generation_stream, send_events}
use service_genai.Handlers.Wire.{read_generation, new_grpc_generation-read}
use service_genai.Handlers.Hidden.{others_are_hidden, get_over_tables, stream_over_tables}
use service_genai.Handlers.Delivery.{send_events-delivered}

-- A provider of three events, of which the second is the last of the stream.
abbrev kinds : Bytes → String
kinds [] = ""
kinds (b ∷ rest) = if b == 1 then "response.completed" else "response.output_text.delta"

abbrev client : EventClient (List GenerationStreamEvent)
client = record {
  get_stream = λ path query t. (answered ((0 ∷ []) ∷ (1 ∷ []) ∷ (2 ∷ []) ∷ [], none), t);
  head = λ raw. ok (kinds raw, pos 7);
  path_escape = λ id. id;
  format_int = λ n. "7";
}

-- A caller that keeps what it is sent.
abbrev caller : Caller (List GenerationStreamEvent)
caller = record { context = λ t. none; send = λ event t. (none, event ∷ t) }

abbrev stream_request : StreamRequest
stream_request = record { id = "resp_1"; starting_after = none }

abbrev core_event : Bytes → GenerationStreamEvent
core_event raw = record { sequence = pos 7; body = raw }

send_events-delivered_example :
    send_events caller (forward_events (open_ai_stream client) stream_request) []
    ≡ (replied (Reply.answered tt), core_event (1 ∷ []) ∷ core_event (0 ∷ []) ∷ [])
unfolding is_terminal stream_event_of
send_events-delivered_example = send_events-delivered client caller stream_request []

abbrev failed_generation : Generation
failed_generation = record {
  id = 1;
  owner_id = 7;
  purpose = "summary";
  provider = "openai";
  error = some "refused";
  failure = some GenerationFailure.rejected;
  status = GenerationStatus.failed;
  attempts = record { number = 1; response = 123 ∷ [] } ∷ [];
  created_at = 50;
  updated_at = 60;
  settled_at = some 60;
  expires_at = some 160;
}

-- Identifiers of two texts.
abbrev ids : Ids
ids = record {
  parse = λ t. if str_eq t "one" then some 1 else if str_eq t "seven" then some 7 else none;
  text = λ n. if n == 1 then "one" else "seven";
}

new_grpc_generation-read_example :
    read_generation ids (new_grpc_generation ids.text failed_generation) ≡ some failed_generation
new_grpc_generation-read_example =
    new_grpc_generation-read ids failed_generation refl refl (λ p. cc p) (omega arith, tt)

-- The owner of another generation asks.
abbrev tables_caller : Caller Tables
tables_caller = record { context = λ t. none; send = λ event t. (none, t) }

others_are_hidden_example :
    let hidden = status Code.not_found "generation not found" in
    (generation_get ids
        (Get.exec (get_over_tables (λ r t. (ok r.generation, t))))
        "one"
        "one"
        tables
      ≡ (hidden, tables))
    × (generation_cancel ids
          (Cancel.exec (over_tables (λ r t. (ok r.generation, t)) 1000))
          "one"
          "one"
          tables
        ≡ (hidden, tables))
    × (generation_stream tables_caller ids
          (Stream.exec (stream_over_tables []))
          "one"
          "one"
          none
          tables
        ≡ (replied (status Code.not_found "generation not found"), tables))
others_are_hidden_example =
    others_are_hidden ids (λ r t. (ok r.generation, t)) 1000 [] tables_caller "one" "one" 1 1 none
      tables refl refl refl refl
