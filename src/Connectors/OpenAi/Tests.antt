-- ===== src/Connectors/OpenAi/Tests.antt =====
-- The theorems of the OpenAI connector at a concrete client.
use service_genai.Prelude.{String, Bool, true, false, Option, none, some, List, [], ◌∷◌}
use service_genai.Prelude.Int.{pos}
use service_genai.Errors.{Bytes}
use service_genai.Action.{Action, ok}
use service_genai.Connectors.{Call}
use service_genai.Connectors.OpenAi.Response.{OpenAiResponse, ResponseStatus}
use service_genai.Connectors.OpenAi.Operations.{Client, answered, hold_loop, json_bool}
use service_genai.Connectors.OpenAi.Holds.{Announces, first_named, hold-Announces_once}

abbrev queued_response : OpenAiResponse
queued_response = record {
  id = "resp_1";
  status = ResponseStatus.queued;
  error_message = "";
  model = "gpt-5";
  effort = "low";
  service_tier = "default";
  created_at = 5;
  completed_at = none;
  usage = record {
    input_tokens = pos 0;
    cached_input_tokens = pos 0;
    cache_write_tokens = pos 0;
    output_tokens = pos 0;
    reasoning_tokens = pos 0;
  };
  total_tokens = none;
}

abbrev finished_response : OpenAiResponse
finished_response = record queued_response {
  status = ResponseStatus.completed;
  total_tokens = some 12;
}

-- An empty body does not decode, one byte is a queued response, and more is a finished one.
abbrev decode_body : Bytes → OpenAiResponse
decode_body (a ∷ b ∷ rest) = finished_response
decode_body _ = queued_response

abbrev client : Client (List Call)
client = record {
  post = λ body s. ((answered body, true), s);
  post_stream = λ body s. ((answered [], true), s);
  read = λ id s. (answered [], s);
  post_cancel = λ id s. (answered [], s);
  decode = λ raw. ok (decode_body raw);
  decode_fields = λ raw. ok [];
  encode = λ fields. ok [];
}

-- The callback keeps the calls that it was given.
abbrev accepted : Call → Action (Bool × List Call) (Unit {0})
accepted call (c, s) = (ok tt, (true, call ∷ s))

-- An event without a response, a queued call, and its end.
abbrev events : List (Option Bytes)
events = none ∷ some (1 ∷ []) ∷ some (1 ∷ 2 ∷ []) ∷ []

hold-Announces_once_example :
    Announces accepted
      (first_named client events)
      (false, [])
      (hold_loop client accepted events none (false, []))
hold-Announces_once_example = hold-Announces_once client accepted events (false, [])

-- The caller asked for no background mode.
abbrev payload : List (String × Bytes)
payload = ("model", 34 ∷ 34 ∷ []) ∷ ("background", json_bool false) ∷ []
