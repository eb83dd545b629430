-- ===== src/Tests/Wires.antt =====
-- Bodies that carry values as they are, for the tests of the API and of the SDK.
use agent_secyrity.Prelude.{String, none, [], ◌∷◌, ◌==◌, if◌then◌else◌}
use agent_secyrity.Prelude.Int.{pos}
use agent_secyrity.Domain.{RuntimeEvent}
use agent_secyrity.Sdk.Types.{EvaluationResult, platform_event, client_result}
use agent_secyrity.Domain.Errors.{failed, Result, ok, err}
use agent_secyrity.Http.{Codec, Moments, Request, Payload, evaluation}
use agent_secyrity.Sdk.{Platform}
use agent_secyrity.Sdk.Link.{Wire}
use agent_secyrity.Tests.Fixtures.{shell_event}
use agent_secyrity.Tests.RuntimeTests.{calm}

pub data Body : Type 0 where
  no_body : Body
  event_body : RuntimeEvent → Body
  payload_body : Payload → Body

abbrev pub unreadable : {A : Type 0} → Result A
unreadable = err (failed "unexpected body")

abbrev read_event : Body → Result RuntimeEvent
read_event (event_body event) = ok event
read_event _ = unreadable

abbrev read_payload : Payload → Result EvaluationResult
read_payload (evaluation result) = ok (client_result result)
read_payload _ = unreadable

abbrev read_result : Body → Result EvaluationResult
read_result (payload_body payload) = read_payload payload
read_result _ = unreadable

abbrev pub codec : Codec Body
codec = record {
  event = read_event;
  pack = λ b. unreadable;
  enabled = λ b. unreadable;
  simulation = λ b. unreadable;
  decision = λ b. unreadable;
}

abbrev pub moments : Moments
moments = record { evaluation = calm; first = none; first_time = pos 1; second = none }

abbrev pub platform : Platform Body
platform = record {
  parse_url = λ s. ok (record { scheme = "http"; host = "localhost"; text = s });
  path_escape = λ s. s;
  check_request = λ method url. none;
  status_text = λ n. "";
  read_limited = λ n b. ok "";
  encode_event = λ event. ok (event_body (platform_event event));
  encode_decision = λ input. unreadable;
  decode_result = read_result;
  decode_approval = λ b. unreadable;
  decode_approvals = λ b. unreadable;
  decode_error = λ s. none;
}

abbrev pub wire : Wire Body
wire = record {
  no_body = no_body;
  path_of = λ url. if url == "http://localhost/v1/evaluate" then "v1" ∷ "evaluate" ∷ [] else [];
  query_of = λ url name. "";
  render = payload_body;
}

-- A request of POST /v1/evaluate.
abbrev pub posted : String → Request Body
posted authorization = record {
  method = "POST";
  path = "v1" ∷ "evaluate" ∷ [];
  authorization = authorization;
  query = λ name. "";
  body = event_body shell_event;
}
