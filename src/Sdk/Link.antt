-- ===== src/Sdk/Link.antt =====
-- The SDK's client connected to the router of internal/transport/httpapi/handler.go. The two JSON
-- codecs and the reading of URLs are parameters.
use Prim.Native.String as Text
use agent_secyrity.Prelude.{String, ◌≡◌, Option, none, some, List, [], ◌∷◌}
use agent_secyrity.Strings.{Folding}
use agent_secyrity.Domain.{EvaluationResult}
use agent_secyrity.Sdk.Types.{RuntimeEvent, platform_event, client_result}
use agent_secyrity.Domain.Errors.{Result, ok}
use agent_secyrity.Http.{Request, Codec, Moments, Payload, evaluation, Handler, Answer}
use agent_secyrity.Http.Router.{serve}
use agent_secyrity.Sdk.{Outgoing, Incoming, Platform, HttpClient}

-- What lies between: the body of a request without one, the path and the query of a URL as the
-- server reads them, and the body that the server writes.
pub record Wire (B : Type 0) : Type 0 where
  pub no_body : B
  pub path_of : String → List String
  pub query_of : String → String → String
  pub render : Payload → B

abbrev text_or_empty : Option String → String
text_or_empty none = ""
text_or_empty (some s) = s

abbrev body_or : {B : Type 0} → B → Option B → B
body_or b none = b
body_or b (some c) = c

module _ {B : Type 0} (wire : Wire B) where
  -- the request as it arrives
  abbrev pub arriving : Outgoing B → Request B
  arriving request = record {
    method = request.method;
    path = wire.path_of request.url;
    authorization = text_or_empty request.authorization;
    query = wire.query_of request.url;
    body = body_or wire.no_body request.body;
  }

  module _ {S : Type 0} (codec : Codec B) (h : Handler S) (at : Moments) ⦃folding : Folding⦄ where
    abbrev pub returning : Answer S → S × Result (Incoming B)
    returning (s, response) =
        (s, ok (record { status_code = response.status; body = wire.render response.payload }))

    -- Every request reaches the server, and every response comes back.
    unfoldable pub network : HttpClient S B
    network request s = returning (serve codec h at (arriving request) s)

-- The client can encode the event and the server reads it back, the client reads back the result
-- that the service returns, if it does, and the server finds the path of an evaluation.
pub record IsWired {B : Type 0} (platform : Platform B) (codec : Codec B) (wire : Wire B)
    (base_url : String) (event : RuntimeEvent) (returned : Result EvaluationResult) : Type 0 where
  pub encoded : B
  pub encode : platform.encode_event event ≡ ok encoded
  pub decode : codec.event encoded ≡ ok (platform_event event)
  pub result :
      (r : EvaluationResult)
      → returned ≡ ok r
      → platform.decode_result (wire.render (evaluation r)) ≡ ok (client_result r)
  pub path : wire.path_of (Text.◌++◌ base_url "/v1/evaluate") ≡ "v1" ∷ "evaluate" ∷ []
  pub accepted : platform.check_request "POST" (Text.◌++◌ base_url "/v1/evaluate") ≡ none
