-- ===== src/Sdk/Client.antt =====
-- sdk/go/agentsec/client.go: the client of the platform's API.
use Prim.Native.Char.{code}
use Prim.Native.String as Text
use Prim.Native.String.{[], ◌∷◌}
use agent_secyrity.Prelude.{
  ℕ, String, not, ◌&&◌, ◌||◌, Option, none, some, List, [], ◌∷◌, ◌==◌, nat_eq, ltb, leb,
  if◌then◌else◌,
}
use agent_secyrity.Strings.{trim_space, is_blank}
use agent_secyrity.Sdk.Types.{RuntimeEvent, EvaluationResult, ApprovalRequest}
use agent_secyrity.Domain.Errors.{Error, Result, ok, err}
use agent_secyrity.Sdk.{
  ApprovalDecisionInput, ApiError, Failure, stated, caused, from_api, Reply, done, fault, Outgoing,
  Incoming, Url, Platform, HttpClient,
}

-- strings.TrimRight(s, "/")
unfoldable pub trim_slashes : String → String
trim_slashes [] = []
trim_slashes (c ∷ s) =
    let rest = trim_slashes s in if nat_eq (code c) b'/' && rest == "" then [] else c ∷ rest

pub record Client (W B : Type 0) : Type 0 where
  pub base_url : String
  pub http_client : HttpClient W B
  pub user_agent : String
  pub api_key : String

abbrev pub default_user_agent : String
default_user_agent = "agentsec-go-sdk/0.1"

-- Option; the nil option is none
abbrev pub ClientOption : Type 0 → Type 0 → Type 0
ClientOption W B = Option (Client W B → Client W B)

module _ {W B : Type 0} where
  abbrev pub with_http_client : Option (HttpClient W B) → Client W B → Client W B
  with_http_client none c = c
  with_http_client (some http_client) c = record c { http_client = http_client }

  abbrev pub with_user_agent : String → Client W B → Client W B
  with_user_agent user_agent c =
      if not (is_blank user_agent) then record c { user_agent = user_agent } else c

  abbrev pub with_api_key : String → Client W B → Client W B
  with_api_key api_key c = if not (is_blank api_key) then record c { api_key = api_key } else c

  -- the loop of NewClient over the options
  unfoldable pub apply_options : List (ClientOption W B) → Client W B → Client W B
  apply_options [] c = c
  apply_options (none ∷ options) c = apply_options options c
  apply_options (some option ∷ options) c = apply_options options (option c)

-- fmt.Sprintf("<verb> %s %s<rest>", method, path)
abbrev pub label : String → String → String → String → String
label verb method path rest =
    Text.◌++◌ verb (Text.◌++◌ " " (Text.◌++◌ method (Text.◌++◌ " " (Text.◌++◌ path rest))))

-- the code and message of a body that can be decoded, or else its text
abbrev described : String → Option (String × String) → String × String
described text none = ("", trim_space text)
described text (some (error_code, message)) = (error_code, message)

abbrev pub decoded : {A : Type 0} → String → String → Result A → Reply A
decoded method path (ok a) = done a
decoded method path (err e) = fault (caused (label "decode" method path " response") e)

module _ {B : Type 0} (platform : Platform B) where
  abbrev api_error : ℕ → String × String → ApiError
  api_error status (error_code, message) = record {
    status_code = status;
    code = error_code;
    message = if message == "" then platform.status_text status else message;
  }

  abbrev of_read : ℕ → Result String → Failure
  of_read status (err e) = caused "read error response" e
  of_read status (ok text) =
      from_api (api_error status (described text (platform.decode_error text)))

  -- decodeAPIError
  unfoldable pub decode_api_error : Incoming B → Failure
  decode_api_error response =
      of_read response.status_code (platform.read_limited 4096 response.body)

  abbrev approvals_path : String → String
  approvals_path tenant_id =
      Text.◌++◌ "/v1/tenants/" (Text.◌++◌ (platform.path_escape tenant_id) "/approvals")

  abbrev approval_path : String → String → String
  approval_path tenant_id approval_id =
      Text.◌++◌ (approvals_path tenant_id) (Text.◌++◌ "/" (platform.path_escape approval_id))

module _ {W B : Type 0} (platform : Platform B) where
  abbrev pub checked_url :
      HttpClient W B → List (ClientOption W B) → Result Url → Reply (Client W B)
  checked_url default_client options (err e) = fault (caused "parse base URL" e)
  checked_url default_client options (ok url) =
      if url.scheme == "" || url.host == ""
      then fault (stated "base URL must include scheme and host")
      else done (
          apply_options options (record {
            base_url = trim_slashes url.text;
            http_client = default_client;
            user_agent = default_user_agent;
            api_key = "";
          }))

  unfoldable pub new_client : HttpClient W B → String → List (ClientOption W B) → Reply (Client W B)
  new_client default_client base_url options =
      checked_url default_client options (platform.parse_url (trim_space base_url))

  abbrev build : Client W B → String → String → Option B → Option Error → Reply (Outgoing B)
  build c method path body (some e) = fault (caused (label "build" method path " request") e)
  build c method path body none = done (record {
    method = method;
    url = Text.◌++◌ c.base_url path;
    accept = "application/json";
    user_agent = c.user_agent;
    authorization = if not (c.api_key == "") then some (Text.◌++◌ "Bearer " c.api_key) else none;
    content_type = elim body [ none ↦ none | some b ↦ some "application/json" ];
    body = body;
  })

  -- newRequest; the input is nil, or what Encode makes of it
  unfoldable pub new_request : Client W B → String → String → Option (Result B) → Reply (Outgoing B)
  new_request c method path (some (err e)) =
      fault (caused (label "encode" method path " request") e)
  new_request c method path none =
      build c method path none (platform.check_request method (Text.◌++◌ c.base_url path))
  new_request c method path (some (ok body)) =
      build c method path (some body) (platform.check_request method (Text.◌++◌ c.base_url path))

  abbrev pub received :
      {A : Type 0} → String → String → (B → Result A) → W × Result (Incoming B) → W × Reply A
  received method path decode (w, err e) = (w, fault (caused (label "send" method path "") e))
  received method path decode (w, ok response) =
      if ltb response.status_code 200 || leb 300 response.status_code
      then (w, fault (decode_api_error platform response))
      else (w, decoded method path (decode response.body))

  abbrev pub sent :
      {A : Type 0}
      → Client W B
      → String
      → String
      → (B → Result A)
      → W
      → Reply (Outgoing B)
      → W × Reply A
  sent c method path decode w (fault f) = (w, fault f)
  sent c method path decode w (done request) = received method path decode (c.http_client request w)

  -- doJSON, with an output; every caller passes one
  unfoldable pub do_json :
      {A : Type 0}
      → Client W B
      → String
      → String
      → Option (Result B)
      → (B → Result A)
      → W
      → W × Reply A
  do_json c method path input decode w =
      sent c method path decode w (new_request c method path input)

  -- Evaluate
  unfoldable pub evaluate : Client W B → RuntimeEvent → W → W × Reply EvaluationResult
  evaluate c event w =
      do_json c "POST" "/v1/evaluate" (some (platform.encode_event event)) platform.decode_result w

  -- ListApprovals
  unfoldable pub list_approvals : Client W B → String → W → W × Reply (List ApprovalRequest)
  list_approvals c tenant_id w =
      do_json c "GET" (approvals_path platform tenant_id) none platform.decode_approvals w

  -- GetApproval
  unfoldable pub get_approval : Client W B → String → String → W → W × Reply ApprovalRequest
  get_approval c tenant_id approval_id w =
      do_json c "GET" (approval_path platform tenant_id approval_id) none platform.decode_approval w

  -- DecideApproval
  unfoldable pub decide_approval :
      Client W B → String → String → ApprovalDecisionInput → W → W × Reply ApprovalRequest
  decide_approval c tenant_id approval_id input w =
      do_json c "POST" (Text.◌++◌ (approval_path platform tenant_id approval_id) "/decide")
        (some (platform.encode_decision input)) platform.decode_approval w
