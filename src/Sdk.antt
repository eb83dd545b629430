-- ===== src/Sdk.antt =====
-- sdk/go/agentsec: what the client and the enforcer share. A call takes the state of the world, `W`,
-- and returns it: the server, and whatever an action changes. Contexts are left out.
pub mod Types
pub mod Client
pub mod Enforcer
pub mod Guard
pub mod Link
pub mod EndToEnd
pub mod Messages
use agent_secyrity.Prelude.{ℕ, String, Bool, Option, List, ◌||◌, ◌==◌}
use agent_secyrity.Sdk.Types.{
  RuntimeEvent, EvaluationResult, ApprovalRequest, ApprovalStatus, Decision, decision_allow,
  decision_record, decision_deny, decision_require_approval,
}
use agent_secyrity.Domain.Errors.{Error, Result}

-- EvaluationResult.Allowed, Denied and RequiresApproval
unfoldable pub allowed : EvaluationResult → Bool
allowed r = r.decision == decision_allow || r.decision == decision_record

unfoldable pub is_denied : EvaluationResult → Bool
is_denied r = r.decision == decision_deny

unfoldable pub requires_approval : EvaluationResult → Bool
requires_approval r = r.decision == decision_require_approval

pub record ApprovalDecisionInput : Type 0 where
  pub decision : ApprovalStatus
  pub decided_by : String
  pub reason : String

pub record ApiError : Type 0 where
  pub status_code : ℕ
  pub code : String
  pub message : String

pub record EnforcementError : Type 0 where
  pub decision : Decision
  pub reason : String
  pub approval_id : String

-- The errors of the SDK: `stated` is fmt.Errorf without %w, `caused` with it, and `passed` an error
-- that is returned as it came.
pub data Failure : Type 0 where
  stated : String → Failure
  caused : String → Error → Failure
  passed : Error → Failure
  from_api : ApiError → Failure
  blocked : EnforcementError → Failure

pub data Reply (A : Type 0) : Type 0 where
  done : A → Reply A
  fault : Failure → Reply A

-- http.Request as newRequest makes it; a header that is not set is none.
pub record Outgoing (B : Type 0) : Type 0 where
  pub method : String
  pub url : String
  pub accept : String
  pub user_agent : String
  pub authorization : Option String
  pub content_type : Option String
  pub body : Option B

pub record Incoming (B : Type 0) : Type 0 where
  pub status_code : ℕ
  pub body : B

-- url.URL, with the text of String()
pub record Url : Type 0 where
  pub scheme : String
  pub host : String
  pub text : String

-- The packages that the client calls: net/url, net/http, encoding/json and io.
pub record Platform (B : Type 0) : Type 0 where
  pub parse_url : String → Result Url
  pub path_escape : String → String
  pub check_request : String → String → Option Error
  pub status_text : ℕ → String
  pub read_limited : ℕ → B → Result String
  pub encode_event : RuntimeEvent → Result B
  pub encode_decision : ApprovalDecisionInput → Result B
  pub decode_result : B → Result EvaluationResult
  pub decode_approval : B → Result ApprovalRequest
  pub decode_approvals : B → Result (List ApprovalRequest)
  pub decode_error : String → Option (String × String)

-- Do of an http.Client
abbrev pub HttpClient : Type 0 → Type 0 → Type 0
HttpClient W B = Outgoing B → W → W × Result (Incoming B)
