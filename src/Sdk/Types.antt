-- ===== src/Sdk/Types.antt =====
-- The data types of sdk/go/agentsec/client.go, which repeat those of the platform, and the values
-- that the same JSON stands for there.
use agent_secyrity.Prelude.{String, List, []}
use agent_secyrity.Domain as Domain
use agent_secyrity.Domain.{Time}

abbrev pub runtime_event_schema_v1 : String
runtime_event_schema_v1 = "runtime_event.v1"

abbrev pub EventType : Type 0
EventType = String

abbrev pub event_type_prompt : EventType
event_type_prompt = "prompt"

abbrev pub event_type_tool_call : EventType
event_type_tool_call = "tool_call"

abbrev pub event_type_file_access : EventType
event_type_file_access = "file_access"

abbrev pub event_type_network_access : EventType
event_type_network_access = "network_access"

abbrev pub event_type_response : EventType
event_type_response = "response"

abbrev pub event_type_approval : EventType
event_type_approval = "approval"

abbrev pub Decision : Type 0
Decision = String

abbrev pub decision_allow : Decision
decision_allow = "allow"

abbrev pub decision_record : Decision
decision_record = "record"

abbrev pub decision_redact : Decision
decision_redact = "redact"

abbrev pub decision_require_approval : Decision
decision_require_approval = "require_approval"

abbrev pub decision_deny : Decision
decision_deny = "deny"

abbrev pub SubjectType : Type 0
SubjectType = String

abbrev pub subject_type_user : SubjectType
subject_type_user = "user"

abbrev pub subject_type_agent : SubjectType
subject_type_agent = "agent"

abbrev pub subject_type_service_account : SubjectType
subject_type_service_account = "service_account"

abbrev pub subject_type_workflow : SubjectType
subject_type_workflow = "workflow"

abbrev pub ApprovalStatus : Type 0
ApprovalStatus = String

abbrev pub approval_status_pending : ApprovalStatus
approval_status_pending = "pending"

abbrev pub approval_status_approved : ApprovalStatus
approval_status_approved = "approved"

abbrev pub approval_status_rejected : ApprovalStatus
approval_status_rejected = "rejected"

abbrev pub approval_status_expired : ApprovalStatus
approval_status_expired = "expired"

pub record Subject : Type 0 where
  pub type : SubjectType
  pub id : String
  pub roles : List String
  pub groups : List String
  pub risk_level : String

pub record RuntimeEvent : Type 0 where
  pub schema_version : String
  pub id : String
  pub timestamp : Time
  pub tenant_id : String
  pub agent_id : String
  pub user_id : String
  pub task_id : String
  pub event_type : EventType
  pub subject : Subject
  pub approval_id : String
  pub tool_name : String
  pub resource : String
  pub action : String
  pub input : String
  pub output : String
  pub data_labels : List String
  pub intent : String

pub record EvaluationResult : Type 0 where
  pub decision : Decision
  pub reason : String
  pub matched_policy_ids : List String
  pub audit_id : String
  pub approval_id : String

pub record ApprovalRequest : Type 0 where
  pub id : String
  pub tenant_id : String
  pub status : ApprovalStatus
  pub event : RuntimeEvent
  pub result : EvaluationResult
  pub reason : String
  pub requested_at : Time
  pub expires_at : Time
  pub decided_at : Time
  pub decided_by : String
  pub decision_reason : String

-- EvaluationResult{}
abbrev pub blank_result : EvaluationResult
blank_result = record {
  decision = "";
  reason = "";
  matched_policy_ids = [];
  audit_id = "";
  approval_id = "";
}

-- An event of the SDK as the platform reads it; the tags of the fields are the same.
abbrev pub platform_subject : Subject → Domain.Subject
platform_subject s = record {
  type = s.type;
  id = s.id;
  roles = s.roles;
  groups = s.groups;
  risk_level = s.risk_level;
}

abbrev pub platform_event : RuntimeEvent → Domain.RuntimeEvent
platform_event e = record {
  schema_version = e.schema_version;
  id = e.id;
  timestamp = e.timestamp;
  tenant_id = e.tenant_id;
  agent_id = e.agent_id;
  user_id = e.user_id;
  task_id = e.task_id;
  event_type = e.event_type;
  subject = platform_subject e.subject;
  approval_id = e.approval_id;
  tool_name = e.tool_name;
  resource = e.resource;
  action = e.action;
  input = e.input;
  output = e.output;
  data_labels = e.data_labels;
  intent = e.intent;
}

-- A result of the platform as the SDK reads it.
abbrev pub client_result : Domain.EvaluationResult → EvaluationResult
client_result r = record {
  decision = r.decision;
  reason = r.reason;
  matched_policy_ids = r.matched_policy_ids;
  audit_id = r.audit_id;
  approval_id = r.approval_id;
}
