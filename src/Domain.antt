-- ===== src/Domain.antt =====
-- internal/domain/model.go: the data that the components exchange. The string types of the source
-- (EventType, Decision, SubjectType, ApprovalStatus) are texts, of which any value can arrive.
pub mod Decision
pub mod Event
pub mod Errors
pub mod Messages
use agent_secyrity.Prelude.{String, Bool, List}
use agent_secyrity.Prelude.Int.{ℤ, pos, ltb_ℤ, eq_ℤ}

-- time.Time, in nanoseconds from the zero time, 1 January of the year 1.
abbrev pub Time : Type 0
Time = ℤ

-- Time.IsZero
abbrev pub is_zero : Time → Bool
is_zero t = eq_ℤ t (pos 0)

-- t.After(u)
abbrev pub after : Time → Time → Bool
after t u = ltb_ℤ u t

abbrev pub EventType : Type 0
EventType = String

abbrev pub Decision : Type 0
Decision = String

abbrev pub SubjectType : Type 0
SubjectType = String

abbrev pub ApprovalStatus : Type 0
ApprovalStatus = String

abbrev pub event_type_prompt : EventType
event_type_prompt = "prompt"

abbrev pub event_type_tool_call : EventType
event_type_tool_call = "tool_call"

abbrev pub event_type_file_access : EventType
event_type_file_access = "file_access"

abbrev pub event_type_network_access : EventType
event_type_network_access = "network_access"

abbrev pub event_type_response : EventType
event_type_response = "response"

abbrev pub event_type_approval : EventType
event_type_approval = "approval"

abbrev pub decision_allow : Decision
decision_allow = "allow"

abbrev pub decision_record : Decision
decision_record = "record"

abbrev pub decision_redact : Decision
decision_redact = "redact"

abbrev pub decision_require_approval : Decision
decision_require_approval = "require_approval"

abbrev pub decision_deny : Decision
decision_deny = "deny"

abbrev pub subject_type_user : SubjectType
subject_type_user = "user"

abbrev pub subject_type_agent : SubjectType
subject_type_agent = "agent"

abbrev pub subject_type_service_account : SubjectType
subject_type_service_account = "service_account"

abbrev pub subject_type_workflow : SubjectType
subject_type_workflow = "workflow"

abbrev pub approval_status_pending : ApprovalStatus
approval_status_pending = "pending"

abbrev pub approval_status_approved : ApprovalStatus
approval_status_approved = "approved"

abbrev pub approval_status_rejected : ApprovalStatus
approval_status_rejected = "rejected"

abbrev pub approval_status_expired : ApprovalStatus
approval_status_expired = "expired"

pub record Subject : Type 0 where
  pub type : SubjectType
  pub id : String
  pub roles : List String
  pub groups : List String
  pub risk_level : String

pub record RuntimeEvent : Type 0 where
  pub schema_version : String
  pub id : String
  pub timestamp : Time
  pub tenant_id : String
  pub agent_id : String
  pub user_id : String
  pub task_id : String
  pub event_type : EventType
  pub subject : Subject
  pub approval_id : String
  pub tool_name : String
  pub resource : String
  pub action : String
  pub input : String
  pub output : String
  pub data_labels : List String
  pub intent : String

pub record PolicyConditions : Type 0 where
  pub event_types : List EventType
  pub tool_names : List String
  pub resources : List String
  pub actions : List String
  pub data_labels : List String
  pub agent_ids : List String
  pub user_ids : List String
  pub subject_types : List SubjectType
  pub subject_ids : List String
  pub subject_roles : List String
  pub subject_groups : List String
  pub subject_risk_levels : List String

pub record Policy : Type 0 where
  pub id : String
  pub tenant_id : String
  pub policy_pack_id : String
  pub name : String
  pub enabled : Bool
  pub priority : ℤ
  pub conditions : PolicyConditions
  pub decision : Decision
  pub reason : String

pub record PolicyPack : Type 0 where
  pub id : String
  pub tenant_id : String
  pub name : String
  pub version : String
  pub enabled : Bool
  pub policies : List Policy

pub record EvaluationResult : Type 0 where
  pub decision : Decision
  pub reason : String
  pub matched_policy_ids : List String
  pub audit_id : String
  pub approval_id : String

pub record ApprovalRequest : Type 0 where
  pub id : String
  pub tenant_id : String
  pub status : ApprovalStatus
  pub event : RuntimeEvent
  pub result : EvaluationResult
  pub reason : String
  pub requested_at : Time
  pub expires_at : Time
  pub decided_at : Time
  pub decided_by : String
  pub decision_reason : String

pub record AuditRecord : Type 0 where
  pub id : String
  pub recorded_at : Time
  pub event : RuntimeEvent
  pub result : EvaluationResult
