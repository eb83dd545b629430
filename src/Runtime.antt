-- ===== src/Runtime.antt =====
-- internal/runtime/service.go: the evaluation of a runtime event. The stores are given
-- by their interfaces. The pointer `engine` may be nil, as may two of the stores.
pub mod Labels
pub mod Memory
pub mod Laws
pub mod Gate
pub mod Life
pub mod Release
pub mod Denial
pub mod Total
pub mod MemoryLog
pub mod Preserved
pub mod Services
use Prim.Native.String as Text
use agent_secyrity.Prelude.{
  ◌*◌, ◌^◌, String, Bool, true, false, not, ◌&&◌, Option, none, some, List, [], ◌==◌, if◌then◌else◌,
}
use agent_secyrity.Prelude.Int.{ℤ, pos, ◌+ℤ◌, leb_ℤ}
use agent_secyrity.Strings.{Folding}
use agent_secyrity.Domain.{
  Time, RuntimeEvent, PolicyPack, Decision, EvaluationResult, ApprovalRequest, AuditRecord, is_zero,
  decision_allow, decision_deny, decision_require_approval, approval_status_approved,
}
use agent_secyrity.Domain.Event.{normalize}
use agent_secyrity.Domain.Errors.{Error, runtime_event_error, wrapped, Result, ok, err, Context}
use agent_secyrity.Policy.Engine.{Engine, new_engine, evaluate}
use agent_secyrity.Policy.Packs.{new_engine_from_packs}
use agent_secyrity.Interfaces.{PackStore, AuditStore, ApprovalStore}
use agent_secyrity.Runtime.Labels.{same_string_set}

module _ (S : Type 0) where
  pub record Service : Type 0 where
    pub engine : Option Engine
    pub pack_store : Option (PackStore S)
    pub store : AuditStore S
    pub approval_store : Option (ApprovalStore S)
    pub approval_ttl : ℤ

-- What the calls of one evaluation read from the context and the clock.
pub record Readings : Type 0 where
  pub received : Time
  pub listing : Context
  pub getting : Context
  pub expiry_base : Time
  pub creating : Context
  pub created : Time
  pub appending : Context
  pub appended : Time

abbrev pub blank_result : EvaluationResult
blank_result = record {
  decision = "";
  reason = "";
  matched_policy_ids = [];
  audit_id = "";
  approval_id = "";
}

-- the event with a timestamp
unfoldable pub stamped : Time → RuntimeEvent → RuntimeEvent
stamped now event = record event {
  timestamp = if is_zero event.timestamp then now else event.timestamp;
}

-- 15 minutes in nanoseconds
abbrev pub default_ttl : ℤ
default_ttl = pos (15 * 60 * 10 ^ 9)

unfoldable pub effective_ttl : ℤ → ℤ
effective_ttl ttl = if leb_ℤ ttl (pos 0) then default_ttl else ttl

-- approvalEventMatches
unfoldable pub approval_event_matches : RuntimeEvent → RuntimeEvent → Bool
approval_event_matches approved actual =
    approved.tenant_id == actual.tenant_id
    && approved.agent_id == actual.agent_id
    && approved.user_id == actual.user_id
    && approved.task_id == actual.task_id
    && approved.event_type == actual.event_type
    && approved.tool_name == actual.tool_name
    && approved.resource == actual.resource
    && approved.action == actual.action
    && same_string_set approved.data_labels actual.data_labels

abbrev pub denied : String → String → EvaluationResult
denied reason approval_id = record blank_result {
  decision = decision_deny;
  reason = reason;
  approval_id = approval_id;
}

-- the verdict on an event that names an approval, from the answer of the store
unfoldable pub approval_verdict : RuntimeEvent → Result ApprovalRequest → EvaluationResult
approval_verdict event (err e) = denied "approval request not found" ""
approval_verdict event (ok request) =
    if not (request.status == approval_status_approved)
    then denied (Text.◌++◌ "approval status is " request.status) request.id
    else if not (approval_event_matches request.event event)
    then denied "approval request does not match runtime event" request.id
    else record blank_result {
      decision = decision_allow;
      reason = "approved request matched runtime event";
      approval_id = request.id;
    }

abbrev pub engine_or_empty : Option Engine → Engine
engine_or_empty none = new_engine []
engine_or_empty (some engine) = engine

-- the approval request for a result that requires one
unfoldable pub approval_request : ℤ → Time → RuntimeEvent → EvaluationResult → ApprovalRequest
approval_request ttl base event result = record {
  id = "";
  tenant_id = event.tenant_id;
  status = "";
  event = event;
  result = result;
  reason = result.reason;
  requested_at = pos 0;
  expires_at = base +ℤ effective_ttl ttl;
  decided_at = pos 0;
  decided_by = "";
  decision_reason = "";
}

module _ {S : Type 0} where
  -- evaluateApproval
  unfoldable pub evaluate_approval :
      Option (ApprovalStore S) → Context → RuntimeEvent → S → EvaluationResult
  evaluate_approval none ctx event s = denied "approval store is not configured" ""
  evaluate_approval (some store) ctx event s =
      approval_verdict event (store.get ctx event.tenant_id event.approval_id s)

  abbrev pub audited : EvaluationResult → S × Result AuditRecord → S × Result EvaluationResult
  audited result (s, err e) = (s, err (wrapped "append audit record" e))
  audited result (s, ok record_stored) = (s, ok (record result { audit_id = record_stored.id }))

  -- appendAudit
  unfoldable pub append_audit :
      AuditStore S → Readings → RuntimeEvent → EvaluationResult → S → S × Result EvaluationResult
  append_audit store at event result s = audited result (
      store.append at.appending at.appended
        (record { id = ""; recorded_at = pos 0; event = event; result = result }) s)

  -- the engine that evaluates: that of the enabled packs, where there is a pack store
  unfoldable pub choose_engine : Service S → Context → String → S → Result Engine
  choose_engine service ctx tenant_id s = elim service.pack_store [
    | none ↦ ok (engine_or_empty service.engine)
    | some packs ↦ elim (packs.list_enabled ctx tenant_id s) [
      | err e ↦ err (wrapped "list enabled policy packs" e)
      | ok enabled ↦ ok (new_engine_from_packs enabled)
    ]
  ]

  abbrev pub requested :
      AuditStore S
      → Readings
      → RuntimeEvent
      → EvaluationResult
      → S × Result ApprovalRequest
      → S × Result EvaluationResult
  requested store at event result (s, err e) = (s, err (wrapped "create approval request" e))
  requested store at event result (s, ok request) =
      append_audit store at event (record result { approval_id = request.id }) s

  -- the rest of Evaluate from the engine's result on
  unfoldable pub conclude :
      Service S → Readings → RuntimeEvent → EvaluationResult → S → S × Result EvaluationResult
  conclude service at event result s = elim service.approval_store [
    | none ↦ append_audit service.store at event result s
    | some approvals ↦
        if result.decision == decision_require_approval
        then requested service.store at event result (
            approvals.create at.creating at.created
              (approval_request service.approval_ttl at.expiry_base event result) s)
        else append_audit service.store at event result s
  ]

  module _ ⦃folding : Folding⦄ where
    abbrev pub with_engine :
        Service S → Readings → RuntimeEvent → S → Result Engine → S × Result EvaluationResult
    with_engine service at event s (err e) = (s, err e)
    with_engine service at event s (ok engine) = conclude service at event (evaluate engine event) s

    -- Evaluate of an event that is normalized and stamped
    unfoldable pub evaluate_normal :
        Service S → Readings → RuntimeEvent → S → S × Result EvaluationResult
    evaluate_normal service at event s =
        if not (event.approval_id == "")
        then append_audit service.store at event
            (evaluate_approval service.approval_store at.getting event s) s
        else with_engine service at event s (choose_engine service at.listing event.tenant_id s)

    abbrev pub of_normalized :
        Service S → Readings → S → Result RuntimeEvent → S × Result EvaluationResult
    of_normalized service at s (err e) = (s, err (runtime_event_error e))
    of_normalized service at s (ok event) = evaluate_normal service at (stamped at.received event) s

    -- Service.Evaluate
    unfoldable pub evaluate_event :
        Service S → Readings → RuntimeEvent → S → S × Result EvaluationResult
    evaluate_event service at event s = of_normalized service at s (normalize event)
