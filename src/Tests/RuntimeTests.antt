-- ===== src/Tests/RuntimeTests.antt =====
-- The service over the in-memory stores at a concrete event and pack.
use mathlib.Core.List.{Perm}
use mathlib.Core.List.Perm
use agent_secyrity.Prelude.{
  ◌≡◌, ◌≢◌, ◌↔◌, refl, String, true, none, some, List, [], ◌∷◌, arith, eq_iff,
}
use agent_secyrity.Prelude.Int.{pos, ◌+ℤ◌}
use agent_secyrity.Strings.{is_blank, trim_space, equal_fold, contains}
use agent_secyrity.Maps.{lookup, insert, values}
use agent_secyrity.Keys.{key}
use agent_secyrity.Decimal.{decimal, digits_from, digit}
use agent_secyrity.Domain.{
  RuntimeEvent, PolicyPack, ApprovalRequest, EvaluationResult, decision_deny,
  approval_status_approved,
}
use agent_secyrity.Domain.Decision.{priority}
use agent_secyrity.Domain.Event.{normalize, validate, field_errors, valid}
use agent_secyrity.Domain.Errors.{ok}
use agent_secyrity.Policy.Engine.{Engine, evaluate, applies}
use agent_secyrity.Policy.Matching.{
  matches, matches_tenant, match_event_type, match_subject_type, match_string, match_resource,
  match_any_string,
}
use agent_secyrity.Policy.Packs.{new_engine_from_packs, inherit}
use agent_secyrity.PolicyPack as Packs
use agent_secyrity.PolicyPack.{upsert}
use agent_secyrity.Approval as Approvals
use agent_secyrity.PolicyPack.Invariant.{upsert-IsValid}
use agent_secyrity.Approval.{get, DecisionInput, approval_id}
use agent_secyrity.Approval.Fresh.{IsValid-new}
use agent_secyrity.Audit as Audits
use agent_secyrity.Runtime.{
  Readings, blank_result, stamped, effective_ttl, approval_request, approval_event_matches,
  approval_verdict, evaluate_approval, append_audit, conclude, choose_engine, evaluate_normal,
  evaluate_event,
}
use agent_secyrity.Runtime.Labels.{same_string_set, same_string_set_iff}
use agent_secyrity.Runtime.Laws.{IsLoggedFor, evaluate_event-IsLogged}
use agent_secyrity.Runtime.MemoryLog.{log_of, audit_store-IsLog, approval_store-KeepsLog}
use agent_secyrity.Runtime.Gate.{IsFor, IsApproved, Verdict, approval_gate}
use agent_secyrity.Runtime.Life.{NeedsApproval, Opened, asked, evaluate_opens}
use agent_secyrity.Runtime.Release.{CanApprove, Allows, decided, approval_releases}
use agent_secyrity.Runtime.Denial.{Denier, denied_iff}
use agent_secyrity.Runtime.Memory.{Stores, memory_service, approval_store}
use agent_secyrity.Tests.Fixtures.{ascii, in_order, shell_event, ask_for_shell, pack_a}

abbrev pub calm : Readings
calm = record {
  received = pos 3;
  listing = none;
  getting = none;
  expiry_base = pos 3;
  creating = none;
  created = pos 4;
  appending = none;
  appended = pos 5;
}

abbrev asking_pack : PolicyPack
asking_pack = record pack_a { policies = ask_for_shell ∷ [] }

abbrev start : Stores
start = record {
  packs = (upsert none asking_pack Packs.new_memory_store).0;
  audits = Audits.new_memory_store;
  approvals = Approvals.new_memory_store;
}

abbrev pub denying : Stores
denying = record start { packs = (upsert none pack_a Packs.new_memory_store).0 }

abbrev pub normal_event : RuntimeEvent
normal_event = record shell_event { schema_version = "runtime_event.v1" }

abbrev engine : Engine
engine = new_engine_from_packs (Packs.with_defaults asking_pack ∷ [])

-- What a run of the service computes with.
service_run : Unit {0}
unfolding evaluate_event evaluate_normal evaluate_approval append_audit conclude choose_engine
    approval_verdict approval_event_matches same_string_set stamped effective_ttl approval_request
    Audits.append Audits.completed Packs.list_enabled Packs.list upsert Packs.assign
    Approvals.create Approvals.completed Approvals.decide Approvals.decide_request get approval_id
    decimal digits_from digit lookup insert values key evaluate applies matches matches_tenant
    match_event_type match_subject_type match_string match_resource match_any_string is_blank
    trim_space equal_fold contains priority new_engine_from_packs inherit normalize validate
    field_errors valid
service_run = tt

pub normal : normalize shell_event ≡ ok normal_event
unfolding service_run
normal = refl

-- A first evaluation asks for an approval, and the second is denied while that is pending.
abbrev waiting : Stores
waiting = (evaluate_event (memory_service (pos 0)) calm shell_event start).0

abbrev named_event : RuntimeEvent
named_event = record shell_event { approval_id = "approval-1" }

abbrev normal_named_event : RuntimeEvent
normal_named_event = record normal_event { approval_id = "approval-1" }

denied_while_pending :
    (evaluate_event (memory_service (pos 0)) calm named_event waiting).1
    ≡ ok (record blank_result {
      decision = decision_deny;
      reason = "approval status is pending";
      audit_id = "audit-2";
      approval_id = "approval-1";
    })
unfolding service_run
denied_while_pending = refl

needs_approval : NeedsApproval (pos 0) calm shell_event normal_event start engine
unfolding service_run
needs_approval = record {
  is_normal = refl;
  unnamed = refl;
  chosen = refl;
  required = refl;
  tenant = ground (arith, eq_iff normal_event.tenant_id "");
  no_nul = omega arith;
  valid = IsValid-new;
  room = omega arith;
  not_cancelled = (refl, refl);
}

evaluate_opens_example :
    (result : EvaluationResult) × Opened
      (pos 0)
      calm
      shell_event
      normal_event
      start
      engine
      (evaluate_event (memory_service (pos 0)) calm shell_event start)
      result
evaluate_opens_example =
    evaluate_opens (pos 0) calm shell_event normal_event start engine needs_approval

abbrev approve : DecisionInput
approve = record {
  status = approval_status_approved;
  decided_by = "boss";
  reason = "ok";
  now = pos 0;
}

abbrev pending_request : ApprovalRequest
pending_request = asked (pos 0) calm shell_event normal_event start engine

pending_is_found : get none "tenant-a" "approval-1" waiting.approvals ≡ ok pending_request
unfolding service_run
pending_is_found = refl

can_approve : CanApprove (pos 9) approve pending_request
unfolding service_run ◌+ℤ◌
can_approve = record { pending = refl; approving = refl; in_time = refl }

named_is_normal : normalize named_event ≡ ok normal_named_event
unfolding service_run
named_is_normal = refl

filled : named_event.approval_id ≢ ""
filled = ground (arith, eq_iff named_event.approval_id "")

same_operation : IsFor pending_request.event normal_named_event
unfolding service_run
same_operation =
    (refl, refl, refl, refl, refl, refl, refl, refl, Perm.refl normal_named_event.data_labels)

approval_releases_example :
    Allows
      (evaluate_event
        (memory_service (pos 0))
        calm
        named_event
        (decided (pos 9) "tenant-a" "approval-1" approve waiting)).1
      pending_request.id
approval_releases_example =
    approval_releases (pos 0) calm (pos 9) "approval-1" approve pending_request waiting named_event
      normal_named_event pending_is_found can_approve named_is_normal filled refl same_operation
      (refl, refl)

evaluate_event-IsLogged_example :
    IsLoggedFor log_of
      (normalize shell_event)
      calm
      start
      (evaluate_event (memory_service (pos 0)) calm shell_event start)
evaluate_event-IsLogged_example =
    evaluate_event-IsLogged log_of (memory_service (pos 0)) audit_store-IsLog
      approval_store-KeepsLog calm shell_event start

abbrev while_pending : EvaluationResult
while_pending = record blank_result {
  decision = decision_deny;
  reason = "approval status is pending";
  audit_id = "audit-2";
  approval_id = "approval-1";
}

approval_gate_example :
    Verdict
      (IsApproved (some approval_store) none (stamped (pos 3) normal_named_event) waiting)
      while_pending.decision
approval_gate_example =
    approval_gate (memory_service (pos 0)) calm named_event normal_named_event waiting while_pending
      named_is_normal filled denied_while_pending

pub denying-IsValid : Packs.Invariant.IsValid denying.packs
denying-IsValid = upsert-IsValid none pack_a Packs.new_memory_store Packs.Invariant.IsValid-new

abbrev pub denial : EvaluationResult
denial = record blank_result {
  decision = decision_deny;
  reason = "matched policy deny";
  matched_policy_ids = "ask" ∷ "deny" ∷ [];
  audit_id = "audit-1";
}

pub denial_returned :
    (evaluate_event (memory_service (pos 0)) calm shell_event denying).1 ≡ ok denial
unfolding service_run
denial_returned = refl

denied_iff_example :
    (denial.decision ≡ decision_deny)
    ↔ ∥ ((pack : PolicyPack) × Denier (stamped (pos 3) normal_event) denying.packs pack) ∥₁
denied_iff_example =
    denied_iff (pos 0) calm shell_event normal_event denying denial denying-IsValid refl normal refl
      denial_returned

abbrev swapped_labels : List String
swapped_labels = "b" ∷ "a" ∷ []

abbrev labels : List String
labels = "a" ∷ "b" ∷ []

same_string_set_iff_example :
    (same_string_set swapped_labels labels ≡ true) ↔ Perm swapped_labels labels
same_string_set_iff_example = same_string_set_iff swapped_labels labels
