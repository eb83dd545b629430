-- ===== src/Runtime/Gate.antt =====
-- An event that names an approval: evaluateApproval of internal/runtime/service.go.
use mathlib.Core.List.{Perm}
use agent_secyrity.Prelude.{
  ◌≡◌, ◌≢◌, ◌↔◌, ◌⊎◌, inl, inr, refl, true, false, Option, none, some, ◌==◌, arith, eq_iff,
  Bool-cases,
}
use agent_secyrity.Strings.{Folding}
use agent_secyrity.Domain.{
  RuntimeEvent, Decision, EvaluationResult, ApprovalRequest, AuditRecord, decision_allow,
  decision_deny, approval_status_approved,
}
use agent_secyrity.Domain.Event.{normalize}
use agent_secyrity.Domain.Errors.{Result, ok, err, Context}
use agent_secyrity.Interfaces.{ApprovalStore}
use agent_secyrity.Runtime.{
  Service, Readings, approval_event_matches, approval_verdict, evaluate_approval, evaluate_normal,
  append_audit, audited, evaluate_approval, evaluate_event, stamped,
}
use agent_secyrity.Runtime.Labels.{same_string_set_iff}

-- The request was made for an event like this one: the identifiers, the operation, and the labels in
-- some order. The input, the output and the intent are not compared.
abbrev pub IsFor : RuntimeEvent → RuntimeEvent → Type 0
IsFor approved actual =
    (approved.tenant_id ≡ actual.tenant_id)
    × (approved.agent_id ≡ actual.agent_id)
    × (approved.user_id ≡ actual.user_id)
    × (approved.task_id ≡ actual.task_id)
    × (approved.event_type ≡ actual.event_type)
    × (approved.tool_name ≡ actual.tool_name)
    × (approved.resource ≡ actual.resource)
    × (approved.action ≡ actual.action)
    × Perm approved.data_labels actual.data_labels

-- The test accepts exactly the events with the same identifiers and the same operation whose labels
-- are a rearrangement of the labels of the approved one.
pub approval_event_matches_iff :
    (approved actual : RuntimeEvent)
    → (approval_event_matches approved actual ≡ true) ↔ IsFor approved actual
unfolding approval_event_matches
approval_event_matches_iff approved actual = ground (
  arith,
  eq_iff approved.tenant_id actual.tenant_id,
  eq_iff approved.agent_id actual.agent_id,
  eq_iff approved.user_id actual.user_id,
  eq_iff approved.task_id actual.task_id,
  eq_iff approved.event_type actual.event_type,
  eq_iff approved.tool_name actual.tool_name,
  eq_iff approved.resource actual.resource,
  eq_iff approved.action actual.action,
  same_string_set_iff approved.data_labels actual.data_labels,
)

-- The answer of the approval store approves the event.
abbrev pub Approves : Result ApprovalRequest → RuntimeEvent → Type 0
Approves (err e) event = ⊥
Approves (ok request) event =
    (request.status ≡ approval_status_approved) × IsFor request.event event

-- A verdict of allow with an approval, or of deny without one.
abbrev pub Verdict : Type 0 → Decision → Type 0
Verdict approved decision =
    ((decision ≡ decision_allow) × approved) ⊎ ((decision ≡ decision_deny) × (approved → ⊥))

approval_verdict-Verdict :
    (event : RuntimeEvent) (answer : Result ApprovalRequest)
    → Verdict (Approves answer event) (approval_verdict event answer).decision
unfolding approval_verdict
approval_verdict-Verdict event (err e) = inr (refl, λ h. h)
approval_verdict-Verdict event (ok request) =
    elim (Bool-cases (request.status == approval_status_approved)) [
      | inr other ↦
          rw other (inr (refl, λ h. ground (arith, eq_iff request.status approval_status_approved)))
      | inl approved ↦ elim (Bool-cases (approval_event_matches request.event event)) [
        | inl same ↦
            rw (approved, same)
              (inl (
                refl,
                (
                  (eq_iff request.status approval_status_approved).0 approved,
                  (approval_event_matches_iff request.event event).0 same,
                ),
              ))
        | inr other ↦
            rw (approved, other)
              (inr
                (refl, λ h. ground (arith, (approval_event_matches_iff request.event event).1 h.1)))
      ]
    ]

module _ {S : Type 0} where
  -- A request in the approval store, under the tenant and the approval of the event, approves it.
  abbrev pub IsApproved : Option (ApprovalStore S) → Context → RuntimeEvent → S → Type 0
  IsApproved none ctx event s = ⊥
  IsApproved (some store) ctx event s =
      Approves (store.get ctx event.tenant_id event.approval_id s) event

  -- evaluateApproval allows exactly the events for which the approval store holds an approved request
  -- of the same operation; every other event it denies.
  pub evaluate_approval-Verdict :
      (store : Option (ApprovalStore S)) (ctx : Context) (event : RuntimeEvent) (s : S)
      → Verdict (IsApproved store ctx event s) (evaluate_approval store ctx event s).decision
  unfolding evaluate_approval
  evaluate_approval-Verdict none ctx event s = inr (refl, λ h. h)
  evaluate_approval-Verdict (some store) ctx event s =
      approval_verdict-Verdict event (store.get ctx event.tenant_id event.approval_id s)

  audited-decision :
      (given result : EvaluationResult) (p : S × Result AuditRecord)
      → (audited given p).1 ≡ ok result
      → result.decision ≡ given.decision
  audited-decision given result (s', err e) h = absurd (cc h)
  audited-decision given result (s', ok q) h = cc h

  pub append_audit-decision :
      (service : Service S) (at : Readings) (event : RuntimeEvent) (given result : EvaluationResult)
      (s : S)
      → (append_audit service.store at event given s).1 ≡ ok result
      → result.decision ≡ given.decision
  unfolding append_audit
  append_audit-decision service at event given result s h = audited-decision given result _ h

  module _ ⦃folding : Folding⦄ where
    -- An evaluation of an event with an approval identifier that returns a result allows the event
    -- exactly if the approval store holds an approved request of the same operation under the event's
    -- tenant and that identifier, and denies it otherwise, whatever the policies say.
    pub approval_gate :
        (service : Service S) (at : Readings) (event normal : RuntimeEvent) (s : S)
        (result : EvaluationResult)
        → normalize event ≡ ok normal
        → normal.approval_id ≢ ""
        → (evaluate_event service at event s).1 ≡ ok result
        → Verdict
            (IsApproved service.approval_store at.getting (stamped at.received normal) s)
            result.decision
    unfolding evaluate_event evaluate_normal stamped
    approval_gate service at event normal s result is_normal named returned =
        let no_blank : (normal.approval_id == "") ≡ false =
          ground (arith, eq_iff normal.approval_id "") in
        let same =
          append_audit-decision service at (stamped at.received normal) _ result s
            (rw (is_normal, no_blank) at returned) in
        rw same (
          evaluate_approval-Verdict service.approval_store at.getting (stamped at.received normal)
            s)
