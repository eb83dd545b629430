-- ===== src/Runtime/Release.antt =====
-- The service over the in-memory stores: an event is released by the approval of its request.
use agent_secyrity.Prelude.{
  ◌≡◌, ◌≢◌, refl, ap, inl, inr, String, true, false, not, ◌&&◌, none, some, ◌==◌, arith, eq_iff,
  Option-cases,
}
use agent_secyrity.Prelude.Int.{ℤ}
use agent_secyrity.Strings.{Folding}
use agent_secyrity.Maps.{Iteration, lookup, lookup-insert_self}
use agent_secyrity.Keys.{key}
use agent_secyrity.Domain.{
  Time, RuntimeEvent, EvaluationResult, ApprovalRequest, decision_allow, is_zero, after,
  approval_status_pending, approval_status_approved,
}
use agent_secyrity.Domain.Event.{normalize}
use agent_secyrity.Domain.Errors.{Result, ok, err}
use agent_secyrity.Approval.{
  MemoryStore, DecisionInput, decide, decide_request, decision_time, get, found_or_missing,
}
use agent_secyrity.Approval.Life.{decided_as}
use agent_secyrity.Audit.{append}
use agent_secyrity.Runtime.{
  Readings, stamped, evaluate_normal, evaluate_event, evaluate_approval, append_audit,
  approval_verdict, approval_event_matches,
}
use agent_secyrity.Runtime.Gate.{IsFor, approval_event_matches_iff}
use agent_secyrity.Runtime.Memory.{Stores, memory_service}

lookup-of-get :
    (tenant_id id : String) (r : ApprovalRequest) (s : MemoryStore)
    → get none tenant_id id s ≡ ok r
    → lookup (key tenant_id id) s.requests ≡ some r
unfolding get
lookup-of-get tenant_id id r s h = elim (Option-cases (lookup (key tenant_id id) s.requests)) [
  | inl missing ↦ absurd (cc (h, missing))
  | inr (q, found) ↦ cc (h, found)
]

-- A pending request, and an approval of it that comes in time.
pub record CanApprove (clock : Time) (input : DecisionInput) (r : ApprovalRequest) : Type 0 where
  pub pending : r.status ≡ approval_status_pending
  pub approving : input.status ≡ approval_status_approved
  pub in_time :
      (not (is_zero r.expires_at) && after (decision_time input clock) r.expires_at) ≡ false

decided_found :
    (clock : Time) (tenant_id id : String) (input : DecisionInput) (r : ApprovalRequest)
    (s : MemoryStore)
    → get none tenant_id id s ≡ ok r
    → CanApprove clock input r
    → get none tenant_id id (decide none clock tenant_id id input s).0
      ≡ ok (decided_as input (decision_time input clock) r)
unfolding decide decide_request get
decided_found clock tenant_id id input r s found can =
    let approving : (input.status == approval_status_approved) ≡ true =
      ground (arith, eq_iff input.status approval_status_approved, can.approving) in
    let pending : (r.status == approval_status_pending) ≡ true =
      ground (arith, eq_iff r.status approval_status_pending, can.pending) in
    rw (approving, lookup-of-get tenant_id id r s found, pending, can.in_time)
      (ap found_or_missing (lookup-insert_self _ _ s.requests))

-- A result that allows, with the identifier of the request.
abbrev pub Allows : Result EvaluationResult → String → Type 0
Allows (err e) id = ⊥
Allows (ok result) id = (result.decision ≡ decision_allow) × (result.approval_id ≡ id)

-- The stores after Decide.
abbrev pub decided : Time → String → String → DecisionInput → Stores → Stores
decided clock tenant_id id input s = record s {
  approvals = (decide none clock tenant_id id input s.approvals).0;
}

module _ ⦃order : Iteration⦄ ⦃folding : Folding⦄ (ttl : ℤ) (at : Readings) where
  -- Once a pending request is approved in time, the evaluation of an event that names it and is for
  -- the same operation returns allow, provided that no call is cancelled.
  pub approval_releases :
      (clock : Time) (id : String) (input : DecisionInput) (r : ApprovalRequest) (s : Stores)
      (event normal : RuntimeEvent)
      → get none normal.tenant_id id s.approvals ≡ ok r
      → CanApprove clock input r
      → normalize event ≡ ok normal
      → id ≢ ""
      → normal.approval_id ≡ id
      → IsFor r.event normal
      → (at.getting ≡ none) × (at.appending ≡ none)
      → Allows
          (evaluate_event
            (memory_service ttl)
            at
            event
            (decided clock normal.tenant_id id input s)).1
          r.id
  unfolding evaluate_event evaluate_normal evaluate_approval approval_verdict append_audit append
      stamped approval_event_matches
  approval_releases clock id input r s event normal found can is_normal filled named same calm =
      let not_blank : (normal.approval_id == "") ≡ false =
        ground (arith, eq_iff normal.approval_id "") in
      let approved : (input.status == approval_status_approved) ≡ true =
        ground (arith, eq_iff input.status approval_status_approved, can.approving) in
      let matching = (approval_event_matches_iff r.event normal).1 same in
      rw
        (
          is_normal,
          not_blank,
          calm.0,
          named,
          decided_found clock normal.tenant_id id input r s.approvals found can,
          approved,
          matching,
          calm.1,
        )
        (refl, refl)
