-- ===== src/Runtime/Total.antt =====
-- The service over the in-memory stores answers every valid event.
use agent_secyrity.Prelude.{◌≡◌, ◌≢◌, refl, ap, ◌∙◌, inl, inr, true, none, ◌==◌, eq_iff, Bool-cases}
use agent_secyrity.Prelude.Int.{ℤ}
use agent_secyrity.Strings.{Folding, is_blank}
use agent_secyrity.Maps.{Iteration}
use agent_secyrity.Domain.{
  Time, RuntimeEvent, EvaluationResult, ApprovalRequest, decision_require_approval,
}
use agent_secyrity.Domain.Event.Laws.{IsComplete, normalize-eq-ok, current}
use agent_secyrity.Domain.Errors.{Result, ok, err}
use agent_secyrity.Approval.{MemoryStore, create}
use agent_secyrity.Audit.{append}
use agent_secyrity.Runtime.{
  Readings, stamped, approval_request, append_audit, requested, conclude, choose_engine,
  evaluate_normal, evaluate_event,
}
use agent_secyrity.Runtime.Memory.{Stores, memory_service, audit_store}
use agent_secyrity.Runtime.Denial.{choose_engine-enabled}

-- No call of the evaluation finds the context cancelled.
pub record IsCalm (at : Readings) : Type 0 where
  pub listing : at.listing ≡ none
  pub creating : at.creating ≡ none
  pub appending : at.appending ≡ none

abbrev pub IsOk : {A : Type 0} → Result A → Type 0
IsOk (ok a) = Unit
IsOk (err e) = ⊥

append_audit-IsOk :
    (at : Readings) (event : RuntimeEvent) (result : EvaluationResult) (s : Stores)
    → at.appending ≡ none
    → IsOk (append_audit audit_store at event result s).1
unfolding append_audit append
append_audit-IsOk at event result s calm = rw calm tt

create-IsOk :
    (now : Time) (r : ApprovalRequest) (s : MemoryStore)
    → r.tenant_id ≢ ""
    → IsOk (create none now r s).1
unfolding create
create-IsOk now r s named = elim (Bool-cases (r.tenant_id == "")) [
  | inl blank ↦ absurd (named ((eq_iff r.tenant_id "").0 blank))
  | inr filled ↦ rw filled tt
]

requested-IsOk :
    (at : Readings) (event : RuntimeEvent) (result : EvaluationResult)
    (p : Stores × Result ApprovalRequest)
    → at.appending ≡ none
    → IsOk p.1
    → IsOk (requested audit_store at event result p).1
requested-IsOk at event result (s, err e) calm h = absurd h
requested-IsOk at event result (s, ok r) calm h = append_audit-IsOk at event _ s calm

blank_empty : is_blank "" ≡ true
unfolding is_blank
blank_empty = refl

named_of_complete : (event : RuntimeEvent) → IsComplete event → event.tenant_id ≢ ""
named_of_complete event c e = cc (ap is_blank e, blank_empty, c.tenant_id)

module _ ⦃order : Iteration⦄ ⦃folding : Folding⦄ (ttl : ℤ) (at : Readings) (calm : IsCalm at) where
  conclude-IsOk :
      (event : RuntimeEvent) (result : EvaluationResult) (s : Stores)
      → event.tenant_id ≢ ""
      → IsOk (conclude (memory_service ttl) at event result s).1
  unfolding conclude approval_request
  conclude-IsOk event result s named =
      elim (Bool-cases (result.decision == decision_require_approval)) [
        | inl asks ↦ rw asks (
            requested-IsOk at event result _ calm.appending (
              rw calm.creating (
                create-IsOk at.created (approval_request ttl at.expiry_base event result)
                  s.approvals named)))
        | inr settled ↦ rw settled (append_audit-IsOk at event result s calm.appending)
      ]

  evaluate_normal-IsOk :
      (event : RuntimeEvent) (s : Stores)
      → event.tenant_id ≢ ""
      → IsOk (evaluate_normal (memory_service ttl) at event s).1
  unfolding evaluate_normal
  evaluate_normal-IsOk event s named = elim (Bool-cases (event.approval_id == "")) [
    | inr names ↦ rw names (append_audit-IsOk at event _ s calm.appending)
    | inl unnamed ↦
        let chosen =
          ap (λ ctx. choose_engine (memory_service ttl) ctx event.tenant_id s) calm.listing
          ∙ choose_engine-enabled ttl event.tenant_id s in
        rw (unnamed, chosen) (conclude-IsOk event _ s named)
  ]

  -- Evaluate of a complete event returns a result, unless a call finds its context cancelled.
  pub evaluate_event-IsOk :
      (event : RuntimeEvent) (s : Stores)
      → IsComplete event
      → IsOk (evaluate_event (memory_service ttl) at event s).1
  unfolding evaluate_event stamped
  evaluate_event-IsOk event s complete = rw (normalize-eq-ok event complete) (
      evaluate_normal-IsOk (stamped at.received (current event)) s
        (named_of_complete event complete))
