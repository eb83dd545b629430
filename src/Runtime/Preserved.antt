-- ===== src/Runtime/Preserved.antt =====
-- What an evaluation keeps: a property of the stores that Append and Create keep.
use agent_secyrity.Prelude.{◌≡◌, sym, inl, inr, String, some, ◌==◌, arith, Bool-cases, Option-cases}
use mathlib.Core.Path.{subst}
use agent_secyrity.Strings.{Folding}
use agent_secyrity.Domain.{
  Time, RuntimeEvent, EvaluationResult, ApprovalRequest, AuditRecord, decision_require_approval,
}
use agent_secyrity.Domain.Event.{with_schema_version}
use agent_secyrity.Domain.Event.Laws.{normalize-cases}
use agent_secyrity.Domain.Errors.{Result, ok, err, Context}
use agent_secyrity.Interfaces.{ApprovalStore}
use agent_secyrity.Policy.Engine.{Engine, evaluate}
use agent_secyrity.Runtime.{
  Service, Readings, stamped, approval_request, audited, append_audit, requested, conclude,
  with_engine, evaluate_normal, evaluate_event,
}

pub arrived-tenant :
    (now : Time) (event : RuntimeEvent)
    → (stamped now (with_schema_version event)).tenant_id ≡ event.tenant_id
unfolding stamped with_schema_version
arrived-tenant now event = ground arith

module _ {S : Type 0} (service : Service S) (Holds : S → Type 0) (Fits : String → Type 0) where
  -- Append keeps the property, and so does Create of a request of a fitting tenant.
  pub record IsKept : Type 0 where
    pub appended :
        (ctx : Context) (now : Time) (r : AuditRecord) (s : S)
        → Holds s
        → Holds (service.store.append ctx now r s).0
    pub created :
        (store : ApprovalStore S) (ctx : Context) (now : Time) (r : ApprovalRequest) (s : S)
        → service.approval_store ≡ some store
        → Fits r.tenant_id
        → Holds s
        → Holds (store.create ctx now r s).0

  module _ (kept : IsKept) (at : Readings) where
    audited-Holds :
        (result : EvaluationResult) (p : S × Result AuditRecord)
        → Holds p.0
        → Holds (audited result p).0
    audited-Holds result (s, ok r) h = h
    audited-Holds result (s, err e) h = h

    append_audit-Holds :
        (event : RuntimeEvent) (result : EvaluationResult) (s : S)
        → Holds s
        → Holds (append_audit service.store at event result s).0
    unfolding append_audit
    append_audit-Holds event result s h =
        audited-Holds result _ (kept.appended at.appending at.appended _ s h)

    requested-Holds :
        (event : RuntimeEvent) (result : EvaluationResult) (p : S × Result ApprovalRequest)
        → Holds p.0
        → Holds (requested service.store at event result p).0
    requested-Holds event result (s, ok r) h = append_audit-Holds event _ s h
    requested-Holds event result (s, err e) h = h

    conclude-Holds :
        (event : RuntimeEvent) (result : EvaluationResult) (s : S)
        → Fits event.tenant_id
        → Holds s
        → Holds (conclude service at event result s).0
    unfolding conclude approval_request
    conclude-Holds event result s fits h = elim (Option-cases service.approval_store) [
      | inl nil ↦ rw nil (append_audit-Holds event result s h)
      | inr (store, here) ↦ elim (Bool-cases (result.decision == decision_require_approval)) [
        | inl asks ↦
            rw (here, asks)
              (requested-Holds event result _ (
                kept.created store at.creating at.created
                  (approval_request service.approval_ttl at.expiry_base event result) s here fits
                  h))
        | inr settled ↦ rw (here, settled) (append_audit-Holds event result s h)
      ]
    ]

    module _ ⦃folding : Folding⦄ where
      with_engine-Holds :
          (event : RuntimeEvent) (s : S) (engine : Result Engine)
          → Fits event.tenant_id
          → Holds s
          → Holds (with_engine service at event s engine).0
      with_engine-Holds event s (ok engine) fits h =
          conclude-Holds event (evaluate engine event) s fits h
      with_engine-Holds event s (err e) fits h = h

      evaluate_normal-Holds :
          (event : RuntimeEvent) (s : S)
          → Fits event.tenant_id
          → Holds s
          → Holds (evaluate_normal service at event s).0
      unfolding evaluate_normal
      evaluate_normal-Holds event s fits h = elim (Bool-cases (event.approval_id == "")) [
        | inl unnamed ↦ rw unnamed (with_engine-Holds event s _ fits h)
        | inr named ↦ rw named (append_audit-Holds event _ s h)
      ]

      -- An evaluation of an event of a fitting tenant keeps the property, whatever it returns.
      pub evaluate_event-Holds :
          (event : RuntimeEvent) (s : S)
          → Fits event.tenant_id
          → Holds s
          → Holds (evaluate_event service at event s).0
      unfolding evaluate_event
      evaluate_event-Holds event s fits h = elim (normalize-cases event) [
        | inr (v, found, invalid) ↦ rw invalid h
        | inl valid ↦ rw valid (
            evaluate_normal-Holds (stamped at.received (with_schema_version event)) s
              (subst Fits (sym (arrived-tenant at.received event)) fits) h)
      ]
