-- ===== src/Runtime/Laws.antt =====
-- What every evaluation leaves in the audit log, over any stores that keep the contracts here.
use mathlib.Core.Path.{subst}
use agent_secyrity.Prelude.{
  ◌≡◌, refl, sym, ap, inl, inr, Option, some, List, [], ◌∷◌, ◌++◌, ◌==◌, Bool-cases, Option-cases,
}
use agent_secyrity.Prelude.Int.{pos}
use agent_secyrity.Strings.{Folding}
use agent_secyrity.Domain.{
  Time, RuntimeEvent, EvaluationResult, AuditRecord, ApprovalRequest, decision_require_approval,
}
use agent_secyrity.Domain.Event.{normalize}
use agent_secyrity.Domain.Errors.{runtime_event_error, Result, ok, err, Context}
use agent_secyrity.Policy.Engine.{Engine, evaluate}
use agent_secyrity.Interfaces.{AuditStore, ApprovalStore}
use agent_secyrity.Runtime.{
  Service, Readings, stamped, append_audit, audited, requested, conclude, choose_engine,
  evaluate_normal, with_engine, evaluate_event, of_normalized,
}

-- What an Append of `r` promises of the log, before and after it.
abbrev pub Appended :
    AuditRecord → List AuditRecord → List AuditRecord → Result AuditRecord → Type 0
Appended r before after (err e) = after ≡ before
Appended r before after (ok q) =
    (after ≡ before ++ q ∷ []) × (q.event ≡ r.event) × (q.result ≡ r.result)

module _ {S : Type 0} where
  -- A store that appends to the log `records`, or fails and leaves it.
  pub record IsLog (store : AuditStore S) (records : S → List AuditRecord) : Type 0 where
    pub appended :
        (ctx : Context) (now : Time) (r : AuditRecord) (s : S)
        → Appended r (records s) (records (store.append ctx now r s).0) (store.append ctx now r s).1

  -- Creating an approval request does not touch the log.
  pub record KeepsLog (store : Option (ApprovalStore S)) (records : S → List AuditRecord)
      : Type 0 where
    pub kept :
        (approvals : ApprovalStore S)
        → store ≡ some approvals
        → (ctx : Context) (now : Time) (r : ApprovalRequest) (s : S)
        → records (approvals.create ctx now r s).0 ≡ records s

-- the record that appendAudit hands over
abbrev entry : RuntimeEvent → EvaluationResult → AuditRecord
entry event result = record { id = ""; recorded_at = pos 0; event = event; result = result }

-- One new record, of this event and of the result that is returned; none on an error.
abbrev pub Logged :
    RuntimeEvent → List AuditRecord → List AuditRecord → Result EvaluationResult → Type 0
Logged event before after (err e) = after ≡ before
Logged event before after (ok result) =
    (q : AuditRecord) × (after ≡ before ++ q ∷ [])
    × (q.event ≡ event)
    × (result ≡ record q.result { audit_id = q.id })

module _ {S : Type 0} (records : S → List AuditRecord) where
  -- A step of the evaluation from one state to a state and a result.
  abbrev pub IsLogged : RuntimeEvent → S → S × Result EvaluationResult → Type 0
  IsLogged event s (s', result) = Logged event (records s) (records s') result

  -- The same for an event that may be refused.
  abbrev pub IsLoggedFor : Result RuntimeEvent → Readings → S → S × Result EvaluationResult → Type 0
  IsLoggedFor (err e) at s (s', result) = (result ≡ err (runtime_event_error e)) × (s' ≡ s)
  IsLoggedFor (ok event) at s (s', result) =
      Logged (stamped at.received event) (records s) (records s') result

  audited-IsLogged :
      (event : RuntimeEvent) (result : EvaluationResult) (s : S) (p : S × Result AuditRecord)
      → Appended (entry event result) (records s) (records p.0) p.1
      → IsLogged event s (audited result p)
  audited-IsLogged event result s (s', err e) h = h
  audited-IsLogged event result s (s', ok q) (grown, same_event, same_result) = (
    q,
    grown,
    same_event,
    ap {A = EvaluationResult} (λ x. record x { audit_id = q.id }) (sym same_result),
  )

  module _ (service : Service S) (log : IsLog service.store records)
      (keeps : KeepsLog service.approval_store records) (at : Readings) where
    append_audit-IsLogged :
        (event : RuntimeEvent) (result : EvaluationResult) (s : S)
        → IsLogged event s (append_audit service.store at event result s)
    unfolding append_audit
    append_audit-IsLogged event result s =
        audited-IsLogged event result s
          (service.store.append at.appending at.appended (entry event result) s)
          (log.appended at.appending at.appended (entry event result) s)

    requested-IsLogged :
        (event : RuntimeEvent) (result : EvaluationResult) (s : S) (p : S × Result ApprovalRequest)
        → records p.0 ≡ records s
        → IsLogged event s (requested service.store at event result p)
    requested-IsLogged event result s (s', err e) h = h
    requested-IsLogged event result s (s', ok request) h =
        let appended =
          append_audit-IsLogged event (record result { approval_id = request.id }) s' in
        subst
          (λ before.
            Logged event before
              (records
                (append_audit service.store at event (record result { approval_id = request.id })
                  s').0)
              (append_audit service.store at event (record result { approval_id = request.id })
                s').1)
          h appended

    conclude-IsLogged :
        (event : RuntimeEvent) (result : EvaluationResult) (s : S)
        → IsLogged event s (conclude service at event result s)
    unfolding conclude
    conclude-IsLogged event result s = elim (Option-cases service.approval_store) [
      | inl nil ↦ rw nil (append_audit-IsLogged event result s)
      | inr (approvals, here) ↦ elim (Bool-cases (result.decision == decision_require_approval)) [
        | inl asks ↦
            rw (here, asks)
              (requested-IsLogged event result s _ (keeps.kept approvals here _ _ _ s))
        | inr settled ↦ rw (here, settled) (append_audit-IsLogged event result s)
      ]
    ]

    module _ ⦃folding : Folding⦄ where
      with_engine-IsLogged :
          (event : RuntimeEvent) (s : S) (engine : Result Engine)
          → IsLogged event s (with_engine service at event s engine)
      with_engine-IsLogged event s (err e) = refl
      with_engine-IsLogged event s (ok engine) = conclude-IsLogged event (evaluate engine event) s

      evaluate_normal-IsLogged :
          (event : RuntimeEvent) (s : S) → IsLogged event s (evaluate_normal service at event s)
      unfolding evaluate_normal
      evaluate_normal-IsLogged event s = elim (Bool-cases (event.approval_id == "")) [
        | inl blank ↦
            rw blank
              (with_engine-IsLogged event s (choose_engine service at.listing event.tenant_id s))
        | inr named ↦ rw named (append_audit-IsLogged event _ s)
      ]

      of_normalized-IsLogged :
          (s : S) (normal : Result RuntimeEvent)
          → IsLoggedFor normal at s (of_normalized service at s normal)
      of_normalized-IsLogged s (err e) = (refl, refl)
      of_normalized-IsLogged s (ok event) = evaluate_normal-IsLogged (stamped at.received event) s

      -- An evaluation that succeeds appends one record to the audit log, of the normalized event with
      -- its timestamp and of the result that is returned, which carries the record's identifier. One
      -- that fails, as it does with an invalid event, leaves the log as it was.
      pub evaluate_event-IsLogged :
          (event : RuntimeEvent) (s : S)
          → IsLoggedFor (normalize event) at s (evaluate_event service at event s)
      unfolding evaluate_event
      evaluate_event-IsLogged event s = of_normalized-IsLogged s (normalize event)
