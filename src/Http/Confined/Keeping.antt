-- ===== src/Http/Confined/Keeping.antt =====
-- Create, Decide and an evaluation keep the in-memory stores sound.
use agent_secyrity.Prelude.{◌≡◌, sym, ap, ◌∙◌, inl, inr, String, none, some, ◌==◌, Bool-cases}
use mathlib.Core.Path.{subst}
use agent_secyrity.Prelude.Int.{ℤ}
use agent_secyrity.Strings.{Folding}
use agent_secyrity.Maps.{Iteration, lookup, insert_cases}
use agent_secyrity.Keys.{key, HasNoNul}
use agent_secyrity.Domain.{Time, ApprovalRequest}
use agent_secyrity.Domain.Errors.{Context}
use agent_secyrity.Approval.{DecisionInput, create, completed, decide}
use agent_secyrity.Approval.Life.{none_written, step_written, decide-Effect}
use agent_secyrity.Approval.Fresh.{Transition-id}
use agent_secyrity.Runtime.Memory.{Stores, memory_service, approval_store}
use agent_secyrity.Runtime.Preserved.{IsKept, evaluate_event-Holds}
use agent_secyrity.Domain.{RuntimeEvent}
use agent_secyrity.Runtime.{Readings, evaluate_event}
use agent_secyrity.Audit.{append}
use agent_secyrity.Interfaces.{ApprovalStore}
use agent_secyrity.Http.Confined.Sound.{IsSound}

create-IsSound :
    (ctx : Context) (now : Time) (r : ApprovalRequest) (s : Stores)
    → HasNoNul r.tenant_id
    → IsSound s
    → IsSound (record s { approvals = (create ctx now r s.approvals).0 })
unfolding create completed
create-IsSound (some e) now r s plain sound = sound
create-IsSound none now r s plain sound = elim (Bool-cases (r.tenant_id == "")) [
  | inl blank ↦ rw blank sound
  | inr named ↦ rw named (record {
    packs = sound.packs;
    pack_tenants = sound.pack_tenants;
    requests = λ k q h. elim (insert_cases _ k _ q s.approvals.requests h) [
      | inl (at_key, same) ↦
          subst (λ x. (k ≡ key x.tenant_id x.id) × HasNoNul x.tenant_id) same (sym at_key, plain)
      | inr before ↦ sound.requests k q before
    ];
  })
]

pub decide-IsSound :
    (ctx : Context) (now : Time) (t id : String) (input : DecisionInput) (s : Stores)
    → IsSound s
    → IsSound (record s { approvals = (decide ctx now t id input s.approvals).0 })
decide-IsSound ctx now t id input s sound = record {
  packs = sound.packs;
  pack_tenants = sound.pack_tenants;
  requests = λ k q h. elim (decide-Effect ctx now t id input s.approvals) [
    | none_written e ↦ sound.requests k q (ap (λ x. lookup k x.requests) (sym e) ∙ h)
    | step_written old new found step e ↦
        elim (insert_cases (key t id) k new q s.approvals.requests
          (ap (λ x. lookup k x.requests) (sym e) ∙ h)) [
            | inl (at_key, same) ↦
                let (own, named) = sound.requests (key t id) old found in
                let (ids, tenants) = Transition-id _ _ old new step in
                subst (λ x. (k ≡ key x.tenant_id x.id) × HasNoNul x.tenant_id) same
                  (rw (ids, tenants) (sym at_key ∙ own, named))
            | inr before ↦ sound.requests k q before
          ]
  ];
}

module _ ⦃order : Iteration⦄ where
  IsKept-memory : (ttl : ℤ) → IsKept (memory_service ttl) IsSound HasNoNul
  unfolding append
  IsKept-memory ttl = record {
    appended = λ ctx now r s sound. record {
      packs = sound.packs;
      pack_tenants = sound.pack_tenants;
      requests = sound.requests;
    };
    created = λ store ctx now r s is plain sound.
        let same : approval_store ≡ store = cc is in
        subst (λ (a : ApprovalStore Stores). IsSound (a.create ctx now r s).0) same
          (create-IsSound ctx now r s plain sound);
  }

  pub evaluate_event-IsSound :
      ⦃folding : Folding⦄ (ttl : ℤ) (at : Readings) (event : RuntimeEvent) (s : Stores)
      → HasNoNul event.tenant_id
      → IsSound s
      → IsSound (evaluate_event (memory_service ttl) at event s).0
  evaluate_event-IsSound ttl at =
      evaluate_event-Holds (memory_service ttl) IsSound HasNoNul (IsKept-memory ttl) at
