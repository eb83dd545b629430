-- ===== src/Runtime/Denial.antt =====
-- The service over the in-memory stores: which events the stored policy packs deny.
use mathlib.Core.Logic.{∥∥₁_elim}
use agent_secyrity.Prelude.{
  ◌≡◌, ◌↔◌, refl, ap, ◌∙◌, inl, inr, String, Bool, true, none, ◌==◌, arith, eq_iff, Any, Bool-cases,
  Option-cases,
}
use agent_secyrity.Prelude.Int.{ℤ}
use agent_secyrity.Prelude.Members.{member-Any, Any-member}
use agent_secyrity.Strings.{Folding}
use agent_secyrity.Maps.{Iteration}
use agent_secyrity.Domain.{
  RuntimeEvent, PolicyPack, EvaluationResult, ApprovalRequest, decision_deny,
  decision_require_approval,
}
use agent_secyrity.Domain.Event.{normalize}
use agent_secyrity.Domain.Errors.{Result, ok, err, Result-cases}
use agent_secyrity.Policy.Engine.{Engine, applies, evaluate}
use agent_secyrity.Policy.Packs.{inherit, new_engine_from_packs}
use agent_secyrity.Policy.Packs.Laws.{packs_deny_iff}
use agent_secyrity.PolicyPack.{MemoryStore, get, list, list_enabled}
use agent_secyrity.PolicyPack.Invariant.{IsValid}
use agent_secyrity.PolicyPack.Listing.{packs_of, list_enabled_iff}
use agent_secyrity.Runtime.{
  Service, Readings, stamped, choose_engine, conclude, requested, evaluate_normal, evaluate_event,
}
use agent_secyrity.Runtime.Gate.{append_audit-decision}
use agent_secyrity.Runtime.Memory.{Stores, memory_service}

module _ {S : Type 0} (service : Service S) (at : Readings) (event : RuntimeEvent)
    (given result : EvaluationResult) where
  requested-decision :
      (p : S × Result ApprovalRequest)
      → (requested service.store at event given p).1 ≡ ok result
      → result.decision ≡ given.decision
  requested-decision (s, err e) h = absurd (cc h)
  requested-decision (s, ok request) h =
      append_audit-decision service at event (record given { approval_id = request.id }) result s h

  conclude-decision :
      (s : S) → (conclude service at event given s).1 ≡ ok result → result.decision ≡ given.decision
  unfolding conclude
  conclude-decision s h = elim (Option-cases service.approval_store) [
    | inl nil ↦ append_audit-decision service at event given result s (rw nil at h)
    | inr (approvals, here) ↦ elim (Bool-cases (given.decision == decision_require_approval)) [
      | inl asks ↦ requested-decision _ (rw (here, asks) at h)
      | inr settled ↦
          append_audit-decision service at event given result s (rw (here, settled) at h)
    ]
  ]

module _ ⦃folding : Folding⦄ {S : Type 0} (service : Service S) (at : Readings)
    (event normal : RuntimeEvent) (s : S) (result : EvaluationResult)
    (is_normal : normalize event ≡ ok normal) (unnamed : normal.approval_id ≡ "")
    (returned : (evaluate_event service at event s).1 ≡ ok result) where
  -- A result for an event without an approval identifier has the decision of the chosen engine.
  pub decided_by_engine :
      (engine : Engine) × (choose_engine service at.listing normal.tenant_id s ≡ ok engine)
      × (result.decision ≡ (evaluate engine (stamped at.received normal)).decision)
  unfolding evaluate_event evaluate_normal stamped
  decided_by_engine =
      let blank : (normal.approval_id == "") ≡ true =
        ground (arith, eq_iff normal.approval_id "") in
      elim (Result-cases (choose_engine service at.listing normal.tenant_id s)) [
        | inr (e, failing) ↦ absurd (cc (rw (is_normal, blank, failing) at returned))
        | inl (engine, chosen) ↦ (
          engine,
          chosen,
          conclude-decision service at (stamped at.received normal) _ result s
              (rw (is_normal, blank, chosen) at returned),
        )
      ]

module _ ⦃order : Iteration⦄ ⦃folding : Folding⦄ where
  -- A policy of the pack that says deny and, with what it takes over from the pack, matches.
  abbrev pub DeniesIn : RuntimeEvent → PolicyPack → Type 0
  DeniesIn event pack =
      Any (λ q. (applies event (inherit pack q) ≡ true) × (q.decision ≡ decision_deny))
        pack.policies

  -- An enabled pack of the tenant that Get finds and that denies.
  abbrev pub Denier : RuntimeEvent → MemoryStore → PolicyPack → Type 0
  Denier event s pack =
      (pack.enabled ≡ true)
      × (pack.tenant_id ≡ event.tenant_id)
      × (get none pack.tenant_id pack.id s ≡ ok pack)
      × DeniesIn event pack

  pub choose_engine-enabled :
      (ttl : ℤ) (tenant_id : String) (s : Stores)
      → choose_engine (memory_service ttl) none tenant_id s
        ≡ ok (new_engine_from_packs (packs_of (list_enabled none tenant_id s.packs)))
  unfolding choose_engine list_enabled list
  choose_engine-enabled ttl tenant_id s = refl

  Bool_set : IsSet Bool
  Bool_set = hlevel

  pub packs_deny-Denier :
      (event : RuntimeEvent) (s : MemoryStore)
      → IsValid s
      → ((evaluate
            (new_engine_from_packs (packs_of (list_enabled none event.tenant_id s)))
            event).decision
          ≡ decision_deny)
        ↔ ∥ ((pack : PolicyPack) × Denier event s pack) ∥₁
  packs_deny-Denier event s valid =
      let enabled = packs_of (list_enabled none event.tenant_id s) in
      let verdict = (evaluate (new_engine_from_packs enabled) event).decision in
      let found = list_enabled_iff s valid event.tenant_id in
      let denied = packs_deny_iff enabled event in
      (
        λ d.
            let (pack, m, (on, hit)) = member-Any _ enabled (denied.0 d) in
            let (on', tenant, stored) = (found pack).0 ∣ m ∣₁ in
            ∣ (pack, (on', tenant, stored, hit)) ∣₁,
        λ t. (eq_iff verdict decision_deny).0 (
            ∥∥₁_elim t (Bool_set _ _) λ (pack, (on, tenant, stored, hit)).
              ∥∥₁_elim ((found pack).1 (on, tenant, stored)) (Bool_set _ _) λ m.
                (eq_iff verdict decision_deny).1 (denied.1 (Any-member _ enabled m (on, hit)))),
      )

  -- An evaluation of an event without an approval identifier that returns a result denies the event
  -- exactly if a stored and enabled pack of the event's tenant has a policy that says deny and that
  -- matches the event.
  pub denied_iff :
      (ttl : ℤ) (at : Readings) (event normal : RuntimeEvent) (s : Stores)
      (result : EvaluationResult)
      → IsValid s.packs
      → at.listing ≡ none
      → normalize event ≡ ok normal
      → normal.approval_id ≡ ""
      → (evaluate_event (memory_service ttl) at event s).1 ≡ ok result
      → (result.decision ≡ decision_deny)
        ↔ ∥ ((pack : PolicyPack) × Denier (stamped at.received normal) s.packs pack) ∥₁
  unfolding evaluate_event evaluate_normal stamped
  denied_iff ttl at event normal s result valid calm is_normal unnamed returned =
      let arrived = stamped at.received normal in
      let blank : (normal.approval_id == "") ≡ true =
        ground (arith, eq_iff normal.approval_id "") in
      let chosen =
        ap (λ ctx. choose_engine (memory_service ttl) ctx normal.tenant_id s) calm
        ∙ choose_engine-enabled ttl normal.tenant_id s in
      let same =
        conclude-decision (memory_service ttl) at arrived _ result s
          (rw (is_normal, blank, chosen) at returned) in
      rw same (packs_deny-Denier arrived s.packs valid)
