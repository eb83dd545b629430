-- ===== src/Policy/Engine/Laws.antt =====
-- Consequences for the decision: it does not depend on the order of the policies, and `deny` wins.
use mathlib.Core.Logic.{∥∥₁_elim}
use mathlib.Core.List.{Memᴰ, Perm}
use mathlib.Core.List.Perm
use native.Mathlib.Bridge.{le_prop}
use agent_secyrity.Prelude.{◌≤◌, ◌≡◌, sym, ap, ◌∙◌, ◌↔◌, ◌⊎◌, inl, inr, true, List, arith, Any}
use agent_secyrity.Prelude.Members.{
  All-member, member-Any, Any-member, member-filter, member_of_filter,
}
use agent_secyrity.Strings.{Folding}
use agent_secyrity.Domain.{RuntimeEvent, Policy, Decision, decision_allow, decision_deny}
use agent_secyrity.Domain.Decision.{
  priority, priority_injective, priority-allow, priority-deny, priority_of_deny,
}
use agent_secyrity.Policy.Engine.{Engine, new_engine, applies, evaluate}
use agent_secyrity.Policy.Engine.Outcome.{IsDecidedBy, applicable, evaluate-IsOutcome}

module _ ⦃folding : Folding⦄ (e : RuntimeEvent) where
  abbrev decision_on : List Policy → Decision
  decision_on ps = (evaluate (new_engine ps) e).decision

  -- at least as strict as any policy that matches
  decision_bound :
      (ps : List Policy) (p : Policy)
      → Memᴰ p ps
      → applies e p ≡ true
      → priority p.decision ≤ priority (decision_on ps)
  decision_bound ps p m h =
      All-member (λ q. priority q.decision ≤ priority (decision_on ps)) (applicable e ps)
        (evaluate-IsOutcome (new_engine ps) e).strictest (member-filter (applies e) ps m h)

  decision_positive : (ps : List Policy) → 100 ≤ priority (decision_on ps)
  decision_positive ps = omega (arith, priority-allow, (evaluate-IsOutcome (new_engine ps) e).floor)

  -- the decision comes from a policy, or it is the default
  decision_source :
      (ps : List Policy)
      → (decision_on ps ≡ decision_allow)
        ⊎ ((p : Policy) × Memᴰ p ps × (applies e p ≡ true) × (decision_on ps ≡ p.decision))
  decision_source ps = elim (evaluate-IsOutcome (new_engine ps) e).decided [
    | inl d ↦ inl d.decision
    | inr from ↦
        let (p, m, d) =
          member-Any (IsDecidedBy (evaluate (new_engine ps) e) (applicable e ps)) (applicable e ps)
            from in
        let (m', h) = member_of_filter (applies e) ps m in inr (p, m', h, d.decision)
  ]

  decision_le :
      (ps qs : List Policy) → Perm ps qs → priority (decision_on ps) ≤ priority (decision_on qs)
  decision_le ps qs perm = elim (decision_source ps) [
    | inl allowed ↦ rw allowed (omega (arith, priority-allow, decision_positive qs))
    | inr (p, m, h, d) ↦
        rw d (∥∥₁_elim ((Perm.mem_iff perm).0 ∣ m ∣₁) le_prop (λ m'. decision_bound qs p m' h))
  ]

  -- The decision of an evaluation does not depend on the order in which the policies are listed.
  pub decision_perm :
      (ps qs : List Policy)
      → Perm ps qs
      → (evaluate (new_engine ps) e).decision ≡ (evaluate (new_engine qs) e).decision
  decision_perm ps qs perm =
      priority_injective (decision_on ps) (decision_on qs) (omega (arith, decision_positive ps))
        (omega (arith, decision_le ps qs perm, decision_le qs ps (Perm.symm perm)))

  -- The decision is `deny` exactly when some policy that matches says `deny`.
  pub deny_iff :
      (engine : Engine)
      → ((evaluate engine e).decision ≡ decision_deny)
        ↔ Any (λ p. (applies e p ≡ true) × (p.decision ≡ decision_deny)) engine.policies
  deny_iff engine = (
    λ d. elim (decision_source engine.policies) [
      | inl allowed ↦
          absurd
            (omega (arith, priority-allow, priority_of_deny, ap priority allowed, ap priority d))
      | inr (p, m, h, same) ↦ Any-member _ engine.policies m (h, sym same ∙ d)
    ],
    λ found.
        let (p, m, hit) = member-Any _ engine.policies found in
        priority-deny _
          (omega (arith, decision_bound engine.policies p m hit.0, ap priority hit.1)),
  )
