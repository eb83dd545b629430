-- ===== src/Policy/Engine/Outcome.antt =====
-- What Engine.Evaluate promises: the matching policies are all named, and the strictest decides.
use agent_secyrity.Prelude.{
  ◌≤◌, ◌≡◌, refl, ap, ◌⊎◌, inl, inr, List, [], ◌∷◌, map, foldl, arith, filter, All, Any, Bool-cases,
}
use agent_secyrity.Prelude.Members.{All-map, Any-map}
use agent_secyrity.Prelude.Int.{pos, ◌≤ℤ◌, ◌<ℤ◌}
use agent_secyrity.Strings.{Folding}
use agent_secyrity.Domain.{RuntimeEvent, Policy, EvaluationResult, decision_allow}
use agent_secyrity.Domain.Decision.{priority, weak_decision, priority-allow}
use agent_secyrity.Policy.Engine.{
  Engine, Best, no_match, reason_of, consider, applies, round, evaluate,
}
use agent_secyrity.Policy.Engine.Order.{
  IsBelow, IsFrom, Unchanged, foldl-Grows, foldl-IsBelow, foldl-IsFrom, ids-foldl, foldl_blank,
}

-- `p` decides among `ps`: the result has its decision and reason, and no policy of `ps` with the
-- same decision has a higher priority.
pub record IsDecidedBy (r : EvaluationResult) (ps : List Policy) (p : Policy) : Type 0 where
  pub decision : r.decision ≡ p.decision
  pub reason : r.reason ≡ reason_of p
  pub highest : All (λ q. q.decision ≡ p.decision → q.priority ≤ℤ p.priority) ps

-- No policy of `ps` decides: each is an `allow` of negative priority or has an unknown decision.
pub record IsDefault (r : EvaluationResult) (ps : List Policy) : Type 0 where
  pub decision : r.decision ≡ decision_allow
  pub reason : r.reason ≡ "no policy matched"
  pub weak :
      All
        (λ q. (priority q.decision ≡ 0) ⊎ ((q.decision ≡ decision_allow) × (q.priority <ℤ pos 0)))
        ps

-- The result of an evaluation in which exactly the policies `ps` match, in this order.
pub record IsOutcome (ps : List Policy) (r : EvaluationResult) : Type 0 where
  pub matched : r.matched_policy_ids ≡ map (λ p. p.id) ps
  pub strictest : All (λ p. priority p.decision ≤ priority r.decision) ps
  pub floor : priority decision_allow ≤ priority r.decision
  pub decided : IsDefault r ps ⊎ Any (IsDecidedBy r ps) ps
  pub no_ids : (r.audit_id ≡ "") × (r.approval_id ≡ "")

highest_of_below :
    (b : Best) (p q : Policy)
    → IsFrom b p
    → IsBelow b q
    → q.decision ≡ p.decision
    → q.priority ≤ℤ p.priority
highest_of_below b p q f below e = ground (arith, ap priority e, ap priority f.0)

weak_of_below :
    (b : Best) (q : Policy)
    → Unchanged no_match b
    → IsBelow b q
    → (priority q.decision ≡ 0) ⊎ ((q.decision ≡ decision_allow) × (q.priority <ℤ pos 0))
weak_of_below b q same below =
    ground (arith, weak_decision q.decision, ap priority same.0, priority-allow)

pub consider-IsOutcome : (ps : List Policy) → IsOutcome ps (foldl consider no_match ps).result
consider-IsOutcome ps =
    let b : Best = foldl consider no_match ps in
    let below : All (IsBelow b) ps = foldl-IsBelow no_match ps in
    record {
      matched = ids-foldl no_match ps;
      strictest = All-map ps (λ p h. omega arith) below;
      floor = omega (arith, foldl-Grows no_match ps);
      decided = elim (foldl-IsFrom no_match ps) [
        | inl same ↦ inl (record {
          decision = same.0;
          reason = same.1;
          weak = All-map ps (λ q h. weak_of_below b q same h) below;
        })
        | inr from ↦ inr (
            Any-map ps
              (λ p f. record {
                decision = f.0;
                reason = f.1;
                highest = All-map ps (λ q h. highest_of_below b p q f h) below;
              })
              from)
      ];
      no_ids = foldl_blank no_match ps refl refl;
    }

module _ ⦃folding : Folding⦄ where
  -- The policies that match the event, in the engine's order.
  abbrev pub applicable : RuntimeEvent → List Policy → List Policy
  applicable e ps = filter (applies e) ps

  foldl-round :
      (e : RuntimeEvent) (b : Best) (ps : List Policy)
      → foldl (round e) b ps ≡ foldl consider b (applicable e ps)
  unfolding round
  foldl-round e b [] = refl
  foldl-round e b (p ∷ ps) = elim (Bool-cases (applies e p)) [
    | inl hit ↦ rw hit (foldl-round e (consider b p) ps)
    | inr miss ↦ rw miss (foldl-round e b ps)
  ]

  -- Evaluate names every enabled policy whose tenant and conditions match, in order; its decision
  -- is at least as strict as each of theirs and as `allow`; and it is the decision of one of them, with the
  -- reason of one whose priority is the highest for that decision, unless each of them is an
  -- `allow` of negative priority or has an unknown decision, where the event is allowed by default.
  pub evaluate-IsOutcome :
      (engine : Engine) (e : RuntimeEvent)
      → IsOutcome (applicable e engine.policies) (evaluate engine e)
  unfolding evaluate
  evaluate-IsOutcome engine e =
      rw (foldl-round e no_match engine.policies, evaluate)
        (consider-IsOutcome (applicable e engine.policies))
