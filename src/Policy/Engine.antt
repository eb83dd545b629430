-- ===== src/Policy/Engine.antt =====
-- Engine.Evaluate of internal/policy/engine.go.
pub mod Laws
pub mod Hits
pub mod Order
pub mod Outcome
use agent_secyrity.Prelude.{
  ℕ, String, Bool, true, false, not, ◌&&◌, ◌||◌, List, [], ◌∷◌, ◌++◌, foldl, ◌==◌, ltb, nat_eq,
  if◌then◌else◌,
}
use agent_secyrity.Prelude.Int.{ℤ, negsuc, ltb_ℤ}
use agent_secyrity.Strings.{Folding}
use agent_secyrity.Domain.{RuntimeEvent, Policy, EvaluationResult, Decision, decision_allow}
use agent_secyrity.Domain.Decision.{priority}
use agent_secyrity.Policy.Matching.{matches_tenant, matches}
use Prim.Native.String as Text

pub record Engine : Type 0 where
  pub policies : List Policy

-- NewEngine
abbrev pub new_engine : List Policy → Engine
new_engine policies = record { policies = policies }

-- The variables of the loop: `best` and `bestPolicyPriority`.
pub record Best : Type 0 where
  pub result : EvaluationResult
  pub policy_priority : ℤ

abbrev pub no_match : Best
no_match = record {
  result = record {
    decision = decision_allow;
    reason = "no policy matched";
    matched_policy_ids = [];
    audit_id = "";
    approval_id = "";
  };
  policy_priority = negsuc 0;
}

unfoldable pub should_replace : Policy → Decision → ℤ → Bool
should_replace p current current_policy_priority =
    if not (nat_eq (priority p.decision) (priority current))
    then ltb (priority current) (priority p.decision)
    else ltb_ℤ current_policy_priority p.priority

-- the reason of a policy that decides
unfoldable pub reason_of : Policy → String
reason_of p = if p.reason == "" then Text.◌++◌ "matched policy " p.id else p.reason

abbrev with_matched_id : Best → Policy → Best
with_matched_id b p = record b {
  result = record b.result { matched_policy_ids = b.result.matched_policy_ids ++ p.id ∷ [] };
}

abbrev replaced_by : Best → Policy → Best
replaced_by b p = record {
  result = record b.result { decision = p.decision; reason = reason_of p };
  policy_priority = p.priority;
}

-- what a matching policy does to the loop's variables
pub consider : Best → Policy → Best
consider b p =
    let matched = with_matched_id b p in
    if should_replace p b.result.decision b.policy_priority then replaced_by matched p else matched

module _ ⦃folding : Folding⦄ where
  -- the negation of the test that skips a policy
  unfoldable pub applies : RuntimeEvent → Policy → Bool
  applies e p = p.enabled && matches_tenant p e && matches p.conditions e

  pub round : RuntimeEvent → Best → Policy → Best
  unfolding consider
  round e b p = if applies e p then consider b p else b

  unfoldable pub evaluate : Engine → RuntimeEvent → EvaluationResult
  unfolding round should_replace reason_of
  evaluate engine e = (foldl (round e) no_match engine.policies).result
