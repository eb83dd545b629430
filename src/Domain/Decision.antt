-- ===== src/Domain/Decision.antt =====
-- Decision.Priority of internal/domain/model.go: how strict a decision is.
use agent_secyrity.Prelude.{ℕ, ◌⊎◌, refl, ◌≤◌, ◌<◌, ◌≡◌, arith, ◌==◌, eq_iff, if◌then◌else◌}
use agent_secyrity.Domain.{
  Decision, decision_allow, decision_record, decision_redact, decision_require_approval,
  decision_deny,
}

unfoldable pub priority : Decision → ℕ
priority d =
    if d == decision_deny
    then 500
    else if d == decision_require_approval
    then 400
    else if d == decision_redact
    then 300
    else if d == decision_record
    then 200
    else if d == decision_allow
    then 100
    else 0

-- Equal positive priorities belong to one decision.
pub priority_injective : (d e : Decision) → 0 < priority d → priority d ≡ priority e → d ≡ e
unfolding priority
priority_injective d e h p = ground (
  arith,
  eq_iff d "deny",
  eq_iff d "require_approval",
  eq_iff d "redact",
  eq_iff d "record",
  eq_iff d "allow",
  eq_iff e "deny",
  eq_iff e "require_approval",
  eq_iff e "redact",
  eq_iff e "record",
  eq_iff e "allow",
)

pub priority-le : (d : Decision) → priority d ≤ 500
unfolding priority
priority-le d = ground arith

-- No decision but `deny` reaches the priority of `deny`.
pub priority-deny : (d : Decision) → priority decision_deny ≤ priority d → d ≡ decision_deny
unfolding priority
priority-deny d h = ground (arith, eq_iff d "deny")

pub priority-allow : priority decision_allow ≡ 100
unfolding priority
priority-allow = refl

-- A decision of at most the priority of `allow` is `allow` or unknown.
pub weak_decision : (d : Decision) → priority d ≤ 100 → (priority d ≡ 0) ⊎ (d ≡ decision_allow)
unfolding priority
weak_decision d h = ground (arith, eq_iff d "allow")

pub priority_of_deny : priority decision_deny ≡ 500
unfolding priority
priority_of_deny = refl
