-- ===== src/Policy/Engine/Order.antt =====
-- The order in which the engine prefers decisions: the decision's priority first, then the
-- policy's. One round of its loop takes the greater of the two.
use mathlib.Core.List.{append-nil, append_assoc}
use agent_secyrity.Prelude.{
  sym, ◌<◌, ◌≡◌, refl, ◌⊎◌, inl, inr, List, [], ◌∷◌, ◌++◌, map, foldl, arith, All, Any,
}
use agent_secyrity.Prelude.Int.{ℤ, ◌≤ℤ◌}
use agent_secyrity.Domain.{Policy, Decision}
use agent_secyrity.Domain.Decision.{priority}
use agent_secyrity.Policy.Engine.{Best, should_replace, reason_of, consider}

abbrev pub Preferred : Decision → ℤ → Decision → ℤ → Type 0
Preferred d p d' p' = (priority d < priority d') ⊎ ((priority d ≡ priority d') × (p ≤ℤ p'))

-- A policy is at most the current best.
abbrev pub IsBelow : Best → Policy → Type 0
IsBelow b p = Preferred p.decision p.priority b.result.decision b.policy_priority

abbrev pub Grows : Best → Best → Type 0
Grows b b' = Preferred b.result.decision b.policy_priority b'.result.decision b'.policy_priority

Grows-trans : (a b c : Best) → Grows a b → Grows b c → Grows a c
Grows-trans a b c h k = omega arith

IsBelow-Grows : (a b : Best) (p : Policy) → IsBelow a p → Grows a b → IsBelow b p
IsBelow-Grows a b p h k = omega arith

consider-Grows : (b : Best) (p : Policy) → Grows b (consider b p)
unfolding consider should_replace
consider-Grows b p = ground arith

consider-IsBelow : (b : Best) (p : Policy) → IsBelow (consider b p) p
unfolding consider should_replace
consider-IsBelow b p = ground arith

pub foldl-Grows : (b : Best) (ps : List Policy) → Grows b (foldl consider b ps)
foldl-Grows b [] = omega arith
foldl-Grows b (p ∷ ps) =
    Grows-trans b (consider b p) (foldl consider (consider b p) ps) (consider-Grows b p)
      (foldl-Grows (consider b p) ps)

pub foldl-IsBelow : (b : Best) (ps : List Policy) → All (IsBelow (foldl consider b ps)) ps
foldl-IsBelow b [] = tt
foldl-IsBelow b (p ∷ ps) = (
  IsBelow-Grows (consider b p) (foldl consider (consider b p) ps) p (consider-IsBelow b p)
      (foldl-Grows (consider b p) ps),
  foldl-IsBelow (consider b p) ps,
)

-- The decision, the reason and the priority are a policy's.
abbrev pub IsFrom : Best → Policy → Type 0
IsFrom b p =
    (b.result.decision ≡ p.decision)
    × (b.result.reason ≡ reason_of p)
    × (b.policy_priority ≡ p.priority)

abbrev pub Unchanged : Best → Best → Type 0
Unchanged b b' =
    (b'.result.decision ≡ b.result.decision)
    × (b'.result.reason ≡ b.result.reason)
    × (b'.policy_priority ≡ b.policy_priority)

consider-IsFrom : (b : Best) (p : Policy) → Unchanged b (consider b p) ⊎ IsFrom (consider b p) p
unfolding consider
consider-IsFrom b p = ground arith

pub foldl-IsFrom :
    (b : Best) (ps : List Policy)
    → Unchanged b (foldl consider b ps) ⊎ Any (IsFrom (foldl consider b ps)) ps
foldl-IsFrom b [] = inl (refl, refl, refl)
foldl-IsFrom b (p ∷ ps) = elim (foldl-IsFrom (consider b p) ps) [
  | inl same ↦ ground (arith, consider-IsFrom b p)
  | inr later ↦ inr (inr later)
]

consider_ids :
    (b : Best) (p : Policy)
    → (consider b p).result.matched_policy_ids ≡ b.result.matched_policy_ids ++ p.id ∷ []
unfolding consider
consider_ids b p = ground arith

pub ids-foldl :
    (b : Best) (ps : List Policy)
    → (foldl consider b ps).result.matched_policy_ids
      ≡ b.result.matched_policy_ids ++ map (λ p. p.id) ps
ids-foldl b [] = sym (append-nil b.result.matched_policy_ids)
ids-foldl b (p ∷ ps) = rw (ids-foldl (consider b p) ps, consider_ids b p) (rw append_assoc)

-- The audit and approval identifiers are left to the service.
pub foldl_blank :
    (b : Best) (ps : List Policy)
    → b.result.audit_id ≡ ""
    → b.result.approval_id ≡ ""
    → ((foldl consider b ps).result.audit_id ≡ "") × ((foldl consider b ps).result.approval_id ≡ "")
unfolding consider
foldl_blank b [] h k = (h, k)
foldl_blank b (p ∷ ps) h k = foldl_blank (consider b p) ps (ground arith) (ground arith)
