-- ===== src/Policy/Packs/Order.antt =====
-- The order of the packs does not decide.
use mathlib.Core.Logic.{∥∥₁_elim}
use mathlib.Core.List.{append_assoc, perm_append_comm, Perm, Permᴰ}
use mathlib.Core.List.Perm
use agent_secyrity.Prelude.{
  ◌≡◌, refl, sym, List, [], ◌∷◌, ◌++◌, map, not, Bool-cases, inl, inr, if◌then◌else◌,
}
use agent_secyrity.Strings.{Folding}
use agent_secyrity.Domain.{RuntimeEvent, Policy, PolicyPack}
use agent_secyrity.Policy.Engine.{evaluate}
use agent_secyrity.Policy.Engine.Laws.{decision_perm}
use agent_secyrity.Policy.Packs.{inherit, policies_of_packs, new_engine_from_packs}

-- What one pack adds to the policies.
abbrev share : PolicyPack → List Policy
share pack = if not pack.enabled then [] else map (inherit pack) pack.policies

policies-cons :
    (pack : PolicyPack) (packs : List PolicyPack)
    → policies_of_packs (pack ∷ packs) ≡ share pack ++ policies_of_packs packs
unfolding policies_of_packs
policies-cons pack packs = elim (Bool-cases (not pack.enabled)) [
  | inl off ↦ rw off refl
  | inr on ↦ rw on refl
]

policies_moved :
    {ps qs : List PolicyPack} → Permᴰ ps qs → Perm (policies_of_packs ps) (policies_of_packs qs)
policies_moved Permᴰ.nil = Perm.refl _
policies_moved (Permᴰ.cons {a} {b} {l₁} {l₂} e d) =
    rw (policies-cons a l₁, policies-cons b l₂, e) (Perm.append_left (share b) (policies_moved d))
policies_moved (Permᴰ.swap {a} {b} {a'} {b'} {l} e f) =
    rw
      (
        policies-cons a (b ∷ l),
        policies-cons b l,
        policies-cons a' (b' ∷ l),
        policies-cons b' l,
        e,
        f,
        sym (append_assoc (share b') (share a') (policies_of_packs l)),
        sym (append_assoc (share a') (share b') (policies_of_packs l)),
      )
      (Perm.append_right (policies_of_packs l) (perm_append_comm (share b') (share a')))
policies_moved (Permᴰ.trans d d') = Perm.trans (policies_moved d) (policies_moved d')

module _ ⦃folding : Folding⦄ where
  -- Engines from the same packs in another order decide every event alike.
  pub packs_decision_perm :
      (event : RuntimeEvent) (ps qs : List PolicyPack)
      → Perm ps qs
      → (evaluate (new_engine_from_packs ps) event).decision
        ≡ (evaluate (new_engine_from_packs qs) event).decision
  unfolding new_engine_from_packs
  packs_decision_perm event ps qs h =
      decision_perm event (policies_of_packs ps) (policies_of_packs qs)
        (∥∥₁_elim h squash₁ policies_moved)
