-- ===== src/Policy/Engine/Hits.antt =====
-- The loop of Evaluate, from the answers of the test that skips policies.
use agent_secyrity.Prelude.{
  ◌≡◌, refl, Bool, true, false, ◌&&◌, List, [], ◌∷◌, map, foldl, arith, if◌then◌else◌,
}
use agent_secyrity.Strings.{Folding}
use agent_secyrity.Domain.{RuntimeEvent, Policy, Decision}
use agent_secyrity.Policy.Engine.{
  Best, new_engine, no_match, should_replace, reason_of, consider, applies, round, evaluate,
}

-- The decision of the loop where `hits` says which policies match.
unfoldable pub verdict : Best → List Policy → List Bool → Decision
unfolding consider should_replace reason_of
verdict b (p ∷ ps) (hit ∷ hits) = verdict (if hit then consider b p else b) ps hits
verdict b _ _ = b.result.decision

-- A property of both truth values, as a test.
abbrev pub both : (Bool → Bool) → Bool
both p = p true && p false

pub both_sound : (p : Bool → Bool) → both p ≡ true → (b : Bool) → p b ≡ true
both_sound p h true = ground arith
both_sound p h false = ground arith

module _ ⦃folding : Folding⦄ where
  foldl-verdict :
      (e : RuntimeEvent) (b : Best) (ps : List Policy)
      → (foldl (round e) b ps).result.decision ≡ verdict b ps (map (applies e) ps)
  unfolding round verdict
  foldl-verdict e b [] = refl
  foldl-verdict e b (p ∷ ps) = foldl-verdict e (round e b p) ps

  pub evaluate-verdict :
      (e : RuntimeEvent) (ps : List Policy)
      → (evaluate (new_engine ps) e).decision ≡ verdict no_match ps (map (applies e) ps)
  unfolding evaluate
  evaluate-verdict e ps = foldl-verdict e no_match ps
