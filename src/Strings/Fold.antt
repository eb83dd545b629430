-- ===== src/Strings/Fold.antt =====
-- strings.EqualFold: equality under Unicode simple case folding. Go generates the table of
-- unicode.SimpleFold; it is a parameter, and only the ASCII letters are folded here by definition.
use Prim.Native.Char.{code}
use Prim.Native.String.{[], ◌∷◌}
use agent_secyrity.Prelude.{
  ℕ, ◌+◌, String, ◌≡◌, Bool, true, false, ◌&&◌, arith, ltb, leb, nat_eq, if◌then◌else◌,
}

-- `representative c` is one code point for all those that unicode.SimpleFold leads to from `c`,
-- the lower case ASCII letter where there is one. It is asked for the code points from 128.
pub record Folding : Type 0 where
  pub representative : ℕ → ℕ

module _ ⦃folding : Folding⦄ where
  unfoldable pub fold_rune : ℕ → ℕ
  fold_rune c =
      if ltb c 128 then if leb 65 c && leb c 90 then c + 32 else c else folding.representative c

  unfoldable pub equal_fold : String → String → Bool
  unfolding fold_rune
  equal_fold [] [] = true
  equal_fold [] (_ ∷ _) = false
  equal_fold (_ ∷ _) [] = false
  equal_fold (c ∷ s) (d ∷ t) = nat_eq (fold_rune (code c)) (fold_rune (code d)) && equal_fold s t

  pub equal_fold_refl : (s : String) → equal_fold s s ≡ true
  unfolding equal_fold
  equal_fold_refl [] = ground arith
  equal_fold_refl (c ∷ s) = ground (arith, equal_fold_refl s)

  pub equal_fold_symm : (s t : String) → equal_fold s t ≡ true → equal_fold t s ≡ true
  unfolding equal_fold
  equal_fold_symm [] [] h = h
  equal_fold_symm [] (_ ∷ _) h = h
  equal_fold_symm (_ ∷ _) [] h = h
  equal_fold_symm (c ∷ s) (d ∷ t) h = ground (arith, equal_fold_symm s t)

  pub equal_fold_trans :
      (s t u : String) → equal_fold s t ≡ true → equal_fold t u ≡ true → equal_fold s u ≡ true
  unfolding equal_fold
  equal_fold_trans [] [] u h k = k
  equal_fold_trans (c ∷ s) (d ∷ t) (e ∷ u) h k = ground (arith, equal_fold_trans s t u)
  equal_fold_trans [] (_ ∷ _) u h k = ground arith
  equal_fold_trans (_ ∷ _) [] u h k = ground arith
  equal_fold_trans (c ∷ s) (d ∷ t) [] h k = k
