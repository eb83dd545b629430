-- ===== src/Numbering.antt =====
-- Identifiers that a counter numbers: the names of 1 to n, and lists of which an element changes
-- its place.
use mathlib.Core.List.{
  Perm, Mem, Nodup, Nodup-nil, Nodup-cons, not-mem-nil, perm_append_singleton, perm_middle,
  eq-or-mem_of_mem-cons,
}
use mathlib.Core.List.Perm
use mathlib.Core.Logic.Or
use mathlib.Core.HLevel.{⊥_prop}
use agent_secyrity.Prelude.{ℕ, zero, suc, ◌^◌, ◌<◌, String, ◌≡◌, List, [], ◌∷◌, ◌++◌, arith}

module _ {A : Type 0} where
  -- An element that leaves one list for the end of another.
  pub perm_commit :
      (r : A) (before after rest : List A)
      → Perm ((before ++ after) ++ (rest ++ r ∷ [])) ((before ++ r ∷ after) ++ rest)
  perm_commit r before after rest =
      Perm.trans (Perm.append_left (before ++ after) (perm_append_singleton r rest)) (
        Perm.trans (perm_middle (before ++ after) rest)
          (Perm.symm (Perm.append_right rest (perm_middle before after))))

module _ (name : ℕ → String) where
  -- the names of n, …, 1
  abbrev pub identifiers : ℕ → List String
  identifiers zero = []
  identifiers (suc n) = name (suc n) ∷ identifiers n

  module _ (injective : (n m : ℕ) → n < 2 ^ 64 → m < 2 ^ 64 → name n ≡ name m → n ≡ m) where
    not-mem-identifiers : (k n : ℕ) → n < k → k < 2 ^ 64 → ¬ Mem (name k) (identifiers n)
    not-mem-identifiers k zero less small m = not-mem-nil m
    not-mem-identifiers k (suc n) less small m =
        Or.elim ⊥_prop (eq-or-mem_of_mem-cons m)
          (λ e. absurd (omega (arith, less, injective k (suc n) small (omega arith) e)))
          (not-mem-identifiers k n (omega arith) small)

    pub Nodup-identifiers : (n : ℕ) → n < 2 ^ 64 → Nodup (identifiers n)
    Nodup-identifiers zero small = Nodup-nil
    Nodup-identifiers (suc n) small =
        Nodup-cons.1
          (not-mem-identifiers (suc n) n (omega arith) small, Nodup-identifiers n (omega arith))
