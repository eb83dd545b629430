-- ===== src/Prelude/Rearranged.antt =====
-- Rearranged lists and filters.
use mathlib.Core.Logic.{∥∥₁_map}
use mathlib.Core.List.{List, [], ◌∷◌, Perm, Permᴰ}
use mathlib.Core.List.Permᴰ
use mathlib.Core.Path.{◌≡◌, refl, sym, ap, ◌∙◌}
use mathlib.Core.Logic.{inl, inr}
use mathlib.Core.Bool.{Bool, ◌&&◌}
use agent_secyrity.Prelude.Tests.{Bool-cases, if◌then◌else◌}
use agent_secyrity.Prelude.Lists.{filter}

module _ {A : Type 0} (p : A → Bool) where
  filter_moved : {xs ys : List A} → Permᴰ xs ys → Permᴰ (filter p xs) (filter p ys)
  filter_moved Permᴰ.nil = Permᴰ.nil
  filter_moved (Permᴰ.cons {a} {b} e d) = elim (Bool-cases (p a)) [
    | inl hit ↦ rw (hit, ap p (sym e) ∙ hit) (Permᴰ.cons e (filter_moved d))
    | inr miss ↦ rw (miss, ap p (sym e) ∙ miss) (filter_moved d)
  ]
  filter_moved (Permᴰ.swap {a} {b} {a'} {b'} {l} e f) = elim (Bool-cases (p a)) [
    | inl hit ↦ elim (Bool-cases (p b)) [
      | inl hit' ↦ rw (hit, ap p (sym e) ∙ hit, hit', ap p (sym f) ∙ hit') (Permᴰ.swap e f)
      | inr miss ↦
          rw (hit, ap p (sym e) ∙ hit, miss, ap p (sym f) ∙ miss)
            (Permᴰ.cons e (Permᴰ.refl (filter p l)))
    ]
    | inr miss ↦ elim (Bool-cases (p b)) [
      | inl hit ↦
          rw (miss, ap p (sym e) ∙ miss, hit, ap p (sym f) ∙ hit)
            (Permᴰ.cons f (Permᴰ.refl (filter p l)))
      | inr miss' ↦
          rw (miss, ap p (sym e) ∙ miss, miss', ap p (sym f) ∙ miss') (Permᴰ.refl (filter p l))
    ]
  ]
  filter_moved (Permᴰ.trans d d') = Permᴰ.trans (filter_moved d) (filter_moved d')

  pub filter-perm : {xs ys : List A} → Perm xs ys → Perm (filter p xs) (filter p ys)
  filter-perm {xs} {ys} h = ∥∥₁_map {B = Permᴰ (filter p xs) (filter p ys)} h filter_moved

module _ {A : Type 0} (p q : A → Bool) where
  -- Two filters in turn are one.
  pub filter-filter : (xs : List A) → filter q (filter p xs) ≡ filter (λ x. p x && q x) xs
  filter-filter [] = refl
  filter-filter (x ∷ xs) = elim (Bool-cases (p x)) [
    | inl hit ↦ rw hit (ap (λ ys. if q x then x ∷ ys else ys) (filter-filter xs))
    | inr miss ↦ rw miss (filter-filter xs)
  ]
