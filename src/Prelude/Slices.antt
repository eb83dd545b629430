-- ===== src/Prelude/Slices.antt =====
-- Slices of a list: the lemmas on `take` and `drop`.
use agent_secyrity.Prelude.Lists.{length, take, drop, All}
use Prim.Native.Nat.{ℕ, zero, suc, ◌+◌, ◌-◌, ◌≤◌}
use mathlib.Core.Path.{◌≡◌, refl, ap, ◌∙◌}
use mathlib.Core.List.{List, [], ◌∷◌, ◌++◌}
use native.Mathlib.Omega.{arith}

suc-add : (m n : ℕ) → suc (m + n) ≡ suc m + n
suc-add m n = omega arith

module _ {A : Type 0} where
  pub take_all : (n : ℕ) (xs : List A) → length xs ≤ n → take n xs ≡ xs
  unfolding take
  take_all n [] h = refl
  take_all (suc n) (x ∷ xs) h = ap (λ l. x ∷ l) (take_all n xs (omega arith))
  take_all zero (x ∷ xs) h = absurd (omega arith)

  pub drop_all : (n : ℕ) (xs : List A) → length xs ≤ n → drop n xs ≡ []
  unfolding drop
  drop_all n [] h = refl
  drop_all (suc n) (x ∷ xs) h = drop_all n xs (omega arith)
  drop_all zero (x ∷ xs) h = absurd (omega arith)

  pub length-drop : (n : ℕ) (xs : List A) → length (drop n xs) ≡ length xs - n
  unfolding drop
  length-drop n [] = omega arith
  length-drop (suc n) (x ∷ xs) = length-drop n xs ∙ omega arith
  length-drop zero (x ∷ xs) = omega arith

  pub length-take : (n : ℕ) (xs : List A) → length (take n xs) ≤ n
  unfolding take
  length-take n [] = omega arith
  length-take (suc n) (x ∷ xs) = (let rest = length-take n xs in omega arith)
  length-take zero (x ∷ xs) = omega arith

  pub take-take : (m n : ℕ) (xs : List A) → take m xs ++ take n (drop m xs) ≡ take (m + n) xs
  unfolding take drop
  take-take m n [] = refl
  take-take (suc m) n (x ∷ xs) =
      ap (λ l. x ∷ l) (take-take m n xs) ∙ ap (λ k. take k (x ∷ xs)) (suc-add m n)
  take-take zero n (x ∷ xs) = ap (λ k. take k (x ∷ xs)) (omega arith)

  pub drop-drop : (m n : ℕ) (xs : List A) → drop n (drop m xs) ≡ drop (m + n) xs
  unfolding drop
  drop-drop m n [] = refl
  drop-drop (suc m) n (x ∷ xs) = drop-drop m n xs ∙ ap (λ k. drop k (x ∷ xs)) (suc-add m n)
  drop-drop zero n (x ∷ xs) = ap (λ k. drop k (x ∷ xs)) (omega arith)

  pub take_none : (n : ℕ) (xs : List A) → n ≡ 0 → take n xs ≡ []
  unfolding take
  take_none n [] h = refl
  take_none zero (x ∷ xs) h = refl
  take_none (suc n) (x ∷ xs) h = absurd (omega arith)

  pub drop_zero : (xs : List A) → drop 0 xs ≡ xs
  unfolding drop
  drop_zero [] = refl
  drop_zero (x ∷ xs) = refl

  pub All-take : (P : A → Type 0) (n : ℕ) (xs : List A) → All P xs → All P (take n xs)
  unfolding take
  All-take P n [] h = tt
  All-take P zero (x ∷ xs) h = tt
  All-take P (suc n) (x ∷ xs) (h, hs) = (h, All-take P n xs hs)

  pub All-drop : (P : A → Type 0) (n : ℕ) (xs : List A) → All P xs → All P (drop n xs)
  unfolding drop
  All-drop P n [] h = tt
  All-drop P zero (x ∷ xs) h = h
  All-drop P (suc n) (x ∷ xs) (h, hs) = All-drop P n xs hs
