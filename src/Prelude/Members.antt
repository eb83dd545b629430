-- ===== src/Prelude/Members.antt =====
-- Elements of a list, and the predicates `All` and `Any` over a list and its filtered parts.
use mathlib.Core.HLevel.{×_prop}
use mathlib.Core.List.{List, [], ◌∷◌, ◌++◌, Mem, Memᴰ}
use mathlib.Core.List.Memᴰ
use mathlib.Core.Path.{◌≡◌, refl, subst, sym}
use mathlib.Core.Logic.{inl, inr, ◌↔◌, ∥∥₁_elim, ∥∥₁_map}
use mathlib.Core.Bool.{Bool, true}
use native.Mathlib.Omega.{arith}
use agent_secyrity.Prelude.Tests.{Bool-cases}
use agent_secyrity.Prelude.Lists.{filter, any, All, Any}

module _ {A : Type 0} {P Q : A → Type 0} where
  pub All-map : (xs : List A) → ((x : A) → P x → Q x) → All P xs → All Q xs
  All-map [] f h = tt
  All-map (x ∷ xs) f (h, hs) = (f x h, All-map xs f hs)

  pub Any-map : (xs : List A) → ((x : A) → P x → Q x) → Any P xs → Any Q xs
  Any-map [] f h = elim h [ ]
  Any-map (x ∷ xs) f (inl h) = inl (f x h)
  Any-map (x ∷ xs) f (inr h) = inr (Any-map xs f h)

module _ {A : Type 0} (P : A → Type 0) where
  pub All-member : {x : A} (xs : List A) → All P xs → Memᴰ x xs → P x
  All-member [] h m = elim m [ ]
  All-member (y ∷ ys) (h, hs) (Memᴰ.head e) = subst P (sym e) h
  All-member (y ∷ ys) (h, hs) (Memᴰ.tail m) = All-member ys hs m

  pub All-append : (xs ys : List A) → All P xs → All P ys → All P (xs ++ ys)
  All-append [] ys h k = k
  All-append (x ∷ xs) ys (h, hs) k = (h, All-append xs ys hs k)

  pub All-split : (xs ys : List A) → All P (xs ++ ys) → All P xs × All P ys
  All-split [] ys h = (tt, h)
  All-split (x ∷ xs) ys (h, hs) = let (k, l) = All-split xs ys hs in ((h, k), l)

  pub member-Any : (xs : List A) → Any P xs → (x : A) × Memᴰ x xs × P x
  member-Any [] h = elim h [ ]
  member-Any (x ∷ xs) (inl h) = (x, Memᴰ.head refl, h)
  member-Any (x ∷ xs) (inr h) = let (y, m, k) = member-Any xs h in (y, Memᴰ.tail m, k)

  pub Any-member : {x : A} (xs : List A) → Memᴰ x xs → P x → Any P xs
  Any-member [] m h = elim m [ ]
  Any-member (y ∷ ys) (Memᴰ.head e) h = inl (subst P e h)
  Any-member (y ∷ ys) (Memᴰ.tail m) h = inr (Any-member ys m h)

Bool_set : IsSet Bool
Bool_set = hlevel

module _ {A : Type 0} (p : A → Bool) where
  pub member-filter : {x : A} (xs : List A) → Memᴰ x xs → p x ≡ true → Memᴰ x (filter p xs)
  member-filter [] m h = elim m [ ]
  member-filter (y ∷ ys) (Memᴰ.head e) h = rw (subst (λ z. p z ≡ true) e h) (Memᴰ.head e)
  member-filter (y ∷ ys) (Memᴰ.tail m) h = elim (Bool-cases (p y)) [
    | inl hit ↦ rw hit (Memᴰ.tail (member-filter ys m h))
    | inr miss ↦ rw miss (member-filter ys m h)
  ]

  pub member_of_filter : {x : A} (xs : List A) → Memᴰ x (filter p xs) → Memᴰ x xs × (p x ≡ true)
  member_of_filter [] m = elim m [ ]
  member_of_filter (y ∷ ys) m = elim (Bool-cases (p y)) [
    | inl hit ↦ elim (Memᴰ.cases_cons (rw hit at m)) [
      | inl e ↦ (Memᴰ.head e, subst (λ z. p z ≡ true) (sym e) hit)
      | inr n ↦ let (n', h) = member_of_filter ys n in (Memᴰ.tail n', h)
    ]
    | inr miss ↦ let (n, h) = member_of_filter ys (rw miss at m) in (Memᴰ.tail n, h)
  ]

  pub All-filter :
      {P : A → Type 0} → ((x : A) → p x ≡ true → P x) → (xs : List A) → All P (filter p xs)
  All-filter f [] = tt
  All-filter f (x ∷ xs) = elim (Bool-cases (p x)) [
    | inl hit ↦ rw hit (f x hit, All-filter f xs)
    | inr miss ↦ rw miss (All-filter f xs)
  ]

  -- Membership in the filtered list, as propositions.
  pub mem_filter_iff : (x : A) (xs : List A) → Mem x (filter p xs) ↔ (Mem x xs × (p x ≡ true))
  mem_filter_iff x xs = (
    λ m.
        ∥∥₁_elim m (×_prop squash₁ (Bool_set _ _))
          λ d. let (n, h) = member_of_filter xs d in (∣ n ∣₁, h),
    λ (m, h). ∥∥₁_map m (λ d. member-filter xs d h),
  )

  -- The Boolean test and the predicate.
  pub any_iff : (xs : List A) → (any p xs ≡ true) ↔ Any (λ x. p x ≡ true) xs
  any_iff [] = ground arith
  any_iff (x ∷ xs) = ground (arith, any_iff xs)
