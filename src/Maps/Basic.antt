-- ===== src/Maps/Basic.antt =====
-- Maps as association lists with distinct keys.
use mathlib.Core.List.{Perm}
use agent_secyrity.Prelude.{
  String, ◌≡◌, refl, Bool, Option, none, some, List, [], ◌∷◌, map, arith, ◌≢◌, ◌⊎◌, inl, inr,
  Bool-cases, eq_refl, ◌==◌, eq_iff, any, if◌then◌else◌,
}

pub record Map (V : Type 0) : Type 0 where
  pub entries : List (String × V)

-- The order in which a range loop visits the values of a map: some rearrangement of them.
pub record Iteration : Type 1 where
  pub arrange : (A : Type 0) → List A → List A
  pub arrange_perm : (A : Type 0) (xs : List A) → Perm (arrange A xs) xs

module _ {V : Type 0} where
  unfoldable pub find : String → List (String × V) → Option V
  find k [] = none
  find k ((j, v) ∷ m) = if j == k then some v else find k m

  unfoldable pub put : String → V → List (String × V) → List (String × V)
  put k v [] = (k, v) ∷ []
  put k v ((j, w) ∷ m) = if j == k then (j, v) ∷ m else (j, w) ∷ put k v m

  abbrev pub empty : Map V
  empty = record { entries = [] }

  unfoldable pub lookup : String → Map V → Option V
  unfolding find
  lookup k m = find k m.entries

  unfoldable pub insert : String → V → Map V → Map V
  unfolding put
  insert k v m = record { entries = put k v m.entries }

  -- The values, in the order of insertion.
  unfoldable pub values : Map V → List V
  values m = map (λ e. e.1) m.entries

  find-put :
      (k j : String) (v : V) (m : List (String × V))
      → find j (put k v m) ≡ (if k == j then some v else find j m)
  unfolding find put
  find-put k j v [] = refl
  find-put k j v ((i, w) ∷ m) = ground (arith, eq_iff k j, eq_iff i k, eq_iff i j, find-put k j v m)

  pub lookup-insert :
      (k j : String) (v : V) (m : Map V)
      → lookup j (insert k v m) ≡ (if k == j then some v else lookup j m)
  unfolding lookup insert
  lookup-insert k j v m = find-put k j v m.entries

  -- What a lookup finds after a write was written there or was there before.
  pub insert_cases :
      (k j : String) (v w : V) (m : Map V)
      → lookup j (insert k v m) ≡ some w
      → ((k ≡ j) × (v ≡ w)) ⊎ (lookup j m ≡ some w)
  insert_cases k j v w m h = elim (Bool-cases (k == j)) [
    | inl same ↦ inl ((eq_iff k j).0 same, ground (arith, lookup-insert k j v m))
    | inr other ↦ inr (ground (arith, lookup-insert k j v m))
  ]

  pub lookup-insert_self : (k : String) (v : V) (m : Map V) → lookup k (insert k v m) ≡ some v
  lookup-insert_self k v m = ground (arith, lookup-insert k k v m, eq_refl k)

  pub lookup-insert_ne :
      (k j : String) (v : V) (m : Map V) → k ≢ j → lookup j (insert k v m) ≡ lookup j m
  lookup-insert_ne k j v m h = ground (arith, lookup-insert k j v m, eq_iff k j)

  pub lookup-empty : (k : String) → lookup k empty ≡ none
  unfolding lookup
  lookup-empty k = refl

  abbrev has_key : String → List (String × V) → Bool
  has_key k m = any (λ e. e.0 == k) m

  abbrev pub Distinct : List (String × V) → Type 0
  Distinct [] = Unit
  Distinct ((k, v) ∷ m) = (find k m ≡ none) × Distinct m

  -- No key has two entries.
  pub record HasDistinctKeys (m : Map V) : Type 0 where
    pub distinct : Distinct m.entries

  put-Distinct : (k : String) (v : V) (m : List (String × V)) → Distinct m → Distinct (put k v m)
  unfolding put find
  put-Distinct k v [] d = (refl, tt)
  put-Distinct k v ((j, w) ∷ m) (fresh, d) =
      ground (arith, put-Distinct k v m d, find-put k j v m, eq_iff j k, eq_iff k j)

  pub insert-HasDistinctKeys :
      (k : String) (v : V) (m : Map V) → HasDistinctKeys m → HasDistinctKeys (insert k v m)
  unfolding insert
  insert-HasDistinctKeys k v m h = record { distinct = put-Distinct k v m.entries h.distinct }
