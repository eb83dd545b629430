-- ===== src/Maps/Members.antt =====
-- The values of a map are those that a lookup finds.
use mathlib.Core.List.{Memᴰ}
use agent_secyrity.Prelude.{
  String, ◌≡◌, some, List, [], ◌∷◌, arith, ◌==◌, eq_iff, eq_refl, Bool-cases, inl, inr,
}
use agent_secyrity.Maps.Basic.{Map, lookup, values, find, Distinct, HasDistinctKeys}

module _ {V : Type 0} where
  find-member :
      {v : V} (k : String) (m : List (String × V))
      → find k m ≡ some v
      → Memᴰ v (values (record { entries = m }))
  unfolding find values
  find-member k [] h = absurd (ground arith)
  find-member k ((j, w) ∷ m) h = elim (Bool-cases (j == k)) [
    | inl hit ↦ Memᴰ.head (ground arith)
    | inr miss ↦ Memᴰ.tail (find-member k m (ground arith))
  ]

  member-find :
      {v : V} (m : List (String × V))
      → Distinct m
      → Memᴰ v (values (record { entries = m }))
      → (k : String) × (find k m ≡ some v)
  unfolding find values
  member-find [] d h = elim h [ ]
  member-find ((j, w) ∷ m) d (Memᴰ.head e) = (j, ground (arith, eq_refl j))
  member-find ((j, w) ∷ m) d (Memᴰ.tail h) =
      let (k, found) = member-find m d.1 h in (k, ground (arith, d.0, eq_iff j k))

  pub member-values : {v : V} (k : String) (m : Map V) → lookup k m ≡ some v → Memᴰ v (values m)
  unfolding lookup
  member-values k m h = find-member k m.entries h

  pub values-member :
      {v : V} (m : Map V)
      → HasDistinctKeys m
      → Memᴰ v (values m)
      → (k : String) × (lookup k m ≡ some v)
  unfolding lookup
  values-member m d h = member-find m.entries d.distinct h
