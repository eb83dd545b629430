-- ===== src/PolicyPack/Invariant.antt =====
-- What holds of every stored pack, whatever operations were called.
use agent_secyrity.Prelude.{
  String, ◌≡◌, ◌≢◌, refl, Bool, none, some, List, [], ◌∷◌, map, arith, ◌==◌, eq_iff, All,
  Bool-cases, Option-cases, inl, inr,
}
use mathlib.Core.Path.{subst₂}
use agent_secyrity.Maps.{
  HasDistinctKeys, lookup, insert, insert_cases, lookup-empty, insert-HasDistinctKeys,
}
use agent_secyrity.Keys.{key}
use agent_secyrity.Domain.{Policy, PolicyPack}
use agent_secyrity.Domain.Errors.{Context}
use agent_secyrity.PolicyPack.{
  MemoryStore, new_memory_store, assign, with_defaults, upsert, set_enabled,
}

-- A pack as it stands under a key: identified, at its own key, its policies assigned.
pub record IsStored (k : String) (pack : PolicyPack) : Type 0 where
  pub at_key : k ≡ key pack.tenant_id pack.id
  pub tenant_id : pack.tenant_id ≢ ""
  pub id : pack.id ≢ ""
  pub policies : All (λ p. (p.tenant_id ≢ "") × (p.policy_pack_id ≢ "")) pack.policies

pub record IsValid (s : MemoryStore) : Type 0 where
  pub keys : HasDistinctKeys s.packs
  pub stored : (k : String) (pack : PolicyPack) → lookup k s.packs ≡ some pack → IsStored k pack

abbrev pub IsAssigned : Policy → Type 0
IsAssigned p = (p.tenant_id ≢ "") × (p.policy_pack_id ≢ "")

module _ (pack : PolicyPack) (t : pack.tenant_id ≢ "") (i : pack.id ≢ "") where
  assign-IsAssigned : (p : Policy) → IsAssigned (assign pack p)
  unfolding assign
  assign-IsAssigned p =
      (ground (arith, eq_iff p.tenant_id ""), ground (arith, eq_iff p.policy_pack_id ""))

  assign-All : (ps : List Policy) → All IsAssigned (map (assign pack) ps)
  assign-All [] = tt
  assign-All (p ∷ ps) = (assign-IsAssigned p, assign-All ps)

insert-IsValid :
    (k : String) (pack : PolicyPack) (s : MemoryStore)
    → IsStored k pack
    → IsValid s
    → IsValid (record { packs = insert k pack s.packs })
insert-IsValid k pack s fits v = record {
  keys = insert-HasDistinctKeys k pack s.packs v.keys;
  stored = λ j other h. elim (insert_cases k j pack other s.packs h) [
    | inl written ↦ subst₂ IsStored written.0 written.1 fits
    | inr before ↦ v.stored j other before
  ];
}

pub IsValid-new : IsValid new_memory_store
IsValid-new = record {
  keys = record { distinct = tt };
  stored = λ k pack h. absurd (cc (lookup-empty {V = PolicyPack} k));
}

-- Upsert keeps the invariant, whether it stores the pack or fails.
pub upsert-IsValid :
    (ctx : Context) (pack : PolicyPack) (s : MemoryStore)
    → IsValid s
    → IsValid (upsert ctx pack s).0
unfolding upsert
upsert-IsValid (some e) pack s v = v
upsert-IsValid none pack s v = elim (Bool-cases (pack.tenant_id == "")) [
  | inl blank ↦ rw blank v
  | inr t ↦ elim (Bool-cases (pack.id == "")) [
    | inl blank ↦ rw (t, blank) v
    | inr i ↦
        let tenant : pack.tenant_id ≢ "" = ground (arith, eq_iff pack.tenant_id "") in
        let id : pack.id ≢ "" = ground (arith, eq_iff pack.id "") in
        rw (t, i)
          (insert-IsValid (key pack.tenant_id pack.id) (with_defaults pack) s
            (record {
              at_key = refl;
              tenant_id = tenant;
              id = id;
              policies = assign-All pack tenant id pack.policies;
            })
            v)
  ]
]

-- SetEnabled keeps the invariant, whether it finds the pack or fails.
pub set_enabled-IsValid :
    (ctx : Context) (t p : String) (enabled : Bool) (s : MemoryStore)
    → IsValid s
    → IsValid (set_enabled ctx t p enabled s).0
unfolding set_enabled
set_enabled-IsValid (some e) t p enabled s v = v
set_enabled-IsValid none t p enabled s v = elim (Option-cases (lookup (key t p) s.packs)) [
  | inl missing ↦ rw missing v
  | inr (pack, found) ↦
      let old = v.stored (key t p) pack found in
      rw found (
        insert-IsValid (key t p) (record pack { enabled = enabled }) s
          (record {
            at_key = old.at_key;
            tenant_id = old.tenant_id;
            id = old.id;
            policies = old.policies;
          })
          v)
]
