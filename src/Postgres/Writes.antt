-- ===== src/Postgres/Writes.antt =====
-- Upsert and SetEnabled on PostgreSQL, beside the in-memory store.
use agent_secyrity.Prelude.{
  ◌≡◌, refl, sym, ap, ◌∙◌, inl, inr, String, Bool, false, none, some, List, [], ◌∷◌, map, ◌==◌,
  arith, eq_iff, All, Bool-cases,
}
use mathlib.Core.Path.{subst, ap₂}
use agent_secyrity.Maps.{lookup, insert}
use agent_secyrity.Maps.Alike.{insert-Alike, lookup-Alike}
use agent_secyrity.Keys.{key}
use agent_secyrity.Domain.{Time, Policy, PolicyPack}
use agent_secyrity.Domain.Errors.{Result, ok, err, Result-cases, Context}
use agent_secyrity.PolicyPack as Memory
use agent_secyrity.PolicyPack.{MemoryStore, with_defaults, assign}
use agent_secyrity.PolicyPack.Invariant.{IsValid, IsAssigned}
use agent_secyrity.PolicyPack.Listing.{found_cases}
use agent_secyrity.Postgres.{Json, Database, labelled}
use agent_secyrity.Postgres.Packs.{
  pack_row, insert_marshalled, upsert, get, set_enabled, scanned_pack,
}
use agent_secyrity.Postgres.Tables.{IsTable, IsRowOf, Holds, found_alike}

-- A stored pack has its defaults already.
assign_same : (pack : PolicyPack) (p : Policy) → IsAssigned p → assign pack p ≡ p
unfolding assign
assign_same pack p (tenant, id) =
    let named : (p.tenant_id == "") ≡ false = ground (arith, eq_iff p.tenant_id "") in
    let filled : (p.policy_pack_id == "") ≡ false = ground (arith, eq_iff p.policy_pack_id "") in
    rw (named, filled) refl

assign_all : (pack : PolicyPack) (ps : List Policy) → All IsAssigned ps → map (assign pack) ps ≡ ps
assign_all pack [] h = refl
assign_all pack (p ∷ ps) (h, hs) = ap₂ ◌∷◌ (assign_same pack p h) (assign_all pack ps hs)

module _ {D J : Type 0} (json : Json J) (db : Database D J) (table : IsTable json db)
    (ctx : Context) (now : Time) (m : MemoryStore) (d d' : D)
    (holds : Holds json db table m d) where
  inserted-Holds :
      (pack : PolicyPack) (payload : Result J)
      → json.marshal_pack pack ≡ payload
      → insert_marshalled json db ctx now pack (labelled "marshal policy pack" payload) d
        ≡ (d', ok tt)
      → Holds json db table (record { packs = insert (key pack.tenant_id pack.id) pack m.packs }) d'
  inserted-Holds pack (err e) h done = absurd (cc (ap (λ p. p.1) done))
  inserted-Holds pack (ok payload) h done = record {
    packs = rw (table.inserted ctx (pack_row json db now pack payload) d d' done) (
        insert-Alike (IsRowOf json db) (key pack.tenant_id pack.id)
          (pack_row json db now pack payload) pack (table.rows d) m.packs
          (record { decoded = table.decode pack payload h; tenant_id = refl; enabled = refl })
          holds.packs);
  }

  -- the in-memory store with one more pack
  abbrev with_pack : PolicyPack → MemoryStore
  with_pack pack = record { packs = insert (key pack.tenant_id pack.id) pack m.packs }

  upsert_cases :
      (pack : PolicyPack)
      → upsert json db ctx now pack d ≡ (d', ok tt)
      → (Memory.upsert none pack m ≡ (with_pack (with_defaults pack), ok tt))
        × Holds json db table (with_pack (with_defaults pack)) d'
  unfolding upsert Memory.upsert
  upsert_cases pack done = elim (Bool-cases (pack.tenant_id == "")) [
    | inl blank ↦ absurd (cc (ap (λ p. p.1) (rw blank at done)))
    | inr named ↦ elim (Bool-cases (pack.id == "")) [
      | inl blank ↦ absurd (cc (ap (λ p. p.1) (rw (named, blank) at done)))
      | inr filled ↦
          rw (named, filled)
            (refl, inserted-Holds (with_defaults pack) _ refl (rw (named, filled) at done))
    ]
  ]

  pub upsert-Holds :
      (pack : PolicyPack)
      → upsert json db ctx now pack d ≡ (d', ok tt)
      → ((Memory.upsert none pack m).1 ≡ ok tt)
        × Holds json db table (Memory.upsert none pack m).0 d'
  upsert-Holds pack done = let (same, kept) = upsert_cases pack done in rw same (refl, kept)

  -- Get of the two stores, where the statement of Get succeeds.
  pub get-Holds :
      (tenant_id id : String) (pack : PolicyPack)
      → get json db ctx tenant_id id d ≡ ok pack
      → lookup (key tenant_id id) m.packs ≡ some pack
  unfolding get
  get-Holds tenant_id id pack h = elim (Result-cases (db.select_pack ctx tenant_id id d)) [
    | inr (e, failing) ↦ absurd (cc (rw failing at h))
    | inl (found, answered) ↦
        let at_key = lookup-Alike (IsRowOf json db) (key tenant_id id) _ _ holds.packs in
        let column = table.selected ctx tenant_id id d found answered in
        found_cases _ pack (
          sym (found_alike json db table _ _ at_key)
          ∙ ap (λ f. scanned_pack json db (ok f)) (sym column)
          ∙ ap (scanned_pack json db) (sym answered)
          ∙ h)
  ]

  pub set_enabled-Holds :
      (tenant_id id : String) (enabled : Bool)
      → IsValid m
      → set_enabled json db ctx now tenant_id id enabled d ≡ (d', ok tt)
      → ((Memory.set_enabled none tenant_id id enabled m).1 ≡ ok tt)
        × Holds json db table (Memory.set_enabled none tenant_id id enabled m).0 d'
  unfolding set_enabled Memory.set_enabled
  set_enabled-Holds tenant_id id enabled v done =
      elim (Result-cases (get json db ctx tenant_id id d)) [
        | inr (e, failing) ↦ absurd (cc (ap (λ p. p.1) (rw failing at done)))
        | inl (pack, found) ↦
            let here = get-Holds tenant_id id pack found in
            let old = v.stored _ pack here in
            let set = record pack { enabled = enabled } in
            let (same, kept) = upsert_cases set (rw found at done) in
            let defaults : with_defaults set ≡ set =
              ap (λ ps. record set { policies = ps }) (assign_all set pack.policies old.policies) in
            rw (here, old.at_key)
              (refl, subst (λ p. Holds json db table (with_pack p) d') defaults kept)
      ]
