-- ===== src/Postgres/Reads.antt =====
-- Upsert and Get of the PostgreSQL store of packs, beside the in-memory store.
use mathlib.Core.Path.{ap₂}
use agent_secyrity.Prelude.{
  ◌≡◌, ◌≢◌, refl, ap, ◌∙◌, inl, inr, String, ◌&&◌, none, some, ◌==◌, arith, eq_iff, Bool-cases,
  if◌then◌else◌,
}
use agent_secyrity.Maps.{lookup, insert, lookup-insert_self, lookup-insert_ne}
use agent_secyrity.Keys.{key, HasNoNul, key_injective}
use agent_secyrity.Domain.{Time, PolicyPack}
use agent_secyrity.Domain.Errors.{Result, ok, err, Context}
use agent_secyrity.PolicyPack as Memory
use agent_secyrity.PolicyPack.{MemoryStore, with_defaults}
use agent_secyrity.Postgres.{Json, Database, PackRow, labelled}
use agent_secyrity.Postgres.Packs.{pack_row, insert_marshalled, unmarshal_pack, upsert, get}

module _ {D J : Type 0} (json : Json J) (db : Database D J) where
  -- What Upsert and Get rely on: a pack survives its encoding, and INSERT … ON CONFLICT … DO UPDATE
  -- sets the one row with its primary key.
  pub record IsFaithful : Type 0 where
    pub decode :
        (p : PolicyPack) (j : J) → json.marshal_pack p ≡ ok j → json.unmarshal_pack j ≡ ok p
    pub written :
        (ctx : Context) (row : PackRow J) (d d' : D)
        → db.insert_pack ctx row d ≡ (d', ok tt)
        → (tenant_id id : String)
        → db.select_pack none tenant_id id d' ≡ (
            if tenant_id == row.tenant_id && id == row.id
            then ok (some row.pack)
            else db.select_pack none tenant_id id d)

  -- The two stores answer Get alike, for tenants without a NUL character, which a text of
  -- PostgreSQL cannot hold.
  abbrev pub Refines : MemoryStore → D → Type 0
  Refines m d =
      (tenant_id id : String)
      → HasNoNul tenant_id
      → get json db none tenant_id id d ≡ Memory.get none tenant_id id m

  module _ (faithful : IsFaithful) (now : Time) (pack : PolicyPack) (m : MemoryStore) (d d' : D)
      (refines : Refines m d) (no_nul : HasNoNul pack.tenant_id) where
    inserted-Refines :
        (payload : J)
        → json.marshal_pack (with_defaults pack) ≡ ok payload
        → db.insert_pack none (pack_row json db now (with_defaults pack) payload) d ≡ (d', ok tt)
        → Refines
            (record { packs = insert (key pack.tenant_id pack.id) (with_defaults pack) m.packs })
            d'
    unfolding get unmarshal_pack Memory.get
    inserted-Refines payload marshalled inserted t i t_no_nul =
        let read = faithful.written none _ d d' inserted t i in
        let stored = key pack.tenant_id pack.id in
        elim (Bool-cases (t == pack.tenant_id && i == pack.id)) [
          | inl same ↦
              let tenant : t ≡ pack.tenant_id = ground (arith, eq_iff t pack.tenant_id) in
              let id : i ≡ pack.id = ground (arith, eq_iff i pack.id) in
              let row : db.select_pack none t i d' ≡ ok (some payload) = read ∙ rw same refl in
              let hit : lookup (key t i) (insert stored (with_defaults pack) m.packs)
                  ≡ some (with_defaults pack) =
                ap (λ k. lookup k (insert stored (with_defaults pack) m.packs)) (ap₂ key tenant id)
                ∙ lookup-insert_self stored (with_defaults pack) m.packs in
              rw (row, faithful.decode _ payload marshalled, hit) refl
          | inr other ↦
              let row : db.select_pack none t i d' ≡ db.select_pack none t i d =
                read ∙ rw other refl in
              let differ : stored ≢ key t i = λ e.
                let (tenant, id) = key_injective pack.tenant_id t pack.id i no_nul t_no_nul e in
                ground (arith, eq_iff t pack.tenant_id, eq_iff i pack.id) in
              let miss = lookup-insert_ne stored (key t i) (with_defaults pack) m.packs differ in
              rw (row, miss) (refines t i t_no_nul)
        ]

    marshalled-Refines :
        (payload : Result J)
        → json.marshal_pack (with_defaults pack) ≡ payload
        → insert_marshalled json db none now
            (with_defaults pack)
            (labelled "marshal policy pack" payload)
            d
          ≡ (d', ok tt)
        → Refines
            (record { packs = insert (key pack.tenant_id pack.id) (with_defaults pack) m.packs })
            d'
    marshalled-Refines (err e) h done = absurd (cc (ap (λ p. p.1) done))
    marshalled-Refines (ok payload) h done = inserted-Refines payload h done

    -- Where the two stores answer Get alike, for tenants without a NUL character, and an uncancelled
    -- Upsert on the database of a pack of such a tenant succeeds, so does that of the in-memory store,
    -- and the two stores still answer Get alike.
    pub upsert-Refines :
        upsert json db none now pack d ≡ (d', ok tt)
        → ((Memory.upsert none pack m).1 ≡ ok tt) × Refines (Memory.upsert none pack m).0 d'
    unfolding upsert Memory.upsert
    upsert-Refines done = elim (Bool-cases (pack.tenant_id == "")) [
      | inl blank ↦ absurd (cc (ap (λ p. p.1) (rw blank at done)))
      | inr named ↦ elim (Bool-cases (pack.id == "")) [
        | inl blank ↦ absurd (cc (ap (λ p. p.1) (rw (named, blank) at done)))
        | inr filled ↦
            rw (named, filled) (refl, marshalled-Refines _ refl (rw (named, filled) at done))
      ]
    ]
