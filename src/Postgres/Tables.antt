-- ===== src/Postgres/Tables.antt =====
-- The table of policy packs behind PolicyPackStore, and when it holds what an in-memory store does.
use mathlib.Core.List.{Perm}
use agent_secyrity.Prelude.{◌≡◌, refl, String, ◌&&◌, Option, none, some, List, map, ◌==◌, filter}
use agent_secyrity.Maps.{Map, lookup, insert, values}
use agent_secyrity.Maps.Alike.{Alike, BothFind}
use agent_secyrity.Keys.{key}
use agent_secyrity.Domain.{PolicyPack}
use agent_secyrity.Domain.Errors.{ok, Context}
use agent_secyrity.PolicyPack as Memory
use agent_secyrity.PolicyPack.{MemoryStore}
use agent_secyrity.Postgres.{Json, Database, PackRow}
use agent_secyrity.Postgres.Packs.{unmarshal_pack, scanned_pack}

-- the column `pack` of a row
abbrev pub column_pack : {J : Type 0} → PackRow J → J
column_pack row = row.pack

abbrev pub found_column : {J : Type 0} → Option (PackRow J) → Option J
found_column none = none
found_column (some row) = some row.pack

module _ {D J : Type 0} (json : Json J) (db : Database D J) where
  -- What the statements do to the rows of the table, where they succeed: INSERT … ON CONFLICT …
  -- DO UPDATE sets the row with its primary key, the SELECTs answer the columns `pack` of the row
  -- with that key and of the rows with that tenant, in the order of ORDER BY; and a pack survives
  -- its encoding. A text with a NUL fails, so that a tenant and an identifier make one key.
  pub record IsTable : Type 0 where
    pub rows : D → Map (PackRow J)
    pub by_id : List (PackRow J) → List (PackRow J)
    pub by_id_perm : (rs : List (PackRow J)) → Perm (by_id rs) rs
    pub decode :
        (p : PolicyPack) (j : J) → json.marshal_pack p ≡ ok j → json.unmarshal_pack j ≡ ok p
    pub inserted :
        (ctx : Context) (row : PackRow J) (d d' : D)
        → db.insert_pack ctx row d ≡ (d', ok tt)
        → rows d' ≡ insert (key row.tenant_id row.id) row (rows d)
    pub selected :
        (ctx : Context) (tenant_id id : String) (d : D) (found : Option J)
        → db.select_pack ctx tenant_id id d ≡ ok found
        → found ≡ found_column (lookup (key tenant_id id) (rows d))
    pub selected_enabled :
        (ctx : Context) (tenant_id : String) (d : D) (found : List J)
        → db.select_enabled_packs ctx tenant_id d ≡ ok found
        → found
          ≡ map column_pack
              (by_id (filter (λ row. row.tenant_id == tenant_id && row.enabled) (values (rows d))))

  -- A row that holds a pack.
  pub record IsRowOf (row : PackRow J) (pack : PolicyPack) : Type 0 where
    pub decoded : json.unmarshal_pack row.pack ≡ ok pack
    pub tenant_id : row.tenant_id ≡ pack.tenant_id
    pub enabled : row.enabled ≡ pack.enabled

  module _ (table : IsTable) where
    -- The table holds the packs of the in-memory store.
    pub record Holds (m : MemoryStore) (d : D) : Type 0 where
      pub packs : Alike IsRowOf (table.rows d) m.packs

    pub unmarshalled :
        (row : PackRow J) (pack : PolicyPack)
        → IsRowOf row pack
        → unmarshal_pack json db row.pack ≡ ok pack
    unfolding unmarshal_pack
    unmarshalled row pack r = rw r.decoded refl

    pub found_alike :
        (found : Option (PackRow J)) (stored : Option PolicyPack)
        → BothFind IsRowOf found stored
        → scanned_pack json db (ok (found_column found)) ≡ Memory.found_or_missing stored
    found_alike none none h = refl
    found_alike none (some pack) h = absurd h
    found_alike (some row) none h = absurd h
    found_alike (some row) (some pack) h = unmarshalled row pack h
