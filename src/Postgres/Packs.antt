-- ===== src/Postgres/Packs.antt =====
-- PolicyPackStore of internal/storage/postgres/store.go.
use agent_secyrity.Prelude.{String, Bool, Option, none, some, List, ◌==◌, if◌then◌else◌}
use agent_secyrity.Domain.{Time, PolicyPack}
use agent_secyrity.Domain.Errors.{failed, policy_pack_not_found, Result, ok, err, ◌>>=◌, Context}
use agent_secyrity.PolicyPack.{with_defaults}
use agent_secyrity.Interfaces.{PackStore}
use agent_secyrity.Postgres.{Json, Database, PackRow, labelled, scan}

module _ {D J : Type 0} (json : Json J) (db : Database D J) where
  -- unmarshalPack
  unfoldable pub unmarshal_pack : J → Result PolicyPack
  unmarshal_pack raw = labelled "unmarshal policy pack" (json.unmarshal_pack raw)

  abbrev pub pack_row : Time → PolicyPack → J → PackRow J
  pack_row now pack payload = record {
    tenant_id = pack.tenant_id;
    id = pack.id;
    version = pack.version;
    enabled = pack.enabled;
    pack = payload;
    updated_at = now;
  }

  abbrev pub insert_marshalled : Context → Time → PolicyPack → Result J → D → D × Result (Unit {0})
  insert_marshalled ctx now pack (err e) d = (d, err e)
  insert_marshalled ctx now pack (ok payload) d = db.insert_pack ctx (pack_row now pack payload) d

  unfoldable pub upsert : Context → Time → PolicyPack → D → D × Result (Unit {0})
  upsert ctx now pack d =
      if pack.tenant_id == ""
      then (d, err (failed "tenant_id is required"))
      else if pack.id == ""
      then (d, err (failed "policy pack id is required"))
      else insert_marshalled ctx now (with_defaults pack)
          (labelled "marshal policy pack" (json.marshal_pack (with_defaults pack))) d

  abbrev pub scanned_pack : Result (Option J) → Result PolicyPack
  scanned_pack (err e) = err e
  scanned_pack (ok none) = err policy_pack_not_found
  scanned_pack (ok (some raw)) = unmarshal_pack raw

  unfoldable pub get : Context → String → String → D → Result PolicyPack
  get ctx tenant_id pack_id d = scanned_pack (db.select_pack ctx tenant_id pack_id d)

  unfoldable pub list : Context → String → D → Result (List PolicyPack)
  list ctx tenant_id d = db.select_packs ctx tenant_id d >>= scan unmarshal_pack

  unfoldable pub list_enabled : Context → String → D → Result (List PolicyPack)
  list_enabled ctx tenant_id d = db.select_enabled_packs ctx tenant_id d >>= scan unmarshal_pack

  abbrev pub enable_found : Context → Time → Bool → D → Result PolicyPack → D × Result (Unit {0})
  enable_found ctx now enabled d (err e) = (d, err e)
  enable_found ctx now enabled d (ok pack) = upsert ctx now (record pack { enabled = enabled }) d

  unfoldable pub set_enabled : Context → Time → String → String → Bool → D → D × Result (Unit {0})
  set_enabled ctx now tenant_id pack_id enabled d =
      enable_found ctx now enabled d (get ctx tenant_id pack_id d)

  -- PolicyPackStore as a policypack.Store
  abbrev pub policy_pack_store : PackStore D
  policy_pack_store = record {
    upsert = upsert;
    get = get;
    list = list;
    list_enabled = list_enabled;
    set_enabled = set_enabled;
  }
