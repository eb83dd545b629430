-- ===== src/Server/Starting.antt =====
-- initStores of cmd/server/main.go on both of its branches, and main until the server listens.
use agent_secyrity.Prelude.{String, ◌==◌, if◌then◌else◌}
use agent_secyrity.Maps.{Iteration}
use agent_secyrity.Domain.{Time}
use agent_secyrity.Domain.Errors.{Result, ok, err, background}
use agent_secyrity.Http.{Handler}
use agent_secyrity.Runtime.Memory.{Stores}
use agent_secyrity.Postgres.{Json, Database}
use agent_secyrity.Postgres.Packs.{policy_pack_store}
use agent_secyrity.Postgres.Audits.{audit_store}
use agent_secyrity.Postgres.Approvals.{approval_store}
use agent_secyrity.Postgres.Opening.{Driver, closing_on_failure, open_database, migrate}
use agent_secyrity.Server.{Environment, StoreSet, getenv, memory_stores, new_stores, start}

-- A server that runs over one or the other state, or why it does not.
pub data Started (D : Type 0) : Type 0 where
  over_memory : Stores × Result (Handler Stores) → Started D
  over_database : D × Result (Handler D) → Started D

-- server.Addr
unfoldable pub address : Environment → String
unfolding getenv
address env = getenv env "ADDR" ":8080"

module _ {D J : Type 0} (json : Json J) (db : Database D J) (driver : Driver D) where
  abbrev pub database_stores : StoreSet D
  database_stores = record {
    audit = audit_store json db;
    policy_packs = policy_pack_store json db;
    approvals = approval_store json db;
  }

  abbrev migrated : D × Result (Unit {0}) → D × Result (StoreSet D)
  migrated (d, err e) = (d, err e)
  migrated (d, ok u) = (d, ok database_stores)

  abbrev opened : D × Result (Unit {0}) → D × Result (StoreSet D)
  opened (d, err e) = (d, err e)
  opened (d, ok u) = migrated (closing_on_failure driver (migrate driver background d))

  -- initStores with a DATABASE_URL
  unfoldable pub init_database : String → D → D × Result (StoreSet D)
  init_database dsn d = opened (open_database driver background dsn d)

  abbrev pub with_stores : Environment → Time → D × Result (StoreSet D) → D × Result (Handler D)
  with_stores env now (d, err e) = (d, err e)
  with_stores env now (d, ok stores) = start env stores now d

  module _ ⦃order : Iteration⦄ where
    -- main until the server listens, over the stores that initStores chooses
    unfoldable pub start_server : Environment → Time → D → Started D
    start_server env now d =
        if env "DATABASE_URL" == ""
        then over_memory (start env memory_stores now new_stores)
        else over_database (with_stores env now (init_database (env "DATABASE_URL") d))
