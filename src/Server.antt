-- ===== src/Server.antt =====
-- cmd/server/main.go: how the server is put together. The environment is a function from names to
-- values; os.Exit is an error. Logging, the listening socket and the shutdown are left out.
pub mod Seeding
pub mod Starting
pub mod OnDatabase
pub mod Stopping
use agent_secyrity.Prelude.{String, Option, none, some, List, [], ◌∷◌, ◌==◌, if◌then◌else◌}
use agent_secyrity.Prelude.Int.{ℤ}
use agent_secyrity.Domain.{Time, PolicyPack}
use agent_secyrity.Domain.Errors.{Error, Result, ok, err, background}
use agent_secyrity.Maps.{Iteration}
use agent_secyrity.PolicyPack as Packs
use agent_secyrity.Approval as Approvals
use agent_secyrity.Audit as Audits
use agent_secyrity.Interfaces.{PackStore, AuditStore, ApprovalStore}
use agent_secyrity.Auth.{ApiKeyConfig, parse_api_keys}
use agent_secyrity.Runtime.{Service, default_ttl}
use agent_secyrity.Runtime.Memory.{Stores, audit_store, approval_store, pack_store}
use agent_secyrity.Runtime.Services.{new_service_with_options}
use agent_secyrity.Http.{Handler}
use agent_secyrity.Http.Routers.{handler_of}
use agent_secyrity.Baseline.{default_policy_packs}

-- os.Getenv
abbrev pub Environment : Type 0
Environment = String → String

unfoldable pub getenv : Environment → String → String → String
getenv env key fallback = if env key == "" then fallback else env key

-- `stores`, over their state
pub record StoreSet (S : Type 0) : Type 0 where
  pub audit : AuditStore S
  pub policy_packs : PackStore S
  pub approvals : ApprovalStore S

-- initStores without a DATABASE_URL: the stores, and their first state
module _ ⦃order : Iteration⦄ where
  abbrev pub memory_stores : StoreSet Stores
  memory_stores = record {
    audit = audit_store;
    policy_packs = pack_store;
    approvals = approval_store;
  }

abbrev pub new_stores : Stores
new_stores = record {
  packs = Packs.new_memory_store;
  audits = Audits.new_memory_store;
  approvals = Approvals.new_memory_store;
}

module _ {S : Type 0} where
  -- `if err != nil { os.Exit(1) }` in front of what follows
  abbrev pub unless_failed :
      (S → S × Result (Unit {0})) → S × Result (Unit {0}) → S × Result (Unit {0})
  unless_failed next (s, err e) = (s, err e)
  unless_failed next (s, ok u) = next s

  -- the loop of main over the baseline packs
  unfoldable pub seed : PackStore S → Time → List PolicyPack → S → S × Result (Unit {0})
  seed packs now [] s = (s, ok tt)
  seed packs now (pack ∷ rest) s =
      unless_failed (λ s'. seed packs now rest s') (packs.upsert background now pack s)

  -- the options of the service
  abbrev pub service_of : StoreSet S → Service S
  service_of stores = new_service_with_options (record {
    engine = none;
    policy_packs = some stores.policy_packs;
    audit_store = stores.audit;
    approval_store = some stores.approvals;
    approval_ttl = default_ttl;
  })

  -- the options of the router
  abbrev pub handler_with : StoreSet S → Result ApiKeyConfig → Result (Handler S)
  handler_with stores (err e) = err e
  handler_with stores (ok keys) = ok (
      handler_of (record {
        service = service_of stores;
        audit = stores.audit;
        policy_packs = some stores.policy_packs;
        approvals = some stores.approvals;
        api_keys = keys;
      }))

  -- the router of main, with the keys of the environment
  unfoldable pub new_handler : Environment → StoreSet S → Result (Handler S)
  new_handler env stores = handler_with stores (parse_api_keys (env "AGENT_SECURITY_API_KEYS"))

  abbrev pub with_seeded : Environment → StoreSet S → S × Result (Unit {0}) → S × Result (Handler S)
  with_seeded env stores (s, err e) = (s, err e)
  with_seeded env stores (s, ok u) = (s, new_handler env stores)

  -- main until the server listens
  unfoldable pub start : Environment → StoreSet S → Time → S → S × Result (Handler S)
  start env stores now s =
      with_seeded env stores (seed stores.policy_packs now (default_policy_packs "default") s)
