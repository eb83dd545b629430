-- ===== src/Http/Memory.antt =====
-- The router over the in-memory stores, as cmd/server/main.go starts it without a database.
use agent_secyrity.Prelude.{some}
use agent_secyrity.Prelude.Int.{ℤ}
use agent_secyrity.Maps.{Iteration}
use agent_secyrity.Auth.{ApiKeyConfig}
use agent_secyrity.Runtime.Memory.{Stores, memory_service, audit_store, approval_store, pack_store}
use agent_secyrity.Http.{Handler}

module _ ⦃order : Iteration⦄ where
  abbrev pub memory_handler : ApiKeyConfig → ℤ → Handler Stores
  memory_handler keys ttl = record {
    service = memory_service ttl;
    store = audit_store;
    pack_store = some pack_store;
    approval_store = some approval_store;
    api_keys = keys;
  }
