-- ===== src/Runtime/Services.antt =====
-- Options and the three constructors of services of internal/runtime/service.go.
use agent_secyrity.Prelude.{Option, none, some}
use agent_secyrity.Prelude.Int.{ℤ, pos}
use agent_secyrity.Policy.Engine.{Engine}
use agent_secyrity.Interfaces.{PackStore, AuditStore, ApprovalStore}
use agent_secyrity.Runtime.{Service}

pub record Options (S : Type 0) : Type 0 where
  pub engine : Option Engine
  pub policy_packs : Option (PackStore S)
  pub audit_store : AuditStore S
  pub approval_store : Option (ApprovalStore S)
  pub approval_ttl : ℤ

module _ {S : Type 0} where
  abbrev pub new_service : Option Engine → AuditStore S → Service S
  new_service engine store = record {
    engine = engine;
    pack_store = none;
    store = store;
    approval_store = none;
    approval_ttl = pos 0;
  }

  abbrev pub new_service_with_policy_packs : PackStore S → AuditStore S → Service S
  new_service_with_policy_packs packs store = record (new_service none store) {
    pack_store = some packs;
  }

  abbrev pub new_service_with_options : Options S → Service S
  new_service_with_options opts = record {
    engine = opts.engine;
    pack_store = opts.policy_packs;
    store = opts.audit_store;
    approval_store = opts.approval_store;
    approval_ttl = opts.approval_ttl;
  }
