-- ===== src/Runtime/Memory.antt =====
-- The service over the three in-memory stores, as the server runs it without a database.
use agent_secyrity.Prelude.{some, none}
use agent_secyrity.Prelude.Int.{ℤ}
use agent_secyrity.Maps.{Iteration}
use agent_secyrity.PolicyPack as Packs
use agent_secyrity.Approval as Approvals
use agent_secyrity.Audit as Audits
use agent_secyrity.Interfaces.{PackStore, AuditStore, ApprovalStore}
use agent_secyrity.Runtime.{Service}

pub record Stores : Type 0 where
  pub packs : Packs.MemoryStore
  pub audits : Audits.MemoryStore
  pub approvals : Approvals.MemoryStore

abbrev pub audit_store : AuditStore Stores
audit_store = record {
  append = λ ctx now r s.
      let (audits, result) = Audits.append ctx now r s.audits in
      (record s { audits = audits }, result);
  list = λ ctx o s. Audits.list ctx o s.audits;
}

module _ ⦃order : Iteration⦄ where
  abbrev pub approval_store : ApprovalStore Stores
  approval_store = record {
    create = λ ctx now r s.
        let (approvals, result) = Approvals.create ctx now r s.approvals in
        (record s { approvals = approvals }, result);
    get = λ ctx tenant_id id s. Approvals.get ctx tenant_id id s.approvals;
    list = λ ctx tenant_id limit s. Approvals.list ctx tenant_id limit s.approvals;
    decide = λ ctx clock tenant_id id input s.
        let (approvals, result) = Approvals.decide ctx clock tenant_id id input s.approvals in
        (record s { approvals = approvals }, result);
  }

  abbrev pub pack_store : PackStore Stores
  pack_store = record {
    upsert = λ ctx now pack s.
        let (packs, result) = Packs.upsert ctx pack s.packs in (record s { packs = packs }, result);
    get = λ ctx tenant_id id s. Packs.get ctx tenant_id id s.packs;
    list = λ ctx tenant_id s. Packs.list ctx tenant_id s.packs;
    list_enabled = λ ctx tenant_id s. Packs.list_enabled ctx tenant_id s.packs;
    set_enabled = λ ctx now tenant_id id enabled s.
        let (packs, result) = Packs.set_enabled ctx tenant_id id enabled s.packs in
        (record s { packs = packs }, result);
  }

  -- NewServiceWithOptions, with all three stores
  abbrev pub memory_service : ℤ → Service Stores
  memory_service ttl = record {
    engine = none;
    pack_store = some pack_store;
    store = audit_store;
    approval_store = some approval_store;
    approval_ttl = ttl;
  }
