-- ===== src/Runtime/MemoryLog.antt =====
-- The in-memory stores keep the contracts of the evaluation's log.
use mathlib.Core.Path.{subst}
use agent_secyrity.Prelude.{◌≡◌, refl, none, some, List}
use agent_secyrity.Maps.{Iteration}
use agent_secyrity.Domain.{AuditRecord}
use agent_secyrity.Audit.{append, completed}
use agent_secyrity.Runtime.Memory.{Stores, audit_store, approval_store}
use agent_secyrity.Runtime.Laws.{IsLog, KeepsLog, Appended}

abbrev pub log_of : Stores → List AuditRecord
log_of s = s.audits.records

pub audit_store-IsLog : IsLog audit_store log_of
unfolding append completed
audit_store-IsLog = record {
  appended = λ ctx now r s.
      elim ctx
        as (λ c.
          Appended r (log_of s) (log_of (audit_store.append c now r s).0)
            (audit_store.append c now r s).1) [ some e ↦ refl | none ↦ (refl, refl, refl) ];
}

module _ ⦃order : Iteration⦄ where
  pub approval_store-KeepsLog : KeepsLog (some approval_store) log_of
  approval_store-KeepsLog = record {
    kept = λ approvals same ctx now r s.
        let one : approval_store ≡ approvals = cc same in
        subst (λ store. log_of (store.create ctx now r s).0 ≡ log_of s) one refl;
  }
