-- ===== src/Interfaces.antt =====
-- The interfaces of the three stores: `Store` of internal/policypack/store.go, internal/audit/store.go
-- and internal/approval/store.go. They are over one state `S` that all stores of a server share; a
-- call takes what ctx.Err() and the clock answer at that moment, and reading does not change `S`.
use agent_secyrity.Prelude.{String, Bool, List}
use agent_secyrity.Prelude.Int.{ℤ}
use agent_secyrity.Domain.{Time, PolicyPack, ApprovalRequest, AuditRecord}
use agent_secyrity.Domain.Errors.{Result, Context}
use agent_secyrity.Approval.{DecisionInput}
use agent_secyrity.Audit.{ListOptions}

module _ (S : Type 0) where
  -- policypack.Store
  pub record PackStore : Type 0 where
    pub upsert : Context → Time → PolicyPack → S → S × Result (Unit {0})
    pub get : Context → String → String → S → Result PolicyPack
    pub list : Context → String → S → Result (List PolicyPack)
    pub list_enabled : Context → String → S → Result (List PolicyPack)
    pub set_enabled : Context → Time → String → String → Bool → S → S × Result (Unit {0})

  -- audit.Store
  pub record AuditStore : Type 0 where
    pub append : Context → Time → AuditRecord → S → S × Result AuditRecord
    pub list : Context → ListOptions → S → Result (List AuditRecord)

  -- approval.Store
  pub record ApprovalStore : Type 0 where
    pub create : Context → Time → ApprovalRequest → S → S × Result ApprovalRequest
    pub get : Context → String → String → S → Result ApprovalRequest
    pub list : Context → String → ℤ → S → Result (List ApprovalRequest)
    pub decide : Context → Time → String → String → DecisionInput → S → S × Result ApprovalRequest
