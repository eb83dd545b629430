-- ===== src/Http/Confined/Stores.antt =====
-- The in-memory stores keep tenants apart.
use agent_secyrity.Prelude.{
  ◌≡◌, ◌≢◌, sym, ap, ◌∙◌, inl, inr, String, none, some, List, ◌==◌, eq_iff, length, filter, ltb,
  All, Bool-cases,
}
use mathlib.Core.Path.{subst}
use agent_secyrity.Prelude.Int.{ℤ}
use agent_secyrity.Prelude.Members.{All-map, All-filter}
use agent_secyrity.Prelude.Slices.{All-drop}
use agent_secyrity.Maps.{Iteration, values}
use agent_secyrity.Domain.{PolicyPack, ApprovalRequest, AuditRecord}
use agent_secyrity.Domain.Errors.{Result, ok, err, Context}
use agent_secyrity.PolicyPack as Packs
use agent_secyrity.PolicyPack.{with_defaults}
use agent_secyrity.Approval as Approvals
use agent_secyrity.Approval.{DecisionInput, last_of, effective_limit}
use agent_secyrity.Audit as Audits
use agent_secyrity.Audit.{ListOptions}
use agent_secyrity.Audit.Laws.{IsHit, list_sound}
use agent_secyrity.Runtime.Memory.{pack_store, approval_store}
use agent_secyrity.Auth.{ApiKeyConfig}
use agent_secyrity.Http.Memory.{memory_handler}
use agent_secyrity.Http.Confined.{PackTenants, ApprovalTenants, KeepsTenants}
use agent_secyrity.Http.Confined.Sound.{
  IsSound, get-tenant, request-tenant, decided-tenant, upsert-IsSound, set_enabled-IsSound,
}

records-tenant :
    (ctx : Context) (o : ListOptions) (s : Audits.MemoryStore) (rs : List AuditRecord)
    → o.tenant_id ≢ ""
    → Audits.list ctx o s ≡ ok rs
    → All (λ r. r.event.tenant_id ≡ o.tenant_id) rs
records-tenant (some e) o s rs named h = absurd (unfold Audits.list in cc h)
records-tenant none o s rs named h =
    let (found, listed, hits, _, _, _) = list_sound o s in
    subst (All λ r. r.event.tenant_id ≡ o.tenant_id) (found_records (sym listed ∙ h))
      (All-map found (λ r hit. own r hit) hits)
  where
    listed_or : List AuditRecord → Result (List AuditRecord) → List AuditRecord
    listed_or rs (ok qs) = qs
    listed_or rs (err e) = rs

    found_records : {qs rs : List AuditRecord} → ok qs ≡ ok rs → qs ≡ rs
    found_records {qs} e = ap (listed_or qs) e

    own : (r : AuditRecord) → IsHit o s r → r.event.tenant_id ≡ o.tenant_id
    own r hit = elim hit.1.0 [ inl blank ↦ absurd (named blank) | inr same ↦ same ]

module _ ⦃order : Iteration⦄ where
  packs-tenant :
      (ctx : Context) (t : String) (s : Packs.MemoryStore) (ps : List PolicyPack)
      → Packs.list ctx t s ≡ ok ps
      → All (λ p. p.tenant_id ≡ t) ps
  unfolding Packs.list
  packs-tenant (some e) t s ps h = absurd (cc h)
  packs-tenant none t s ps h =
      subst (All λ p. p.tenant_id ≡ t) (cc h)
        (All-filter _ (λ p. (eq_iff p.tenant_id t).0) (order.arrange PolicyPack (values s.packs)))

  requests-tenant :
      (ctx : Context) (t : String) (limit : ℤ) (s : Approvals.MemoryStore)
      (rs : List ApprovalRequest)
      → Approvals.list ctx t limit s ≡ ok rs
      → All (λ r. r.tenant_id ≡ t) rs
  unfolding Approvals.list last_of
  requests-tenant (some e) t limit s rs h = absurd (cc h)
  requests-tenant none t limit s rs h =
      let all = order.arrange ApprovalRequest (values s.requests) in
      let own = filter (λ (r : ApprovalRequest). r.tenant_id == t) all in
      let owned =
        All-filter (λ (r : ApprovalRequest). r.tenant_id == t) {P = λ r. r.tenant_id ≡ t}
          (λ r. (eq_iff r.tenant_id t).0) all in
      let same : last_of (effective_limit limit) own ≡ rs = cc h in
      subst (All λ r. r.tenant_id ≡ t) same
        (elim (Bool-cases (ltb (effective_limit limit) (length own))) [
          | inl more ↦ rw more (All-drop _ _ own owned)
          | inr fits ↦ rw fits owned
        ])

  -- The stores of the server without a database keep tenants apart.
  pub KeepsTenants-memory :
      (keys : ApiKeyConfig) (ttl : ℤ) → KeepsTenants IsSound (memory_handler keys ttl)
  KeepsTenants-memory keys ttl = record {
    packs = λ store is.
        let same : pack_store ≡ store = cc is in
        subst (PackTenants IsSound) same (record {
          get = λ ctx t id s p. get-tenant ctx t id s p;
          list = λ ctx t s ps. packs-tenant ctx t s.packs ps;
          upsert = λ ctx now p s. upsert-IsSound ctx p s;
          set_enabled = λ ctx now t id b s. set_enabled-IsSound ctx t id b s;
        });
    approvals = λ store is.
        let same : approval_store ≡ store = cc is in
        subst (ApprovalTenants IsSound) same (record {
          get = λ ctx t id s r. request-tenant ctx t id s r;
          list = λ ctx t limit s rs. requests-tenant ctx t limit s.approvals rs;
          decide = λ ctx now t id input s r. decided-tenant ctx now t id input s r;
        });
    audit = record { list = λ ctx o s rs. records-tenant ctx o s.audits rs };
  }
