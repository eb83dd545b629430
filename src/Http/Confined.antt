-- ===== src/Http/Confined.antt =====
-- What a key gets to see: the packs, approval requests and audit records in a response.
pub mod Handlers
pub mod Serve
pub mod Sound
pub mod Stores
pub mod Keeping
pub mod Runs
use agent_secyrity.Prelude.{
  ◌≡◌, ◌≢◌, refl, sym, ap, ◌∙◌, inl, inr, String, Bool, true, false, not, Option, none, some, List,
  ◌==◌, arith, eq_iff, All, Bool-cases, Option-cases,
}
use agent_secyrity.Prelude.Members.{All-map}
use agent_secyrity.Strings.{Folding}
use agent_secyrity.Keys.{HasNoNul}
use agent_secyrity.Domain.{Time, RuntimeEvent, PolicyPack, ApprovalRequest, AuditRecord}
use agent_secyrity.Domain.Errors.{Result, ok, err, Result-cases, Context}
use agent_secyrity.Audit.{ListOptions, normalize}
use agent_secyrity.Auth.{ApiKey, allows_tenant, is_enabled, authenticate_request}
use agent_secyrity.Interfaces.{PackStore, AuditStore, ApprovalStore}
use agent_secyrity.Approval.{DecisionInput}
use agent_secyrity.Policy.Simulation.{SimulationResult}
use agent_secyrity.Domain.{EvaluationResult}
use agent_secyrity.Http.{
  Request, Codec, Moments, Payload, healthy, evaluation, audit_events, policy_pack, policy_packs,
  simulation, approval, approvals, refusal, unrouted, Handler, Answer, guarded, authorize_tenant,
}
use agent_secyrity.Http.Packs as Packs
use agent_secyrity.Http.Packs.{with_packs}
use agent_secyrity.Http.Approvals as Approvals
use agent_secyrity.Http.Approvals.{with_approvals}
use agent_secyrity.Http.Events as Events

-- What each store promises of tenants, in the states that are sound.
pub record PackTenants {S : Type 0} (Sound : S → Type 0) (store : PackStore S) : Type 0 where
  pub get :
      (ctx : Context) (t id : String) (s : S) (p : PolicyPack)
      → Sound s
      → HasNoNul t
      → store.get ctx t id s ≡ ok p
      → p.tenant_id ≡ t
  pub list :
      (ctx : Context) (t : String) (s : S) (ps : List PolicyPack)
      → store.list ctx t s ≡ ok ps
      → All (λ p. p.tenant_id ≡ t) ps
  pub upsert :
      (ctx : Context) (now : Time) (p : PolicyPack) (s : S)
      → Sound s
      → HasNoNul p.tenant_id
      → Sound (store.upsert ctx now p s).0
  pub set_enabled :
      (ctx : Context) (now : Time) (t id : String) (b : Bool) (s : S)
      → Sound s
      → Sound (store.set_enabled ctx now t id b s).0

pub record ApprovalTenants {S : Type 0} (Sound : S → Type 0) (store : ApprovalStore S)
    : Type 0 where
  pub get :
      (ctx : Context) (t id : String) (s : S) (r : ApprovalRequest)
      → Sound s
      → HasNoNul t
      → store.get ctx t id s ≡ ok r
      → r.tenant_id ≡ t
  pub list :
      (ctx : Context) (t : String) (limit : _) (s : S) (rs : List ApprovalRequest)
      → store.list ctx t limit s ≡ ok rs
      → All (λ r. r.tenant_id ≡ t) rs
  pub decide :
      (ctx : Context) (now : Time) (t id : String) (input : DecisionInput) (s : S)
      (r : ApprovalRequest)
      → Sound s
      → HasNoNul t
      → (store.decide ctx now t id input s).1 ≡ ok r
      → r.tenant_id ≡ t

pub record AuditTenants {S : Type 0} (store : AuditStore S) : Type 0 where
  pub list :
      (ctx : Context) (o : ListOptions) (s : S) (rs : List AuditRecord)
      → o.tenant_id ≢ ""
      → store.list ctx o s ≡ ok rs
      → All (λ r. r.event.tenant_id ≡ o.tenant_id) rs

pub record KeepsTenants {S : Type 0} (Sound : S → Type 0) (h : Handler S) : Type 0 where
  pub packs : (store : PackStore S) → h.pack_store ≡ some store → PackTenants Sound store
  pub approvals :
      (store : ApprovalStore S) → h.approval_store ≡ some store → ApprovalTenants Sound store
  pub audit : AuditTenants h.store

-- All that a payload shows belongs to tenants that the key may use.
abbrev pub Shown : ApiKey → Payload → Type 0
Shown k (policy_pack p) = allows_tenant k p.tenant_id ≡ true
Shown k (policy_packs ps) = All (λ p. allows_tenant k p.tenant_id ≡ true) ps
Shown k (approval r) = allows_tenant k r.tenant_id ≡ true
Shown k (approvals rs) = All (λ r. allows_tenant k r.tenant_id ≡ true) rs
Shown k (audit_events e) = All (λ r. allows_tenant k r.event.tenant_id ≡ true) e.events
Shown k healthy = Unit
Shown k (evaluation result) = Unit
Shown k (simulation result) = Unit
Shown k (refusal code message details) = Unit
Shown k unrouted = Unit

module _ (k : ApiKey) (t : String) (allowed : allows_tenant k t ≡ true) where
  allowed_all :
      {A : Type 0} (tenant : A → String) (xs : List A)
      → All (λ x. tenant x ≡ t) xs
      → All (λ x. allows_tenant k (tenant x) ≡ true) xs
  allowed_all tenant xs = All-map xs λ x e. ap (allows_tenant k) e ∙ allowed

  pub found-Shown :
      (r : Result PolicyPack)
      → ((p : PolicyPack) → r ≡ ok p → p.tenant_id ≡ t)
      → Shown k (Packs.found r).payload
  found-Shown (ok p) own = ap (allows_tenant k) (own p refl) ∙ allowed
  found-Shown (err e) own = tt

  pub saved-Shown :
      (r : Result PolicyPack)
      → ((p : PolicyPack) → r ≡ ok p → p.tenant_id ≡ t)
      → Shown k (Packs.saved r).payload
  saved-Shown (ok p) own = ap (allows_tenant k) (own p refl) ∙ allowed
  saved-Shown (err e) own = tt

  pub packs-Shown :
      (r : Result (List PolicyPack))
      → ((ps : List PolicyPack) → r ≡ ok ps → All (λ p. p.tenant_id ≡ t) ps)
      → Shown k (Packs.listed r).payload
  packs-Shown (ok ps) own = allowed_all (λ p. p.tenant_id) ps (own ps refl)
  packs-Shown (err e) own = tt

  pub approval-Shown :
      (r : Result ApprovalRequest)
      → ((q : ApprovalRequest) → r ≡ ok q → q.tenant_id ≡ t)
      → Shown k (Approvals.found r).payload
  approval-Shown (ok q) own = ap (allows_tenant k) (own q refl) ∙ allowed
  approval-Shown (err e) own = tt

  pub approvals-Shown :
      (r : Result (List ApprovalRequest))
      → ((qs : List ApprovalRequest) → r ≡ ok qs → All (λ q. q.tenant_id ≡ t) qs)
      → Shown k (Approvals.listed r).payload
  approvals-Shown (ok qs) own = allowed_all (λ q. q.tenant_id) qs (own qs refl)
  approvals-Shown (err e) own = tt

  pub decision-Shown :
      (r : Result ApprovalRequest)
      → ((q : ApprovalRequest) → r ≡ ok q → q.tenant_id ≡ t)
      → Shown k (Approvals.decision_response r).payload
  unfolding Approvals.decision_response
  decision-Shown (ok q) own = ap (allows_tenant k) (own q refl) ∙ allowed
  decision-Shown (err e) own = tt

  pub page-Shown :
      (o : ListOptions) (r next : Result (List AuditRecord))
      → ((rs : List AuditRecord) → r ≡ ok rs → All (λ q. q.event.tenant_id ≡ t) rs)
      → Shown k (Events.audit_page o r next).payload
  unfolding Events.audit_page
  page-Shown o (err e) next own = tt
  page-Shown o (ok rs) (err e) own = tt
  page-Shown o (ok rs) (ok next) own = allowed_all (λ q. q.event.tenant_id) rs (own rs refl)
