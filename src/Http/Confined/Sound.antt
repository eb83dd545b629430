-- ===== src/Http/Confined/Sound.antt =====
-- Which states of the in-memory stores are sound, and that Get, Decide, Upsert and SetEnabled respect
-- it.
use agent_secyrity.Prelude.{
  ◌≡◌, sym, ap, ◌∙◌, inl, inr, String, Bool, Option, none, some, ◌==◌, Bool-cases, Option-cases,
}
use mathlib.Core.Path.{subst}
use agent_secyrity.Maps.{lookup, insert_cases, lookup-empty}
use agent_secyrity.Keys.{key, HasNoNul, key_injective}
use agent_secyrity.Domain.{Time, PolicyPack, ApprovalRequest}
use agent_secyrity.Domain.Errors.{Result, ok, err, Context}
use agent_secyrity.PolicyPack as Packs
use agent_secyrity.PolicyPack.{with_defaults}
use agent_secyrity.PolicyPack.Invariant.{IsValid, IsValid-new, upsert-IsValid, set_enabled-IsValid}
use agent_secyrity.PolicyPack.Listing.{found_cases}
use agent_secyrity.Approval as Approvals
use agent_secyrity.Approval.{DecisionInput, last_of, effective_limit}
use agent_secyrity.Approval.Laws.{decide-Answer, invalid, missing, settled, late, given}
use agent_secyrity.Runtime.Memory.{Stores}
use agent_secyrity.Server.{new_stores}

-- The packs are valid, a request stands at its own key, and no stored tenant has a NUL character.
pub record IsSound (s : Stores) : Type 0 where
  pub packs : IsValid s.packs
  pub pack_tenants :
      (k : String) (p : PolicyPack) → lookup k s.packs.packs ≡ some p → HasNoNul p.tenant_id
  pub requests :
      (k : String) (r : ApprovalRequest)
      → lookup k s.approvals.requests ≡ some r
      → (k ≡ key r.tenant_id r.id) × HasNoNul r.tenant_id

pub request_found :
    (found : Option ApprovalRequest) (r : ApprovalRequest)
    → Approvals.found_or_missing found ≡ ok r
    → found ≡ some r
request_found none r h = absurd (cc h)
request_found (some q) r h = cc h

pub IsSound-new : IsSound new_stores
IsSound-new = record {
  packs = IsValid-new;
  pack_tenants = λ k p h. absurd (cc (h, lookup-empty {V = PolicyPack} k));
  requests = λ k r h. absurd (cc (h, lookup-empty {V = ApprovalRequest} k));
}

pub get-tenant :
    (ctx : Context) (t id : String) (s : Stores) (p : PolicyPack)
    → IsSound s
    → HasNoNul t
    → Packs.get ctx t id s.packs ≡ ok p
    → p.tenant_id ≡ t
unfolding Packs.get
get-tenant (some e) t id s p sound plain h = absurd (cc h)
get-tenant none t id s p sound plain h =
    let found = found_cases _ p h in
    let at_key = (sound.packs.stored (key t id) p found).at_key in
    sym (key_injective t p.tenant_id id p.id plain (sound.pack_tenants _ p found) at_key).0

pub request-tenant :
    (ctx : Context) (t id : String) (s : Stores) (r : ApprovalRequest)
    → IsSound s
    → HasNoNul t
    → Approvals.get ctx t id s.approvals ≡ ok r
    → r.tenant_id ≡ t
unfolding Approvals.get
request-tenant (some e) t id s r sound plain h = absurd (cc h)
request-tenant none t id s r sound plain h =
    let (at_key, named) = sound.requests (key t id) r (request_found _ r h) in
    sym (key_injective t r.tenant_id id r.id plain named at_key).0

pub decided-tenant :
    (ctx : Context) (now : Time) (t id : String) (input : DecisionInput) (s : Stores)
    (r : ApprovalRequest)
    → IsSound s
    → HasNoNul t
    → (Approvals.decide ctx now t id input s.approvals).1 ≡ ok r
    → r.tenant_id ≡ t
decided-tenant (some e) now t id input s r sound plain h = absurd (unfold Approvals.decide in cc h)
decided-tenant none now t id input s r sound plain h =
    elim (decide-Answer now t id input s.approvals) [
      | invalid _ answer _ ↦ absurd (cc (h, answer))
      | missing _ _ answer _ ↦ absurd (cc (h, answer))
      | settled _ _ _ _ answer _ ↦ absurd (cc (h, answer))
      | late _ _ _ _ _ answer _ ↦ absurd (cc (h, answer))
      | given _ q found _ _ answer _ ↦
          let same = sym h ∙ answer in
          ap (tenant_or t) same ∙ request-tenant none t id s q sound plain found
    ]
  where
    tenant_or : String → Result ApprovalRequest → String
    tenant_or t (ok r) = r.tenant_id
    tenant_or t (err e) = t

pub upsert-IsSound :
    (ctx : Context) (p : PolicyPack) (s : Stores)
    → IsSound s
    → HasNoNul p.tenant_id
    → IsSound (record s { packs = (Packs.upsert ctx p s.packs).0 })
unfolding Packs.upsert
upsert-IsSound ctx p s sound plain = record {
  packs = upsert-IsValid ctx p s.packs sound.packs;
  pack_tenants = tenants ctx;
  requests = sound.requests;
}
  where
    tenants :
        (ctx : Context) (k : String) (q : PolicyPack)
        → lookup k (Packs.upsert ctx p s.packs).0.packs ≡ some q
        → HasNoNul q.tenant_id
    tenants (some e) k q h = sound.pack_tenants k q h
    tenants none k q h = elim (Bool-cases (p.tenant_id == "")) [
      | inl blank ↦ sound.pack_tenants k q (rw blank at h)
      | inr named ↦ elim (Bool-cases (p.id == "")) [
        | inl blank ↦ sound.pack_tenants k q (rw (named, blank) at h)
        | inr filled ↦
            elim (insert_cases (key p.tenant_id p.id) k (with_defaults p) q s.packs.packs
              (rw (named, filled) at h)) [
                | inl (_, same) ↦ subst (λ x. HasNoNul x.tenant_id) same plain
                | inr before ↦ sound.pack_tenants k q before
              ]
      ]
    ]

pub set_enabled-IsSound :
    (ctx : Context) (t id : String) (b : Bool) (s : Stores)
    → IsSound s
    → IsSound (record s { packs = (Packs.set_enabled ctx t id b s.packs).0 })
unfolding Packs.set_enabled
set_enabled-IsSound ctx t id b s sound = record {
  packs = set_enabled-IsValid ctx t id b s.packs sound.packs;
  pack_tenants = tenants ctx;
  requests = sound.requests;
}
  where
    tenants :
        (ctx : Context) (k : String) (q : PolicyPack)
        → lookup k (Packs.set_enabled ctx t id b s.packs).0.packs ≡ some q
        → HasNoNul q.tenant_id
    tenants (some e) k q h = sound.pack_tenants k q h
    tenants none k q h = elim (Option-cases (lookup (key t id) s.packs.packs)) [
      | inl nothing ↦ sound.pack_tenants k q (rw nothing at h)
      | inr (p, found) ↦
          elim (insert_cases (key t id) k (record p { enabled = b }) q s.packs.packs
            (rw found at h)) [
              | inl (_, same) ↦
                  subst (λ x. HasNoNul x.tenant_id) same (sound.pack_tenants (key t id) p found)
              | inr before ↦ sound.pack_tenants k q before
            ]
    ]
