-- ===== src/Http/Access.antt =====
-- Who reaches the stores: withAuth, authorizeTenant and the handlers behind them.
use agent_secyrity.Prelude.{
  ◌↔◌, ◌≤◌, ◌≡◌, ◌⊎◌, inl, inr, refl, ap, ◌∙◌, String, true, Option, none, some, List, [], ◌∷◌,
  ◌==◌, arith, eq_iff, Bool-cases, Option-cases,
}
use agent_secyrity.Strings.{Folding}
use agent_secyrity.Keys.{HasNoNul}
use agent_secyrity.Domain.{RuntimeEvent}
use agent_secyrity.Domain.Errors.{Result, ok, err, Result-cases}
use agent_secyrity.Audit.{ListOptions}
use agent_secyrity.Auth.{ApiKey, allows_tenant, is_enabled, authenticate_request}
use agent_secyrity.Interfaces.{PackStore, ApprovalStore}
use agent_secyrity.Http.{
  Request, Codec, Moments, Handler, Answer, guarded, authorize_tenant, write_json, healthy,
}
use agent_secyrity.Http.Query.{parse_audit_list_options}
use agent_secyrity.Http.Events.{
  healthz, evaluate, evaluate_decoded, list_audit_events, list_checked, simulate_policy_pack,
}
use agent_secyrity.Http.Packs.{
  with_packs, upsert_policy_pack, list_policy_packs, get_policy_pack, set_policy_pack_enabled,
}
use agent_secyrity.Http.Approvals.{with_approvals, list_approvals, get_approval, decide_approval}
use agent_secyrity.Http.Router.{
  Route, health, evaluation, audit, put_pack, get_pack, patch_pack, list_packs, simulation,
  list_requests, get_request, decide_request, candidates, find_route, not_routed, is_health_check,
  dispatch, routed, serve_routes, serve,
}

pub find_route-health :
    (method : String) (path : List String)
    → is_health_check method path ≡ true
    → find_route method path ≡ some health
unfolding is_health_check find_route candidates
find_route-health method [] h = absurd (cc h)
find_route-health method (a ∷ []) h = ground (arith, eq_iff method "GET", eq_iff "GET" method)
find_route-health method (a ∷ b ∷ path) h = absurd (cc h)

is_health_check_iff :
    (method : String) (path : List String)
    → (is_health_check method path ≡ true) ↔ ((method ≡ "GET") × (path ≡ "healthz" ∷ []))
unfolding is_health_check
is_health_check_iff method [] = (λ h. absurd (cc h), λ (m, p). absurd (cc p))
is_health_check_iff method (a ∷ []) = (
  λ h. (ground (arith, eq_iff method "GET"), ap (λ x. x ∷ []) (ground (arith, eq_iff a "healthz"))),
  λ (m, p). let same : a ≡ "healthz" = cc p in rw (m, same) refl,
)
is_health_check_iff method (a ∷ b ∷ path) = (λ h. absurd (cc h), λ (m, p). absurd (cc p))

-- A request for GET /healthz.
abbrev pub IsHealthCheck : {B : Type 0} → Request B → Type 0
IsHealthCheck r = (r.method ≡ "GET") × (r.path ≡ "healthz" ∷ [])

not_routed-error : (cs : _) → 400 ≤ (not_routed cs).status
not_routed-error [] = omega arith
not_routed-error (c ∷ cs) = omega arith

-- The stores stay as they were, and the response is an error.
abbrev pub Refused : {S : Type 0} → S → Answer S → Type 0
Refused s answer = (answer.0 ≡ s) × (400 ≤ answer.1.status)

abbrev event_tenant : Result RuntimeEvent → Option String
event_tenant (ok event) = some event.tenant_id
event_tenant (err e) = none

parse-tenant :
    (query : String → String) (o : ListOptions)
    → parse_audit_list_options query ≡ ok o
    → o.tenant_id ≡ query "tenant_id"
unfolding parse_audit_list_options
parse-tenant query o h = ground arith

module _ {S B : Type 0} (codec : Codec B) (h : Handler S) (at : Moments) where
  -- The tenant that a request is about.
  abbrev pub tenant_of : Route → Request B → Option String
  tenant_of health r = none
  tenant_of evaluation r = event_tenant (codec.event r.body)
  tenant_of audit r = some (r.query "tenant_id")
  tenant_of (put_pack t p) r = some t
  tenant_of (get_pack t p) r = some t
  tenant_of (patch_pack t p) r = some t
  tenant_of (list_packs t) r = some t
  tenant_of (simulation t) r = some t
  tenant_of (list_requests t) r = some t
  tenant_of (get_request t p) r = some t
  tenant_of (decide_request t p) r = some t

  -- No tenant that the request is about has a NUL character.
  abbrev pub IsPlain : Request B → Type 0
  IsPlain r =
      (route : Route) (t : String)
      → find_route r.method r.path ≡ some route
      → tenant_of route r ≡ some t
      → HasNoNul t

  module _ (enabled : is_enabled h.api_keys ≡ true) (k : ApiKey) where
    abbrev Guarded : Option String → S → Answer S → Type 0
    Guarded t s answer =
        Refused s answer ⊎ ((tenant : String) × (t ≡ some tenant) × (allows_tenant k tenant ≡ true))

    guarded-Guarded :
        (t : String) (s : S) (rest : Answer S) → Guarded (some t) s (guarded h (some k) t s rest)
    unfolding authorize_tenant
    guarded-Guarded t s rest = elim (Bool-cases (allows_tenant k t)) [
      | inl allowed ↦ inr (t, refl, allowed)
      | inr other ↦ rw (enabled, other) (inl (refl, omega arith))
    ]

    with_packs-Guarded :
        (t : String) (s : S) (rest : PackStore S → Answer S)
        → Guarded (some t) s (with_packs codec h (some k) at t s rest)
    with_packs-Guarded t s rest = elim (Option-cases h.pack_store) [
      | inl nil ↦ rw nil (inl (refl, omega arith))
      | inr (packs, here) ↦ rw here (guarded-Guarded t s (rest packs))
    ]

    with_approvals-Guarded :
        (t : String) (s : S) (rest : ApprovalStore S → Answer S)
        → Guarded (some t) s (with_approvals codec h (some k) at t s rest)
    with_approvals-Guarded t s rest = elim (Option-cases h.approval_store) [
      | inl nil ↦ rw nil (inl (refl, omega arith))
      | inr (store, here) ↦ rw here (guarded-Guarded t s (rest store))
    ]

    list_checked-Guarded :
        (query : String → String) (s : S)
        → Guarded
            (some (query "tenant_id"))
            s
            (list_checked codec h (some k) at s (parse_audit_list_options query))
    list_checked-Guarded query s = elim (Result-cases (parse_audit_list_options query)) [
      | inr (e, failed) ↦ rw failed (inl (refl, omega arith))
      | inl (o, parsed) ↦ elim (Bool-cases (o.tenant_id == "")) [
        | inl blank ↦ rw (parsed, enabled, blank) (inl (refl, omega arith))
        | inr named ↦
            rw (parsed, enabled, named)
              (rw (← parse-tenant query o parsed) (guarded-Guarded o.tenant_id s _))
      ]
    ]

  module _ ⦃folding : Folding⦄ where
    evaluate_decoded-Guarded :
        (enabled : is_enabled h.api_keys ≡ true) (k : ApiKey) (s : S)
        (decoded : Result RuntimeEvent)
        → Guarded enabled k
            (event_tenant decoded)
            s
            (evaluate_decoded codec h (some k) at s decoded)
    evaluate_decoded-Guarded enabled k s (err e) = inl (refl, omega arith)
    evaluate_decoded-Guarded enabled k s (ok event) = guarded-Guarded enabled k event.tenant_id s _

    dispatch-Guarded :
        (enabled : is_enabled h.api_keys ≡ true) (k : ApiKey) (route : Route) (r : Request B)
        (s : S)
        → ((route ≡ health) × (dispatch codec h at (some k) route r s ≡ (s, healthz)))
          ⊎ Guarded enabled k (tenant_of route r) s (dispatch codec h at (some k) route r s)
    unfolding dispatch evaluate list_audit_events simulate_policy_pack upsert_policy_pack
        list_policy_packs get_policy_pack set_policy_pack_enabled list_approvals get_approval
        decide_approval
    dispatch-Guarded enabled k health r s = inl (refl, refl)
    dispatch-Guarded enabled k evaluation r s = inr (evaluate_decoded-Guarded enabled k s _)
    dispatch-Guarded enabled k audit r s = inr (list_checked-Guarded enabled k r.query s)
    dispatch-Guarded enabled k (put_pack t p) r s = inr (with_packs-Guarded enabled k t s _)
    dispatch-Guarded enabled k (get_pack t p) r s = inr (with_packs-Guarded enabled k t s _)
    dispatch-Guarded enabled k (patch_pack t p) r s = inr (with_packs-Guarded enabled k t s _)
    dispatch-Guarded enabled k (list_packs t) r s = inr (with_packs-Guarded enabled k t s _)
    dispatch-Guarded enabled k (simulation t) r s = inr (guarded-Guarded enabled k t s _)
    dispatch-Guarded enabled k (list_requests t) r s = inr (with_approvals-Guarded enabled k t s _)
    dispatch-Guarded enabled k (get_request t p) r s = inr (with_approvals-Guarded enabled k t s _)
    dispatch-Guarded enabled k (decide_request t p) r s =
        inr (with_approvals-Guarded enabled k t s _)

    -- What the answer to a request other than GET /healthz can be when keys are configured; HEAD
    -- /healthz reaches the health check with a key.
    pub data Access (r : Request B) (s : S) (answer : Answer S) : Type 0 where
      refused : Refused s answer → Access r s answer
      checked :
          (k : ApiKey)
          → authenticate_request h.api_keys r.authorization ≡ ok k
          → find_route r.method r.path ≡ some health
          → answer ≡ (s, healthz)
          → Access r s answer
      granted :
          (k : ApiKey) (route : Route) (t : String)
          → authenticate_request h.api_keys r.authorization ≡ ok k
          → find_route r.method r.path ≡ some route
          → tenant_of route r ≡ some t
          → allows_tenant k t ≡ true
          → Access r s answer

    routed-Access :
        (r : Request B) (s : S)
        → is_enabled h.api_keys ≡ true
        → (k : ApiKey) → authenticate_request h.api_keys r.authorization ≡ ok k
        → Access r s (routed codec h at (some k) r s (find_route r.method r.path))
    routed-Access r s enabled k known = elim (Option-cases (find_route r.method r.path)) [
      | inl missing ↦ rw missing (refused (refl, not_routed-error (candidates r.path)))
      | inr (route, found) ↦ rw found (elim (dispatch-Guarded enabled k route r s) [
        | inl (is_health, same) ↦ checked k known (found ∙ ap some is_health) same
        | inr (inl kept) ↦ refused kept
        | inr (inr (t, about, allowed)) ↦ granted k route t known found about allowed
      ])
    ]

    -- With keys configured, GET /healthz is answered with 200 and changes nothing. Any other request is
    -- refused with an error, and changes nothing, unless it carries a configured key and is routed
    -- either to the health check, which it then gets, or to a handler for a tenant that the key may
    -- use.
    pub serve-Access :
        (r : Request B) (s : S)
        → is_enabled h.api_keys ≡ true
        → (IsHealthCheck r → serve codec h at r s ≡ (s, write_json 200 healthy))
          × (¬ IsHealthCheck r → Access r s (serve codec h at r s))
    unfolding serve serve_routes dispatch
    serve-Access r s enabled = (
      λ health_check.
          let check = is_health_check_iff r.method r.path in
          let found = find_route-health r.method r.path (check.1 health_check) in
          rw (enabled, check.1 health_check, found) refl,
      λ not_health_check. elim (Bool-cases (is_health_check r.method r.path)) [
        | inl check ↦ absurd (not_health_check ((is_health_check_iff r.method r.path).0 check))
        | inr other ↦ elim (Result-cases (authenticate_request h.api_keys r.authorization)) [
          | inr (e, failed) ↦ rw (enabled, other, failed) (refused (refl, omega arith))
          | inl (k, known) ↦ rw (enabled, other, known) (routed-Access r s enabled k known)
        ]
      ],
    )
