-- ===== src/Http/Confined/Serve.antt =====
-- Every route shows a key only what belongs to its tenants.
use agent_secyrity.Prelude.{
  ◌≡◌, ◌≢◌, refl, sym, ◌∙◌, inl, inr, String, true, Option, none, some, List, [], ◌∷◌, ◌==◌, arith,
  All, eq_iff, Bool-cases, Option-cases,
}
use mathlib.Core.Path.{subst}
use agent_secyrity.Strings.{Folding}
use agent_secyrity.Keys.{HasNoNul}
use agent_secyrity.Domain.{EvaluationResult}
use agent_secyrity.Domain.Errors.{
  Error, ValidationError, Result, ok, err, Result-cases, as_validation, is_invalid_runtime_event,
}
use agent_secyrity.Audit.{ListOptions, normalize}
use agent_secyrity.Auth.{ApiKey, is_enabled, authenticate_request}
use agent_secyrity.Policy.Simulation.{SimulationResult}
use agent_secyrity.Http.{Request, Codec, Moments, Handler}
use agent_secyrity.Http.Query.{parse_audit_list_options}
use agent_secyrity.Http.Events.{
  evaluation_refused, evaluation_response, simulation_response, evaluate, list_audit_events,
  list_checked, simulate_policy_pack,
}
use agent_secyrity.Http.Access.{IsPlain, tenant_of, find_route-health}
use agent_secyrity.Http.Router.{
  Route, health, evaluation, audit, put_pack, get_pack, patch_pack, list_packs, simulation,
  list_requests, get_request, decide_request, Candidate, candidates, find_route, not_routed,
  is_health_check, dispatch, serve_routes, serve,
}
use agent_secyrity.Http.Confined.{KeepsTenants, Shown, page-Shown}
use agent_secyrity.Http.Confined.Handlers.{
  ShownBy, guarded-Shown, get_policy_pack-Shown, list_policy_packs-Shown, upsert_policy_pack-Shown,
  set_policy_pack_enabled-Shown, get_approval-Shown, list_approvals-Shown, decide_approval-Shown,
}

normalize-tenant : (o : ListOptions) → (normalize o).tenant_id ≡ o.tenant_id
unfolding normalize
normalize-tenant o = ground arith

not_routed-Shown : (k : ApiKey) (cs : List Candidate) → Shown k (not_routed cs).payload
not_routed-Shown k [] = tt
not_routed-Shown k (c ∷ cs) = tt

module _ (k : ApiKey) where
  evaluation_response-Shown :
      (r : Result EvaluationResult) → Shown k (evaluation_response r).payload
  unfolding evaluation_response
  evaluation_response-Shown (ok result) = tt
  evaluation_response-Shown (err e) = refused e (as_validation e)
    where
      refused : (e : Error) (v : Option ValidationError) → Shown k (evaluation_refused e v).payload
      refused e (some v) = elim (Bool-cases (is_invalid_runtime_event e)) [
        | inl invalid ↦ rw invalid tt
        | inr other ↦ rw other tt
      ]
      refused e none = elim (Bool-cases (is_invalid_runtime_event e)) [
        | inl invalid ↦ rw invalid tt
        | inr other ↦ rw other tt
      ]

  simulation_response-Shown :
      (r : Result SimulationResult) → Shown k (simulation_response r).payload
  unfolding simulation_response
  simulation_response-Shown (ok result) = tt
  simulation_response-Shown (err e) = elim (Option-cases (as_validation e)) [
    | inl other ↦ rw other tt
    | inr (v, invalid) ↦ rw invalid tt
  ]

module _ {S B : Type 0} (codec : Codec B) (h : Handler S) (at : Moments) (Sound : S → Type 0)
    (laws : KeepsTenants Sound h) (enabled : is_enabled h.api_keys ≡ true) where
  module _ (k : ApiKey) where
    list_checked-Shown :
        (s : S) (o : Result ListOptions)
        → ShownBy codec h at k Sound laws enabled (list_checked codec h (some k) at s o)
    list_checked-Shown s (err e) = tt
    list_checked-Shown s (ok o) = elim (Bool-cases (o.tenant_id == "")) [
      | inl blank ↦ rw (enabled, blank) tt
      | inr filled ↦
          let named : o.tenant_id ≢ "" = ground (arith, eq_iff o.tenant_id "") in
          rw (enabled, filled)
            (guarded-Shown codec h at k Sound laws enabled o.tenant_id s _ λ allowed.
              page-Shown k o.tenant_id allowed (normalize o) _ _ (
                let same = normalize-tenant o in
                λ rs listed.
                  subst (λ t. All (λ q. q.event.tenant_id ≡ t) rs) same
                    (laws.audit.list at.first (normalize o) s rs (λ e. named (sym same ∙ e))
                      listed)))
    ]

    module _ ⦃folding : Folding⦄ where
      dispatch-Shown :
          (route : Route) (r : Request B) (s : S)
          → Sound s
          → ((t : String) → tenant_of codec h at route r ≡ some t → HasNoNul t)
          → ShownBy codec h at k Sound laws enabled (dispatch codec h at (some k) route r s)
      unfolding dispatch evaluate list_audit_events simulate_policy_pack
      dispatch-Shown health r s sound plain = tt
      dispatch-Shown evaluation r s sound plain = elim (Result-cases (codec.event r.body)) [
        | inr (e, failing) ↦ rw failing tt
        | inl (event, decoded) ↦ rw decoded (
            guarded-Shown codec h at k Sound laws enabled event.tenant_id s _
              λ allowed. evaluation_response-Shown k _)
      ]
      dispatch-Shown audit r s sound plain = list_checked-Shown s (parse_audit_list_options r.query)
      dispatch-Shown (put_pack t p) r s sound plain =
          upsert_policy_pack-Shown codec h at k Sound laws enabled t p s sound (plain t refl) r
      dispatch-Shown (get_pack t p) r s sound plain =
          get_policy_pack-Shown codec h at k Sound laws enabled t p s sound (plain t refl)
      dispatch-Shown (patch_pack t p) r s sound plain =
          set_policy_pack_enabled-Shown codec h at k Sound laws enabled t p s sound (plain t refl) r
      dispatch-Shown (list_packs t) r s sound plain =
          list_policy_packs-Shown codec h at k Sound laws enabled t "" s sound (plain t refl)
      dispatch-Shown (simulation t) r s sound plain =
          guarded-Shown codec h at k Sound laws enabled t s _ λ allowed.
            elim (Result-cases (codec.simulation r.body)) [
              | inr (e, failing) ↦ rw failing tt
              | inl (q, decoded) ↦ elim (Bool-cases (q.event.tenant_id == t)) [
                | inl same ↦ rw (decoded, same) (simulation_response-Shown k _)
                | inr other ↦ rw (decoded, other) tt
              ]
            ]
      dispatch-Shown (list_requests t) r s sound plain =
          list_approvals-Shown codec h at k Sound laws enabled t "" s sound (plain t refl)
      dispatch-Shown (get_request t p) r s sound plain =
          get_approval-Shown codec h at k Sound laws enabled t p s sound (plain t refl)
      dispatch-Shown (decide_request t p) r s sound plain =
          decide_approval-Shown codec h at k Sound laws enabled t p s sound (plain t refl) r

  module _ ⦃folding : Folding⦄ where
    -- With keys configured, over stores that keep tenants apart, a response to a request with a
    -- configured key shows no pack, approval request or audit record of a tenant that the key may not
    -- use, if no tenant that the request is about has a NUL character.
    pub serve-Shown :
        (r : Request B) (s : S) (k : ApiKey)
        → Sound s
        → IsPlain codec h at r
        → authenticate_request h.api_keys r.authorization ≡ ok k
        → Shown k (serve codec h at r s).1.payload
    unfolding serve serve_routes dispatch
    serve-Shown r s k sound plain known = elim (Bool-cases (is_health_check r.method r.path)) [
      | inl check ↦ rw (enabled, check, find_route-health r.method r.path check) tt
      | inr other ↦
          rw (enabled, other, known)
            (elim (Option-cases (find_route r.method r.path)) [
              | inl missing ↦ rw missing (not_routed-Shown k (candidates r.path))
              | inr (route, found) ↦
                  rw found (dispatch-Shown k route r s sound (λ t. plain route t found))
            ])
    ]
