-- ===== src/Http/Effects.antt =====
-- What one request to the server over the in-memory stores can change.
use agent_secyrity.Prelude.{
  ◌≡◌, refl, inl, inr, String, Option, none, some, ◌==◌, Bool-cases, Option-cases,
}
use agent_secyrity.Prelude.Int.{ℤ}
use agent_secyrity.Strings.{Folding}
use agent_secyrity.Maps.{Iteration}
use agent_secyrity.Keys.{HasNoNul}
use agent_secyrity.Domain.Errors.{Result, ok, err, Result-cases}
use agent_secyrity.Auth.{ApiKey, ApiKeyConfig, authenticate_request, is_enabled}
use agent_secyrity.Runtime.Memory.{Stores, pack_store}
use agent_secyrity.Prelude.{Bool}
use agent_secyrity.Domain.{Time, RuntimeEvent, PolicyPack}
use agent_secyrity.Domain.Errors.{Context}
use agent_secyrity.Approval.{DecisionInput, decide}
use agent_secyrity.PolicyPack as Packs
use agent_secyrity.Runtime.{Readings, evaluate_event}
use agent_secyrity.Runtime.Memory.{memory_service}
use agent_secyrity.Http.{Request, Codec, Moments, Answer, guarded, authorize_tenant}
use agent_secyrity.Http.Memory.{memory_handler}
use agent_secyrity.Http.Events.{evaluate, list_audit_events, list_checked, simulate_policy_pack}
use agent_secyrity.Http.Query.{parse_audit_list_options}
use agent_secyrity.Http.Packs.{
  upsert_policy_pack, list_policy_packs, get_policy_pack, set_policy_pack_enabled, upserted,
  switched,
}
use agent_secyrity.Http.Approvals.{list_approvals, get_approval, decide_approval}
use agent_secyrity.Http.Access.{tenant_of, IsPlain}
use agent_secyrity.Http.Router.{
  Route, health, evaluation, audit, put_pack, get_pack, patch_pack, list_packs, simulation,
  list_requests, get_request, decide_request, find_route, is_health_check, dispatch, serve_routes,
  serve,
}

module _ ⦃order : Iteration⦄ ⦃folding : Folding⦄ (ttl : ℤ) where
  -- The state after a request: as before, or after one call of a store or of the service, for a
  -- tenant without a NUL character where it may store it.
  pub data Effect : Stores → Stores → Type 0 where
    kept : (s : Stores) → Effect s s
    upserted_pack :
        (s : Stores) (ctx : Context) (pack : PolicyPack)
        → HasNoNul pack.tenant_id
        → Effect s (record s { packs = (Packs.upsert ctx pack s.packs).0 })
    switched_pack :
        (s : Stores) (ctx : Context) (t id : String) (enabled : Bool)
        → Effect s (record s { packs = (Packs.set_enabled ctx t id enabled s.packs).0 })
    evaluated :
        (s : Stores) (at : Readings) (event : RuntimeEvent)
        → HasNoNul event.tenant_id
        → Effect s (evaluate_event (memory_service ttl) at event s).0
    decided_request :
        (s : Stores) (ctx : Context) (clock : Time) (t id : String) (input : DecisionInput)
        → Effect s (record s { approvals = (decide ctx clock t id input s.approvals).0 })

module _ {B : Type 0} (codec : Codec B) ⦃order : Iteration⦄ ⦃folding : Folding⦄
    (keys : ApiKeyConfig) (ttl : ℤ) where
  module _ (at : Moments) (key : Option ApiKey) where
    guarded-Effect :
        (t : String) (s : Stores) (rest : Answer Stores)
        → Effect ttl s rest.0
        → Effect ttl s (guarded (memory_handler keys ttl) key t s rest).0
    guarded-Effect t s rest after = elim (Bool-cases (authorize_tenant keys key t)) [
      | inl allowed ↦ rw allowed after
      | inr other ↦ rw other (kept s)
    ]

    written-Effect :
        (t id : String) (s : Stores) (p : Stores × Result (Unit {0}))
        → Effect ttl s p.0
        → Effect ttl s (upserted codec (memory_handler keys ttl) key at pack_store t id p).0
          × Effect ttl s (switched codec (memory_handler keys ttl) key at pack_store t id p).0
    written-Effect t id s (s', ok u) effect = (effect, effect)
    written-Effect t id s (s', err e) effect = (effect, effect)

    audited-Effect :
        (s : Stores) (o : _)
        → Effect ttl s (list_checked codec (memory_handler keys ttl) key at s o).0
    audited-Effect s (err e) = kept s
    audited-Effect s (ok o) = elim (Bool-cases (is_enabled keys)) [
      | inr off ↦ rw off (kept s)
      | inl on ↦ elim (Bool-cases (o.tenant_id == "")) [
        | inl blank ↦ rw (on, blank) (kept s)
        | inr named ↦ rw (on, named) (guarded-Effect o.tenant_id s _ (kept s))
      ]
    ]

    dispatch-Effect :
        (route : Route) (r : Request B) (s : Stores)
        → ((t : String)
            → tenant_of codec (memory_handler keys ttl) at route r ≡ some t
            → HasNoNul t)
        → Effect ttl s (dispatch codec (memory_handler keys ttl) at key route r s).0
    unfolding dispatch evaluate list_audit_events simulate_policy_pack upsert_policy_pack
        list_policy_packs get_policy_pack set_policy_pack_enabled list_approvals get_approval
        decide_approval
    dispatch-Effect health r s plain = kept s
    dispatch-Effect evaluation r s plain = elim (Result-cases (codec.event r.body)) [
      | inr (e, failing) ↦ rw failing (kept s)
      | inl (event, decoded) ↦ rw decoded (
          guarded-Effect event.tenant_id s _
            (evaluated s at.evaluation event (plain event.tenant_id (rw decoded refl))))
    ]
    dispatch-Effect audit r s plain = audited-Effect s (parse_audit_list_options r.query)
    dispatch-Effect (put_pack t p) r s plain =
        guarded-Effect t s _ (elim (Result-cases (codec.pack r.body)) [
          | inr (e, failing) ↦ rw failing (kept s)
          | inl (q, decoded) ↦
              rw decoded
                (written-Effect t p s _
                  (upserted_pack s at.first (record q { tenant_id = t; id = p }) (plain t refl))).0
        ])
    dispatch-Effect (get_pack t p) r s plain = guarded-Effect t s _ (kept s)
    dispatch-Effect (patch_pack t p) r s plain =
        guarded-Effect t s _ (elim (Result-cases (codec.enabled r.body)) [
          | inr (e, failing) ↦ rw failing (kept s)
          | inl (b, decoded) ↦
              rw decoded (written-Effect t p s _ (switched_pack s at.first t p b)).1
        ])
    dispatch-Effect (list_packs t) r s plain = guarded-Effect t s _ (kept s)
    dispatch-Effect (simulation t) r s plain =
        guarded-Effect t s _ (elim (Result-cases (codec.simulation r.body)) [
          | inr (e, failing) ↦ rw failing (kept s)
          | inl (q, decoded) ↦ elim (Bool-cases (q.event.tenant_id == t)) [
            | inl same ↦ rw (decoded, same) (kept s)
            | inr other ↦ rw (decoded, other) (kept s)
          ]
        ])
    dispatch-Effect (list_requests t) r s plain = guarded-Effect t s _ (kept s)
    dispatch-Effect (get_request t p) r s plain = guarded-Effect t s _ (kept s)
    dispatch-Effect (decide_request t p) r s plain =
        guarded-Effect t s _ (elim (Result-cases (codec.decision r.body)) [
          | inr (e, failing) ↦ rw failing (kept s)
          | inl (q, decoded) ↦ rw decoded (decided_request s at.first at.first_time t p _)
        ])

  module _ (at : Moments) where
    routed-Effect :
        (key : Option ApiKey) (r : Request B) (s : Stores)
        → IsPlain codec (memory_handler keys ttl) at r
        → Effect ttl s (serve_routes codec (memory_handler keys ttl) at key r s).0
    unfolding serve_routes
    routed-Effect key r s plain = elim (Option-cases (find_route r.method r.path)) [
      | inl missing ↦ rw missing (kept s)
      | inr (route, found) ↦ rw found (dispatch-Effect at key route r s (λ t. plain route t found))
    ]

    pub serve-Effect :
        (r : Request B) (s : Stores)
        → IsPlain codec (memory_handler keys ttl) at r
        → Effect ttl s (serve codec (memory_handler keys ttl) at r s).0
    unfolding serve
    serve-Effect r s plain = elim (Bool-cases (is_enabled keys)) [
      | inr off ↦ rw off (routed-Effect none r s plain)
      | inl on ↦ elim (Bool-cases (is_health_check r.method r.path)) [
        | inl check ↦ rw (on, check) (routed-Effect none r s plain)
        | inr other ↦ elim (Result-cases (authenticate_request keys r.authorization)) [
          | inr (e, unknown) ↦ rw (on, other, unknown) (kept s)
          | inl (k, known) ↦ rw (on, other, known) (routed-Effect (some k) r s plain)
        ]
      ]
    ]
