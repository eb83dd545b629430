-- ===== src/Http/Router.antt =====
-- router and withAuth of internal/transport/httpapi/handler.go. The matching of http.ServeMux is on
-- the patterns that `router` registers: a wildcard takes one segment, a pattern for GET also serves
-- HEAD, and a request that no pattern takes is answered 404, or 405 where only the method is wrong.
-- Go's clean-up of paths, which redirects, has taken place before.
use agent_secyrity.Prelude.{
  String, Bool, false, not, ◌&&◌, ◌||◌, Option, none, some, List, [], ◌∷◌, ◌++◌, ◌==◌,
  if◌then◌else◌,
}
use agent_secyrity.Strings.{Folding}
use agent_secyrity.Domain.Errors.{Result, ok, err}
use agent_secyrity.Auth.{ApiKey, is_enabled, authenticate_request}
use agent_secyrity.Http.{
  Request, Codec, Moments, text, unrouted, Response, write_json, write_error, Handler, Answer,
}
use agent_secyrity.Http.Events.{healthz, evaluate, list_audit_events, simulate_policy_pack}
use agent_secyrity.Http.Packs.{
  upsert_policy_pack, list_policy_packs, get_policy_pack, set_policy_pack_enabled,
}
use agent_secyrity.Http.Approvals.{list_approvals, get_approval, decide_approval}

-- The handler that a pattern names, with the values of its wildcards.
pub data Route : Type 0 where
  health evaluation audit : Route
  put_pack get_pack patch_pack : String → String → Route
  list_packs simulation list_requests : String → Route
  get_request decide_request : String → String → Route

-- `mux.HandleFunc("METHOD path", handler)`, for a path that the pattern's path takes
abbrev pub Candidate : Type 0
Candidate = String × Route

abbrev when : Bool → List Candidate → List Candidate
when taken candidates = if taken then candidates else []

-- the patterns whose path takes the segments
unfoldable pub candidates : List String → List Candidate
candidates (a ∷ []) = when (a == "healthz") (("GET", health) ∷ [])
candidates (a ∷ b ∷ []) = when (a == "v1" && b == "evaluate") (("POST", evaluation) ∷ [])
candidates (a ∷ b ∷ c ∷ []) =
    when (a == "v1" && b == "audit" && c == "events") (("GET", audit) ∷ [])
candidates (a ∷ b ∷ t ∷ c ∷ []) =
    when (a == "v1" && b == "tenants" && c == "policy-packs") (("GET", list_packs t) ∷ [])
    ++ (when (a == "v1" && b == "tenants" && c == "policy-simulations")
          (("POST", simulation t) ∷ [])
        ++ when (a == "v1" && b == "tenants" && c == "approvals") (("GET", list_requests t) ∷ []))
candidates (a ∷ b ∷ t ∷ c ∷ p ∷ []) =
    when (a == "v1" && b == "tenants" && c == "policy-packs")
      (("PUT", put_pack t p) ∷ ("GET", get_pack t p) ∷ [])
    ++ when (a == "v1" && b == "tenants" && c == "approvals") (("GET", get_request t p) ∷ [])
candidates (a ∷ b ∷ t ∷ c ∷ p ∷ d ∷ []) =
    when (a == "v1" && b == "tenants" && c == "policy-packs" && d == "enabled")
      (("PATCH", patch_pack t p) ∷ [])
    ++ when (a == "v1" && b == "tenants" && c == "approvals" && d == "decide")
        (("POST", decide_request t p) ∷ [])
candidates _ = []

-- whether a pattern for `wanted` serves a request with `method`
abbrev serves : String → String → Bool
serves wanted method = wanted == method || wanted == "GET" && method == "HEAD"

pub pick : String → List Candidate → Option Route
pick method [] = none
pick method ((wanted, route) ∷ rest) = if serves wanted method then some route else pick method rest

unfoldable pub find_route : String → List String → Option Route
unfolding pick
find_route method path = pick method (candidates path)

-- the answer of ServeMux where no pattern serves the request
abbrev pub not_routed : List Candidate → Response
not_routed [] = write_json 404 unrouted
not_routed (c ∷ cs) = write_json 405 unrouted

-- `r.Method == http.MethodGet && r.URL.Path == "/healthz"`
unfoldable pub is_health_check : String → List String → Bool
is_health_check method (a ∷ []) = method == "GET" && a == "healthz"
is_health_check method _ = false

abbrev pub unauthorized_response : Response
unauthorized_response = write_error 401 "unauthorized" (text "missing or invalid API key")

module _ {S B : Type 0} (codec : Codec B) (h : Handler S) (at : Moments) ⦃folding : Folding⦄ where
  unfoldable pub dispatch : Option ApiKey → Route → Request B → S → Answer S
  dispatch key health r s = (s, healthz)
  dispatch key evaluation r s = evaluate codec h key at r s
  dispatch key audit r s = list_audit_events codec h key at r s
  dispatch key (put_pack t p) r s = upsert_policy_pack codec h key at t p r s
  dispatch key (get_pack t p) r s = get_policy_pack codec h key at t p s
  dispatch key (patch_pack t p) r s = set_policy_pack_enabled codec h key at t p r s
  dispatch key (list_packs t) r s = list_policy_packs codec h key at t s
  dispatch key (simulation t) r s = simulate_policy_pack codec h key at t r s
  dispatch key (list_requests t) r s = list_approvals codec h key at t s
  dispatch key (get_request t p) r s = get_approval codec h key at t p s
  dispatch key (decide_request t p) r s = decide_approval codec h key at t p r s

  abbrev pub routed : Option ApiKey → Request B → S → Option Route → Answer S
  routed key r s none = (s, not_routed (candidates r.path))
  routed key r s (some route) = dispatch key route r s

  -- the handler that `router` returns, with the key of the context
  unfoldable pub serve_routes : Option ApiKey → Request B → S → Answer S
  serve_routes key r s = routed key r s (find_route r.method r.path)

  abbrev pub authenticated : Request B → S → Result ApiKey → Answer S
  authenticated r s (err e) = (s, unauthorized_response)
  authenticated r s (ok k) = serve_routes (some k) r s

  -- NewRouterWithOptions: withAuth around the routes
  unfoldable pub serve : Request B → S → Answer S
  serve r s =
      if not (is_enabled h.api_keys)
      then serve_routes none r s
      else if is_health_check r.method r.path
      then serve_routes none r s
      else authenticated r s (authenticate_request h.api_keys r.authorization)
