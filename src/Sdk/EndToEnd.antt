-- ===== src/Sdk/EndToEnd.antt =====
-- The enforcer, the client, the router, the service and the in-memory stores together.
use agent_secyrity.Prelude.{
  ◌≡◌, ◌≢◌, ◌≤◌, ◌⊎◌, inl, inr, refl, ap, true, false, Option, none, some, [], ◌∷◌, ltb, leb, ◌||◌,
  arith, Bool-cases,
}
use agent_secyrity.Prelude.Int.{ℤ}
use agent_secyrity.Strings.{Folding}
use agent_secyrity.Maps.{Iteration}
use agent_secyrity.Domain.{RuntimeEvent, PolicyPack, EvaluationResult, decision_deny}
use agent_secyrity.Domain.Event.{normalize}
use agent_secyrity.Domain.Errors.{
  Error, ValidationError, as_validation, Result, ok, err, Result-cases,
}
use agent_secyrity.PolicyPack.Invariant.{IsValid}
use agent_secyrity.Auth.{ApiKey, ApiKeyConfig, is_enabled, authenticate_request}
use agent_secyrity.Runtime.{stamped, evaluate_event}
use agent_secyrity.Runtime.Memory.{Stores, memory_service}
use agent_secyrity.Runtime.Denial.{Denier, denied_iff}
use agent_secyrity.Http.{
  Request, Codec, Moments, Payload, evaluation, Response, write_json, authorize_tenant,
}
use agent_secyrity.Http.Events.{evaluation_refused, evaluate_decoded, evaluation_response}
use agent_secyrity.Http.Events as Events
use agent_secyrity.Http.Memory.{memory_handler}
use agent_secyrity.Http.Router.{
  find_route, candidates, is_health_check, dispatch, serve_routes, serve,
}
use agent_secyrity.Sdk.Types.{platform_event, client_result}
use agent_secyrity.Sdk.Types as Types
use agent_secyrity.Sdk.{Platform, Reply, done, fault, allowed, requires_approval}
use agent_secyrity.Sdk.Client.{Client, received, evaluate, do_json, new_request}
use agent_secyrity.Sdk.Enforcer.{ActionFunc, ApprovalWaiter, Execution, evaluated, execute}
use agent_secyrity.Sdk.Link.{Wire, network, IsWired}

-- A response that lets no action run: an error, or a result that blocks it.
abbrev Blocks : (EvaluationResult → Type 0) → Response → Type 0
Blocks P response =
    (400 ≤ response.status)
    ⊎ ((r : EvaluationResult) × (response ≡ write_json 200 (evaluation r)) × P r)

refused-error : (e : Error) (o : Option ValidationError) → 400 ≤ (evaluation_refused e o).status
refused-error e none = ground arith
refused-error e (some v) = ground arith

Blocks-response :
    {P : EvaluationResult → Type 0} (result : Result EvaluationResult)
    → ((r : EvaluationResult) → result ≡ ok r → P r)
    → Blocks P (evaluation_response result)
unfolding evaluation_response
Blocks-response (ok r) denies = inr (r, refl, denies r refl)
Blocks-response (err e) denies = inl (refused-error e (as_validation e))

module _ {B : Type 0} (codec : Codec B) ⦃order : Iteration⦄ ⦃folding : Folding⦄
    (keys : ApiKeyConfig) (ttl : ℤ) (at : Moments) (event : RuntimeEvent) (s : Stores)
    (P : EvaluationResult → Type 0)
    (denies : (r : EvaluationResult)
      → (evaluate_event (memory_service ttl) at.evaluation event s).1 ≡ ok r
      → P r) where
  Blocks-evaluate_decoded :
      (key : Option ApiKey)
      → Blocks P (evaluate_decoded codec (memory_handler keys ttl) key at s (ok event)).1
  Blocks-evaluate_decoded key = elim (Bool-cases (authorize_tenant keys key event.tenant_id)) [
    | inl granted ↦ rw granted (Blocks-response _ denies)
    | inr other ↦ rw other (inl (omega arith))
  ]

  module _ (r : Request B) (posted : r.method ≡ "POST") (there : r.path ≡ "v1" ∷ "evaluate" ∷ [])
      (decoded : codec.event r.body ≡ ok event) where
    Blocks-serve_routes :
        (key : Option ApiKey) → Blocks P (serve_routes codec (memory_handler keys ttl) at key r s).1
    unfolding serve_routes find_route candidates dispatch Events.evaluate
    Blocks-serve_routes key = rw (posted, there, decoded) (Blocks-evaluate_decoded key)

    Blocks-serve : Blocks P (serve codec (memory_handler keys ttl) at r s).1
    unfolding serve is_health_check
    Blocks-serve =
        let not_health : is_health_check r.method r.path ≡ false =
          ap (is_health_check r.method) there in
        elim (Bool-cases (is_enabled keys)) [
          | inr off ↦ rw off (Blocks-serve_routes none)
          | inl on ↦ elim (Result-cases (authenticate_request keys r.authorization)) [
            | inr (e, failed) ↦ rw (on, not_health, failed) (inl (omega arith))
            | inl (k, known) ↦ rw (on, not_health, known) (Blocks-serve_routes (some k))
          ]
        ]

-- A reply that does not allow the action.
abbrev IsBlocking : Reply Types.EvaluationResult → Type 0
IsBlocking (fault f) = Unit
IsBlocking (done r) = r.decision ≡ decision_deny

module _ {B : Type 0} (platform : Platform B) where
  -- The client reads the result back, and it is a denial.
  IsReadDenial : (Payload → B) → EvaluationResult → Type 0
  IsReadDenial b r =
      (platform.decode_result (b (evaluation r)) ≡ ok (client_result r))
      × (r.decision ≡ decision_deny)

  IsBlocking-received :
      {S : Type 0} (s : S) (b : Payload → B) (response : Response)
      → Blocks (IsReadDenial b) response
      → IsBlocking
          (received platform "POST" "/v1/evaluate" platform.decode_result
            (s, ok (record { status_code = response.status; body = b response.payload }))).1
  unfolding IsReadDenial
  IsBlocking-received s b response (inl bad) =
      let failed : (ltb response.status 200 || leb 300 response.status) ≡ true = ground arith in
      rw failed tt
  IsBlocking-received s b response (inr (r, same, (reads, denied))) = rw (same, reads) denied

  -- Once the reply to an evaluation is known, so is what Execute does.
  IsRefused : {S O : Type 0} → S → Execution S O → Type 0
  IsRefused s x = (x.0 ≡ s) × (x.1.output ≡ none) × (x.2 ≢ none)

  IsRefused-evaluated :
      {S O : Type 0} (client : Client S B) (event : Types.RuntimeEvent) (action : ActionFunc S O)
      (waiter : Option (ApprovalWaiter S B)) (p : S × Reply Types.EvaluationResult)
      → IsBlocking p.1
      → IsRefused p.0 (evaluated platform client event action waiter p)
  unfolding IsRefused allowed requires_approval
  IsRefused-evaluated client event action waiter (s, fault f) h = (refl, refl, λ e. cc e)
  IsRefused-evaluated client event action waiter (s, done r) h = rw h (refl, refl, λ e. cc e)

module _ {B : Type 0} (platform : Platform B) (codec : Codec B) (wire : Wire B) ⦃order : Iteration⦄
    ⦃folding : Folding⦄ (keys : ApiKeyConfig) (ttl : ℤ) (at : Moments) (c : Client Stores B)
    (connected : c.http_client ≡ network wire codec (memory_handler keys ttl) at) where
  IsBlocking-evaluate :
      (event : Types.RuntimeEvent) (s : Stores)
      → IsWired platform codec wire c.base_url event
          (evaluate_event (memory_service ttl) at.evaluation (platform_event event) s).1
      → ((r : EvaluationResult)
          → (evaluate_event (memory_service ttl) at.evaluation (platform_event event) s).1 ≡ ok r
          → r.decision ≡ decision_deny)
      → IsBlocking (evaluate platform c event s).1
  unfolding evaluate do_json new_request network IsReadDenial
  IsBlocking-evaluate event s wired denies =
      rw (connected, wired.encode, wired.accepted)
        (IsBlocking-received platform _ wire.render _ (
          Blocks-serve codec keys ttl at (platform_event event) s
            (IsReadDenial platform wire.render)
            (λ r returned. (wired.result r returned, denies r returned)) _ refl wired.path
            wired.decode))

  -- Where the event can be encoded, and it and the result are read back, and an enabled pack of the event's tenant, in the well-formed stores of the server, has a policy
  -- that says deny and that matches the event, which is valid and names no approval, and the listing
  -- of the packs is not cancelled, Execute on a client of this server does not run the action,
  -- whatever keys are configured: the state is that after the request, there is no output, and there
  -- is an error.
  pub execute_denied :
      {O : Type 0} (waiter : Option (ApprovalWaiter Stores B)) (action : ActionFunc Stores O)
      (event : Types.RuntimeEvent) (normal : RuntimeEvent) (s : Stores) (pack : PolicyPack)
      → IsWired platform codec wire c.base_url event
          (evaluate_event (memory_service ttl) at.evaluation (platform_event event) s).1
      → IsValid s.packs
      → at.evaluation.listing ≡ none
      → normalize (platform_event event) ≡ ok normal
      → normal.approval_id ≡ ""
      → Denier (stamped at.evaluation.received normal) s.packs pack
      → let x =
          execute platform
            (some (record { client = some c; approval_waiter = waiter }))
            (record { event = event; action = some action })
            s in
        (x.0 ≡ (evaluate platform c event s).0) × (x.1.output ≡ none) × (x.2 ≢ none)
  unfolding execute IsRefused
  execute_denied waiter action event normal s pack wired valid calm is_normal unnamed denier =
      IsRefused-evaluated platform c event action waiter (evaluate platform c event s) (
        IsBlocking-evaluate event s wired λ r returned.
          (denied_iff ttl at.evaluation (platform_event event) normal s r valid calm is_normal
              unnamed returned).1
            ∣ (pack, denier) ∣₁)
