-- ===== src/Http.antt =====
-- internal/transport/httpapi/handler.go: requests, responses and the guards that the handlers share.
-- A handler takes the state of the stores and returns it with the response. What package
-- encoding/json reads from a body is the parameter `Codec`; a response keeps the value that would be
-- encoded. Content types and the closing of bodies are left out.
pub mod Query
pub mod Options
pub mod Events
pub mod Packs
pub mod Approvals
pub mod Router
pub mod Routers
pub mod Access
pub mod Memory
pub mod Evaluation
pub mod Reading
pub mod Paging
pub mod Confined
pub mod Effects
pub mod Settled
pub mod Finality
use agent_secyrity.Prelude.{
  ℕ, String, Bool, true, false, not, Option, none, some, List, if◌then◌else◌,
}
use agent_secyrity.Domain.{
  RuntimeEvent, PolicyPack, EvaluationResult, ApprovalRequest, ApprovalStatus, AuditRecord, Time,
}
use agent_secyrity.Domain.Errors.{Error, FieldError, Result, Context}
use agent_secyrity.Policy.Simulation.{SimulationRequest, SimulationResult}
use agent_secyrity.Interfaces.{PackStore, AuditStore, ApprovalStore}
use agent_secyrity.Runtime.{Service, Readings}
use agent_secyrity.Auth.{ApiKey, ApiKeyConfig, allows_tenant, is_enabled}
use agent_secyrity.Prelude.Int.{ℤ}

-- The path is given by its segments, unescaped and without the first slash, as ServeMux sees them;
-- `query` is URL.Query().Get, and `authorization` the header of that name.
pub record Request (B : Type 0) : Type 0 where
  pub method : String
  pub path : List String
  pub authorization : String
  pub query : String → String
  pub body : B

-- the payload of decideApproval
pub record DecisionPayload : Type 0 where
  pub decision : ApprovalStatus
  pub decided_by : String
  pub reason : String

-- json.NewDecoder(r.Body).Decode, at each type that the handlers read.
pub record Codec (B : Type 0) : Type 0 where
  pub event : B → Result RuntimeEvent
  pub pack : B → Result PolicyPack
  pub enabled : B → Result Bool
  pub simulation : B → Result SimulationRequest
  pub decision : B → Result DecisionPayload

-- What the store calls of one request read from the context and the clock.
pub record Moments : Type 0 where
  pub evaluation : Readings
  pub first : Context
  pub first_time : Time
  pub second : Context

-- A message: a text, or what Error() returns.
pub data Note : Type 0 where
  text : String → Note
  error_text : Error → Note

-- paginationResponse
pub record Pagination : Type 0 where
  pub limit : ℤ
  pub offset : ℤ
  pub count : ℕ
  pub has_more : Bool

-- auditEventsResponse
pub record AuditEvents : Type 0 where
  pub events : List AuditRecord
  pub pagination : Pagination

-- The value that writeJSON encodes; `refusal` is that of writeError and writeErrorWithDetails, and
-- `unrouted` the page of ServeMux.
pub data Payload : Type 0 where
  healthy : Payload
  evaluation : EvaluationResult → Payload
  audit_events : AuditEvents → Payload
  policy_pack : PolicyPack → Payload
  policy_packs : List PolicyPack → Payload
  simulation : SimulationResult → Payload
  approval : ApprovalRequest → Payload
  approvals : List ApprovalRequest → Payload
  refusal : String → Note → Option (List FieldError) → Payload
  unrouted : Payload

pub record Response : Type 0 where
  pub status : ℕ
  pub payload : Payload

abbrev pub write_json : ℕ → Payload → Response
write_json status payload = record { status = status; payload = payload }

abbrev pub write_error : ℕ → String → Note → Response
write_error status code message = write_json status (refusal code message none)

abbrev pub write_error_with_details : ℕ → String → String → List FieldError → Response
write_error_with_details status code message fields =
    write_json status (refusal code (text message) (some fields))

pub record Handler (S : Type 0) : Type 0 where
  pub service : Service S
  pub store : AuditStore S
  pub pack_store : Option (PackStore S)
  pub approval_store : Option (ApprovalStore S)
  pub api_keys : ApiKeyConfig

abbrev key_allows : Option ApiKey → String → Bool
key_allows none tenant_id = false
key_allows (some k) tenant_id = allows_tenant k tenant_id

-- authorizeTenant, with the key that withAuth put into the context
unfoldable pub authorize_tenant : ApiKeyConfig → Option ApiKey → String → Bool
authorize_tenant keys key tenant_id =
    if not (is_enabled keys) then true else key_allows key tenant_id

abbrev pub forbidden : Response
forbidden = write_error 403 "forbidden" (text "API key is not allowed to access tenant")

-- A handler's answer and the stores after it.
abbrev pub Answer : Type 0 → Type 0
Answer S = S × Response

-- `if !h.authorizeTenant(w, r, tenantID) { return }` in front of the rest of a handler
abbrev pub guarded : {S : Type 0} → Handler S → Option ApiKey → String → S → Answer S → Answer S
guarded h key tenant_id s rest =
    if authorize_tenant h.api_keys key tenant_id then rest else (s, forbidden)
