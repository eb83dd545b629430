-- ===== src/Http/Routers.antt =====
-- Options and the four constructors of routers of internal/transport/httpapi/handler.go. A router is
-- the function that serves a request.
use agent_secyrity.Prelude.{Option, none, some, []}
use agent_secyrity.Strings.{Folding}
use agent_secyrity.Auth.{ApiKeyConfig}
use agent_secyrity.Interfaces.{PackStore, AuditStore, ApprovalStore}
use agent_secyrity.Runtime.{Service}
use agent_secyrity.Http.{Request, Codec, Moments, Handler, Answer}
use agent_secyrity.Http.Router.{serve}

pub record Options (S : Type 0) : Type 0 where
  pub service : Service S
  pub audit : AuditStore S
  pub policy_packs : Option (PackStore S)
  pub approvals : Option (ApprovalStore S)
  pub api_keys : ApiKeyConfig

-- the Handler of NewRouterWithOptions
abbrev pub handler_of : {S : Type 0} → Options S → Handler S
handler_of opts = record {
  service = opts.service;
  store = opts.audit;
  pack_store = opts.policy_packs;
  approval_store = opts.approvals;
  api_keys = opts.api_keys;
}

-- the options that are not given
abbrev pub bare_options : {S : Type 0} → Service S → AuditStore S → Options S
bare_options service store = record {
  service = service;
  audit = store;
  policy_packs = none;
  approvals = none;
  api_keys = record { keys = [] };
}

abbrev pub Router : Type 0 → Type 0 → Type 0
Router S B = Moments → Request B → S → Answer S

module _ {S B : Type 0} (codec : Codec B) ⦃folding : Folding⦄ where
  unfoldable pub new_router_with_options : Options S → Router S B
  new_router_with_options opts at r s = serve codec (handler_of opts) at r s

  abbrev pub new_router : Service S → AuditStore S → Router S B
  new_router service store = new_router_with_options (bare_options service store)

  abbrev pub new_router_with_policy_packs : Service S → AuditStore S → PackStore S → Router S B
  new_router_with_policy_packs service store packs =
      new_router_with_options (record (bare_options service store) { policy_packs = some packs })

  abbrev pub new_router_with_stores :
      Service S → AuditStore S → PackStore S → ApprovalStore S → Router S B
  new_router_with_stores service store packs approvals =
      new_router_with_options (record (bare_options service store) {
        policy_packs = some packs;
        approvals = some approvals;
      })
