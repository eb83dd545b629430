-- ===== src/Sdk/Messages.antt =====
-- The texts of the SDK's errors: Error of APIError (sdk/go/agentsec/client.go) and of
-- EnforcementError (sdk/go/agentsec/enforcer.go). A nil receiver is none.
use Prim.Native.String as Text
use agent_secyrity.Prelude.{String, not, Option, none, some, ◌==◌, if◌then◌else◌}
use agent_secyrity.Decimal.{decimal}
use agent_secyrity.Sdk.{ApiError, EnforcementError}

-- `<name>=<value>` in front of the rest
abbrev field : String → String → String → String
field name value rest = Text.◌++◌ name (Text.◌++◌ "=" (Text.◌++◌ value rest))

-- APIError.Error
unfoldable pub api_error_text : Option ApiError → String
api_error_text none = ""
api_error_text (some e) =
    if e.code == ""
    then Text.◌++◌ "agentsec API error: "
        (field "status" (decimal e.status_code) (field " message" e.message ""))
    else Text.◌++◌ "agentsec API error: " (
        field "status" (decimal e.status_code)
          (field " code" e.code (field " message" e.message "")))

-- EnforcementError.Error
unfoldable pub enforcement_error_text : Option EnforcementError → String
enforcement_error_text none = ""
enforcement_error_text (some e) =
    if not (e.approval_id == "")
    then Text.◌++◌ "agentsec enforcement blocked: " (
        field "decision" e.decision
          (field " approval_id" e.approval_id (field " reason" e.reason "")))
    else Text.◌++◌ "agentsec enforcement blocked: "
        (field "decision" e.decision (field " reason" e.reason ""))
