-- ===== src/Domain/Messages.antt =====
-- The texts of the errors: the Error methods of internal/domain/model.go, and the texts of the
-- errors that the stores and the authentication declare.
use Prim.Native.String as Text
use agent_secyrity.Prelude.{String, ◌==◌, if◌then◌else◌}
use agent_secyrity.Domain.Errors.{
  ValidationError, Error, context_done, tenant_id_required, policy_pack_id_required,
  policy_pack_not_found, approval_not_found, approval_expired, approval_already_decided,
  invalid_decision, validation, runtime_event_error, wrapped, unauthorized, failed,
}

-- ErrInvalidRuntimeEvent
abbrev pub invalid_runtime_event : String
invalid_runtime_event = "invalid runtime event"

-- ValidationError.Error, on an error that is not nil
unfoldable pub validation_text : ValidationError → String
validation_text e = if e.message == "" then "validation failed" else e.message

-- RuntimeEventError.Error, from the text of the error inside
abbrev pub runtime_event_text : String → String
runtime_event_text inner = Text.◌++◌ invalid_runtime_event (Text.◌++◌ ": " inner)

-- err.Error(), where `done` is the text of a cancelled context
unfoldable pub message : String → Error → String
message done context_done = done
message done tenant_id_required = "tenant_id is required"
message done policy_pack_id_required = "policy pack id is required"
message done policy_pack_not_found = "policy pack not found"
message done approval_not_found = "approval request not found"
message done approval_expired = "approval request expired"
message done approval_already_decided = "approval request already decided"
message done invalid_decision = "invalid approval decision"
message done (validation e) = validation_text e
message done (runtime_event_error e) = runtime_event_text (message done e)
message done (wrapped label e) = Text.◌++◌ label (Text.◌++◌ ": " (message done e))
message done unauthorized = "missing or invalid API key"
message done (failed text) = text
