-- ===== src/Domain/Event.antt =====
-- RuntimeEvent.Validate and Normalize, EventType.Valid and ValidationError.HasField of
-- internal/domain/model.go.
pub mod Laws
use agent_secyrity.Prelude.{
  String, Bool, true, false, not, ◌&&◌, ◌||◌, List, [], ◌∷◌, ◌++◌, Option, none, some, ◌==◌, any,
  if◌then◌else◌,
}
use agent_secyrity.Strings.{is_blank}
use agent_secyrity.Domain.{
  EventType, RuntimeEvent, event_type_prompt, event_type_tool_call, event_type_file_access,
  event_type_network_access, event_type_response, event_type_approval,
}
use agent_secyrity.Domain.Errors.{
  Message, text, event_type_unsupported, FieldError, ValidationError, validation, Result, ok, err,
}

abbrev pub runtime_event_schema_v1 : String
runtime_event_schema_v1 = "runtime_event.v1"

-- EventType.Valid
unfoldable pub valid : EventType → Bool
valid t =
    t == event_type_prompt
    || t == event_type_tool_call
    || t == event_type_file_access
    || t == event_type_network_access
    || t == event_type_response
    || t == event_type_approval

-- `if failed { fieldErrors = append(fieldErrors, …) }`
abbrev report : Bool → String → String → Message → List FieldError
report failed field code message =
    if failed then record { field = field; code = code; message = message } ∷ [] else []

unfoldable pub field_errors : RuntimeEvent → List FieldError
field_errors e =
    report (not (is_blank e.schema_version) && not (e.schema_version == runtime_event_schema_v1))
      "schema_version" "unsupported" (text "schema_version is unsupported")
    ++ (report (is_blank e.tenant_id) "tenant_id" "required" (text "tenant_id is required")
        ++ (report (is_blank e.agent_id) "agent_id" "required" (text "agent_id is required")
            ++ (report (is_blank e.user_id) "user_id" "required" (text "user_id is required")
                ++ (report (is_blank e.task_id) "task_id" "required" (text "task_id is required")
                    ++ (report (is_blank e.event_type) "event_type" "required"
                          (text "event_type is required")
                        ++ (report (is_blank e.action) "action" "required"
                              (text "action is required")
                            ++ report (not (is_blank e.event_type) && not (valid e.event_type))
                                "event_type" "unsupported"
                                (event_type_unsupported e.event_type)))))))

-- `if len(fieldErrors) > 0 { return … }; return nil`
invalid_if_any : List FieldError → Option ValidationError
invalid_if_any [] = none
invalid_if_any (f ∷ fs) = some (record { message = "invalid runtime event"; fields = f ∷ fs })

unfoldable pub validate : RuntimeEvent → Option ValidationError
unfolding field_errors invalid_if_any
validate e = invalid_if_any (field_errors e)

-- ValidationError.HasField, on a non-nil error
unfoldable pub has_field : ValidationError → String → String → Bool
has_field e field code = any (λ f. f.field == field && f.code == code) e.fields

-- the default of the schema version in Normalize
unfoldable pub with_schema_version : RuntimeEvent → RuntimeEvent
with_schema_version e =
    if is_blank e.schema_version then record e { schema_version = runtime_event_schema_v1 } else e

unfoldable pub normalize : RuntimeEvent → Result RuntimeEvent
unfolding with_schema_version
normalize e = elim (validate (with_schema_version e)) [
  | none ↦ ok (with_schema_version e)
  | some invalid ↦ err (validation invalid)
]
