-- ===== src/Http/Query.antt =====
-- parseAuditListOptions and validDecision of internal/transport/httpapi/handler.go.
use Prim.Native.String as Text
use agent_secyrity.Prelude.{String, Bool, not, ◌||◌, Option, none, some, ◌==◌, if◌then◌else◌}
use agent_secyrity.Prelude.Int.{ℤ, pos, ltb_ℤ}
use agent_secyrity.Strconv.{atoi}
use agent_secyrity.Domain.{
  Decision, decision_allow, decision_record, decision_redact, decision_require_approval,
  decision_deny,
}
use agent_secyrity.Domain.Event.{valid}
use agent_secyrity.Domain.Errors.{failed, Result, ok, err, ◌>>=◌}
use agent_secyrity.Audit.{ListOptions}

unfoldable pub valid_decision : Decision → Bool
valid_decision d =
    d == decision_allow
    || d == decision_record
    || d == decision_redact
    || d == decision_require_approval
    || d == decision_deny

-- the test on a number that was read
abbrev not_negative : String → Option ℤ → Result ℤ
not_negative name none = err (failed (Text.◌++◌ name " must be an integer"))
not_negative name (some parsed) =
    if ltb_ℤ parsed (pos 0)
    then err (failed (Text.◌++◌ name " must be greater than or equal to 0"))
    else ok parsed

-- the parameter `limit` or `offset`; 0 where it is not given
unfoldable pub number_parameter : String → String → Result ℤ
number_parameter name raw = if raw == "" then ok (pos 0) else not_negative name (atoi raw)

-- the parameter `decision` or `event_type`
unfoldable pub word_parameter : String → (String → Bool) → String → Result String
word_parameter name supported raw =
    if raw == ""
    then ok ""
    else if not (supported raw)
    then err (failed (Text.◌++◌ name " is unsupported"))
    else ok raw

unfoldable pub parse_audit_list_options : (String → String) → Result ListOptions
parse_audit_list_options query = do
  limit ← number_parameter "limit" (query "limit")
  offset ← number_parameter "offset" (query "offset")
  decision ← word_parameter "decision" valid_decision (query "decision")
  event_type ← word_parameter "event_type" valid (query "event_type")
  ok (record {
    limit = limit;
    offset = offset;
    tenant_id = query "tenant_id";
    agent_id = query "agent_id";
    user_id = query "user_id";
    task_id = query "task_id";
    decision = decision;
    event_type = event_type;
  })
