-- ===== src/Tests/SdkTests.antt =====
-- The enforcer on a client that is connected to the router.
use agent_secyrity.Prelude.{ℕ, ◌≡◌, ◌≢◌, inl, inr, refl, none, some}
use agent_secyrity.Prelude.Int.{pos}
use agent_secyrity.Strings.{equal_fold, trim_space, is_blank}
use agent_secyrity.Maps.{lookup, insert}
use agent_secyrity.Keys.{key}
use agent_secyrity.Domain.Errors.{Result, ok}
use agent_secyrity.PolicyPack.{upsert, get, with_defaults, assign}
use agent_secyrity.Policy.Engine.{applies}
use agent_secyrity.Policy.Matching.{
  matches, matches_tenant, match_event_type, match_subject_type, match_string, match_resource,
  match_any_string,
}
use agent_secyrity.Policy.Packs.{inherit}
use agent_secyrity.Runtime.{stamped, evaluate_event}
use agent_secyrity.Runtime.Memory.{Stores, memory_service}
use agent_secyrity.Runtime.Denial.{Denier}
use agent_secyrity.Http.Memory.{memory_handler}
use agent_secyrity.Sdk.Types.{RuntimeEvent, event_type_tool_call, platform_event}
use agent_secyrity.Sdk.Client.{Client, evaluate}
use agent_secyrity.Sdk.Enforcer.{execute}
use agent_secyrity.Sdk.Guard.{Course, execute-Course}
use agent_secyrity.Sdk.Link.{network, IsWired}
use agent_secyrity.Sdk.EndToEnd.{execute_denied}
use agent_secyrity.Tests.Fixtures.{ascii, in_order, shell_event, pack_a}
use agent_secyrity.Tests.RuntimeTests.{denying, denying-IsValid, normal_event, normal}
use agent_secyrity.Tests.AuthTests.{config}
use agent_secyrity.Tests.Wires.{Body, event_body, codec, moments, platform, wire}

-- The event of the fixtures, as the SDK states it.
abbrev sent_event : RuntimeEvent
sent_event = record {
  schema_version = shell_event.schema_version;
  id = shell_event.id;
  timestamp = shell_event.timestamp;
  tenant_id = shell_event.tenant_id;
  agent_id = shell_event.agent_id;
  user_id = shell_event.user_id;
  task_id = shell_event.task_id;
  event_type = event_type_tool_call;
  subject = record {
    type = shell_event.subject.type;
    id = shell_event.subject.id;
    roles = shell_event.subject.roles;
    groups = shell_event.subject.groups;
    risk_level = shell_event.subject.risk_level;
  };
  approval_id = shell_event.approval_id;
  tool_name = shell_event.tool_name;
  resource = shell_event.resource;
  action = shell_event.action;
  input = shell_event.input;
  output = shell_event.output;
  data_labels = shell_event.data_labels;
  intent = shell_event.intent;
}

abbrev client : Client Stores Body
client = record {
  base_url = "http://localhost";
  http_client = network wire codec (memory_handler config (pos 0)) moments;
  user_agent = "test";
  api_key = "s2";
}

-- An action that answers without changing the stores.
abbrev action : Stores → Stores × Result ℕ
action s = (s, ok 7)

execute-Course_example : Course platform client none sent_event action denying (
    execute platform
      (some (record { client = some client; approval_waiter = none }))
      (record { event = sent_event; action = some action })
      denying)
execute-Course_example = execute-Course platform client sent_event action denying none

wired :
    IsWired platform codec wire "http://localhost" sent_event
      (evaluate_event
        (memory_service (pos 0))
        moments.evaluation
        (platform_event sent_event)
        denying).1
wired = record {
  encoded = event_body (platform_event sent_event);
  encode = refl;
  decode = refl;
  result = λ r returned. refl;
  path = refl;
  accepted = refl;
}

denier : Denier (stamped (pos 3) normal_event) denying.packs (with_defaults pack_a)
unfolding get upsert assign lookup insert key stamped applies matches matches_tenant
    match_event_type match_subject_type match_string match_resource match_any_string is_blank
    trim_space equal_fold inherit
denier = (refl, refl, refl, inr (inl (refl, refl)))

execute_denied_example :
    let x =
      execute platform
        (some (record { client = some client; approval_waiter = none }))
        (record { event = sent_event; action = some action })
        denying in
    (x.0 ≡ (evaluate platform client sent_event denying).0) × (x.1.output ≡ none) × (x.2 ≢ none)
execute_denied_example =
    execute_denied platform codec wire config (pos 0) moments client refl none action sent_event
      normal_event denying (with_defaults pack_a) wired denying-IsValid refl normal refl denier
