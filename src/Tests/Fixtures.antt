-- ===== src/Tests/Fixtures.antt =====
-- Concrete data for the tests.
use mathlib.Core.List.Perm
use agent_secyrity.Prelude.{String, true, [], ◌∷◌}
use agent_secyrity.Prelude.Int.{pos}
use agent_secyrity.Strings.{Folding}
use agent_secyrity.Maps.{Iteration}
use agent_secyrity.Domain.{
  RuntimeEvent, Subject, PolicyConditions, Policy, PolicyPack, Decision, decision_deny,
  decision_require_approval,
}

-- A table that folds nothing beyond ASCII.
instance abbrev pub ascii : Folding
ascii = record { representative = λ c. c }

-- A range loop that visits a map in the order of insertion.
instance abbrev pub in_order : Iteration
in_order = record { arrange = λ A xs. xs; arrange_perm = λ A xs. Perm.refl xs }

abbrev pub nobody : Subject
nobody = record { type = ""; id = ""; roles = []; groups = []; risk_level = "" }

abbrev pub shell_event : RuntimeEvent
shell_event = record {
  schema_version = "";
  id = "evt-1";
  timestamp = pos 0;
  tenant_id = "tenant-a";
  agent_id = "agent-1";
  user_id = "dev-1";
  task_id = "fix-build";
  event_type = "tool_call";
  subject = nobody;
  approval_id = "";
  tool_name = "shell";
  resource = "/repo";
  action = "execute";
  input = "make";
  output = "";
  data_labels = "secret" ∷ "pii" ∷ [];
  intent = "";
}

abbrev pub anything : PolicyConditions
anything = record {
  event_types = [];
  tool_names = [];
  resources = [];
  actions = [];
  data_labels = [];
  agent_ids = [];
  user_ids = [];
  subject_types = [];
  subject_ids = [];
  subject_roles = [];
  subject_groups = [];
  subject_risk_levels = [];
}

abbrev pub shell_only : PolicyConditions
shell_only = record anything { event_types = "tool_call" ∷ []; tool_names = " Shell" ∷ [] }

abbrev pub policy : String → Decision → PolicyConditions → Policy
policy id decision conditions = record {
  id = id;
  tenant_id = "";
  policy_pack_id = "";
  name = "";
  enabled = true;
  priority = pos 10;
  conditions = conditions;
  decision = decision;
  reason = "";
}

abbrev pub ask_for_shell : Policy
ask_for_shell = policy "ask" decision_require_approval shell_only

abbrev pub deny_secret : Policy
deny_secret = policy "deny" decision_deny (record anything { data_labels = "SECRET" ∷ [] })

abbrev pub pack_a : PolicyPack
pack_a = record {
  id = "pack-1";
  tenant_id = "tenant-a";
  name = "";
  version = "";
  enabled = true;
  policies = ask_for_shell ∷ deny_secret ∷ [];
}
