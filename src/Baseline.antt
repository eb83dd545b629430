-- ===== src/Baseline.antt =====
-- internal/baseline/packs.go: the built-in policy packs.
pub mod Verdicts
use agent_secyrity.Prelude.{String, true, List, [], ◌∷◌}
use agent_secyrity.Prelude.Int.{ℤ, pos}
use agent_secyrity.Domain.{
  EventType, PolicyConditions, Policy, PolicyPack, Decision, decision_deny, decision_redact,
  decision_require_approval, event_type_tool_call, event_type_file_access, event_type_response,
}

abbrev pub baseline_version : String
baseline_version = "1.0.0"

-- The conditions that the packs set; the others are empty.
abbrev conditions :
    EventType → List String → List String → List String → List String → PolicyConditions
conditions event_type tool_names resources actions data_labels = record {
  event_types = event_type ∷ [];
  tool_names = tool_names;
  resources = resources;
  actions = actions;
  data_labels = data_labels;
  agent_ids = [];
  user_ids = [];
  subject_types = [];
  subject_ids = [];
  subject_roles = [];
  subject_groups = [];
  subject_risk_levels = [];
}

abbrev policy : String → String → ℤ → PolicyConditions → Decision → String → Policy
policy id tenant_id priority conditions decision reason = record {
  id = id;
  tenant_id = tenant_id;
  policy_pack_id = "";
  name = "";
  enabled = true;
  priority = priority;
  conditions = conditions;
  decision = decision;
  reason = reason;
}

abbrev pack : String → String → String → List Policy → PolicyPack
pack id tenant_id name policies = record {
  id = id;
  tenant_id = tenant_id;
  name = name;
  version = baseline_version;
  enabled = true;
  policies = policies;
}

abbrev pub secret_file_access : PolicyConditions
secret_file_access =
    conditions event_type_file_access []
      (".env" ∷ "id_rsa" ∷ "id_ed25519" ∷ ".ssh/" ∷ "credentials" ∷ []) [] ("secret" ∷ [])

abbrev pub secret_file_policy : String → Policy
secret_file_policy tenant_id =
    policy "baseline-code-repository.deny.secret-file-access" tenant_id (pos 100) secret_file_access
      decision_deny "secret file access is blocked"

abbrev pub dangerous_shell : PolicyConditions
dangerous_shell =
    conditions event_type_tool_call ("shell" ∷ "exec" ∷ "terminal" ∷ []) [] ("execute" ∷ []) []

unfoldable pub code_repository_pack : String → PolicyPack
code_repository_pack tenant_id =
    pack "baseline-code-repository" tenant_id "Baseline Code Repository" (
      secret_file_policy tenant_id
      ∷ policy "baseline-code-repository.require-approval.dangerous-shell" tenant_id (pos 90)
          dangerous_shell decision_require_approval "dangerous shell execution requires approval"
      ∷ [])

abbrev pub customer_data_response : PolicyConditions
customer_data_response = conditions event_type_response [] [] [] ("pii" ∷ "customer_data" ∷ [])

abbrev pub account_change : PolicyConditions
account_change =
    conditions event_type_tool_call ("account_admin" ∷ "crm" ∷ []) []
      ("change_account_status" ∷ "reset_password" ∷ "refund" ∷ []) []

unfoldable pub customer_support_pack : String → PolicyPack
customer_support_pack tenant_id =
    pack "baseline-customer-support" tenant_id "Baseline Customer Support" (
      policy "baseline-customer-support.redact.customer-data-response" tenant_id (pos 100)
        customer_data_response decision_redact "customer data responses must be redacted"
      ∷ policy "baseline-customer-support.require-approval.account-change" tenant_id (pos 90)
          account_change decision_require_approval
          "high-risk customer account operation requires approval"
      ∷ [])

abbrev pub money_transfer : PolicyConditions
money_transfer =
    conditions event_type_tool_call ("wire_transfer" ∷ "payment" ∷ "refund" ∷ []) []
      ("transfer" ∷ "pay" ∷ "refund" ∷ []) []

unfoldable pub finance_operations_pack : String → PolicyPack
finance_operations_pack tenant_id =
    pack "baseline-finance-operations" tenant_id "Baseline Finance Operations" (
      policy "baseline-finance-operations.require-approval.money-transfer" tenant_id (pos 100)
        money_transfer decision_require_approval "money movement requires approval"
      ∷ [])

abbrev pub production_export : PolicyConditions
production_export =
    conditions event_type_tool_call ("sql_query" ∷ "warehouse" ∷ "database" ∷ [])
      ("prod" ∷ "production" ∷ "customer" ∷ []) ("export" ∷ "query" ∷ "dump" ∷ [])
      ("customer_data" ∷ "pii" ∷ [])

unfoldable pub data_analysis_pack : String → PolicyPack
data_analysis_pack tenant_id = pack "baseline-data-analysis" tenant_id "Baseline Data Analysis" (
    policy "baseline-data-analysis.require-approval.production-database-export" tenant_id (pos 100)
      production_export decision_require_approval
      "production customer data export requires approval"
    ∷ [])

unfoldable pub default_policy_packs : String → List PolicyPack
default_policy_packs tenant_id =
    code_repository_pack tenant_id
    ∷ customer_support_pack tenant_id
    ∷ finance_operations_pack tenant_id
    ∷ data_analysis_pack tenant_id
    ∷ []
