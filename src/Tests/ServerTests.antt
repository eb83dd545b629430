-- ===== src/Tests/ServerTests.antt =====
-- The baseline packs and the server's start at a concrete event.
use agent_secyrity.Prelude.{◌≡◌, ◌↔◌, refl, true, [], ◌∷◌}
use agent_secyrity.Prelude.Int.{pos}
use agent_secyrity.Strings.{is_blank, trim_space, equal_fold, contains}
use agent_secyrity.Maps.{lookup, insert, values}
use agent_secyrity.Keys.{key}
use agent_secyrity.Decimal.{decimal, digits_from, digit}
use agent_secyrity.Domain.{RuntimeEvent, EvaluationResult, decision_deny}
use agent_secyrity.Domain.Decision.{priority}
use agent_secyrity.Domain.Event.{normalize, validate, field_errors, valid}
use agent_secyrity.Domain.Errors.{ok}
use agent_secyrity.Policy.Engine.{evaluate, applies}
use agent_secyrity.Policy.Matching.{
  matches, matches_tenant, match_event_type, match_subject_type, match_string, match_resource,
  match_any_string,
}
use agent_secyrity.Policy.Packs.{new_engine_from_packs, inherit}
use agent_secyrity.PolicyPack as Packs
use agent_secyrity.Audit as Audits
use agent_secyrity.Auth.{ApiKeyConfig, parse_api_keys}
use agent_secyrity.Runtime.{
  blank_result, stamped, append_audit, conclude, choose_engine, evaluate_normal, evaluate_event,
  default_ttl,
}
use agent_secyrity.Runtime.Memory.{memory_service}
use agent_secyrity.Http.Memory.{memory_handler}
use agent_secyrity.Baseline.{
  secret_file_access, code_repository_pack, customer_support_pack, finance_operations_pack,
  data_analysis_pack, default_policy_packs,
}
use agent_secyrity.Baseline.Verdicts.{baseline_decision, evaluate-default_policy_packs}
use agent_secyrity.Server.{Environment, memory_stores, new_stores, seed, new_handler, start}
use agent_secyrity.Server.Seeding.{seeded, start_denies}
use agent_secyrity.Tests.Fixtures.{ascii, in_order, shell_event}
use agent_secyrity.Tests.RuntimeTests.{calm}

evaluate-default_policy_packs_example :
    (evaluate (new_engine_from_packs (default_policy_packs "tenant-a")) shell_event).decision
    ≡ baseline_decision shell_event
unfolding is_blank trim_space equal_fold
evaluate-default_policy_packs_example =
    evaluate-default_policy_packs "tenant-a" shell_event refl refl

abbrev env : Environment
env name = ""

abbrev pub no_keys : ApiKeyConfig
no_keys = record { keys = [] }

abbrev pub secret_event : RuntimeEvent
secret_event = record shell_event {
  schema_version = "runtime_event.v1";
  tenant_id = "default";
  event_type = "file_access";
  resource = "/repo/.env";
  action = "read";
}

abbrev pub refusal : EvaluationResult
refusal = record blank_result {
  decision = decision_deny;
  reason = "secret file access is blocked";
  matched_policy_ids = "baseline-code-repository.deny.secret-file-access" ∷ [];
  audit_id = "audit-1";
}

begun :
    start env memory_stores (pos 1) new_stores ≡ (seeded, ok (memory_handler no_keys default_ttl))
unfolding start seed new_handler parse_api_keys is_blank trim_space Packs.upsert
    default_policy_packs code_repository_pack customer_support_pack finance_operations_pack
    data_analysis_pack
begun = refl

configured : parse_api_keys (env "AGENT_SECURITY_API_KEYS") ≡ ok no_keys
unfolding parse_api_keys is_blank trim_space
configured = refl

pub secret_is_normal : normalize secret_event ≡ ok secret_event
unfolding normalize validate field_errors valid is_blank trim_space
secret_is_normal = refl

pub secret_refused :
    (evaluate_event (memory_service default_ttl) calm secret_event seeded).1 ≡ ok refusal
unfolding evaluate_event evaluate_normal append_audit conclude choose_engine stamped Audits.append
    Audits.completed Packs.list_enabled Packs.list Packs.assign decimal digits_from digit lookup
    insert values key evaluate applies matches matches_tenant match_event_type match_subject_type
    match_string match_resource match_any_string is_blank trim_space equal_fold contains priority
    new_engine_from_packs inherit normalize validate field_errors valid code_repository_pack
    customer_support_pack finance_operations_pack data_analysis_pack
secret_refused = refl

start_denies_example :
    (ok (memory_handler no_keys default_ttl) ≡ ok (memory_handler no_keys default_ttl))
    × ((refusal.decision ≡ decision_deny)
        ↔ (matches secret_file_access (stamped (pos 3) secret_event) ≡ true))
start_denies_example =
    start_denies env no_keys (pos 1) configured calm secret_event secret_event refusal seeded
      (ok (memory_handler no_keys default_ttl)) refl secret_is_normal refl refl begun secret_refused
