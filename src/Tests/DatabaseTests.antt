-- ===== src/Tests/DatabaseTests.antt =====
-- The server over a small database.
use mathlib.Core.List.Perm
use agent_secyrity.Prelude.{
  ◌≡◌, ◌↔◌, refl, sym, ap, true, false, ◌&&◌, none, some, List, [], ◌∷◌, map, ◌==◌, filter,
  if◌then◌else◌,
}
use agent_secyrity.Prelude.Int.{pos, ◌+ℤ◌}
use agent_secyrity.Strings.{is_blank, trim_space, equal_fold, contains}
use agent_secyrity.Maps.{Map, empty, lookup, insert, values}
use agent_secyrity.Keys.{key}
use agent_secyrity.Decimal.{decimal, digits_from, digit}
use agent_secyrity.Domain.{PolicyPack, EvaluationResult, decision_deny}
use agent_secyrity.Domain.Decision.{priority}
use agent_secyrity.Domain.Event.{normalize, validate, field_errors, valid}
use agent_secyrity.Domain.Errors.{failed, Result, ok, err}
use agent_secyrity.Policy.Engine.{evaluate, applies}
use agent_secyrity.Policy.Matching.{
  matches, matches_tenant, match_event_type, match_subject_type, match_string, match_resource,
  match_any_string,
}
use agent_secyrity.Policy.Packs.{new_engine_from_packs, inherit}
use agent_secyrity.PolicyPack as Packs
use agent_secyrity.Auth.{parse_api_keys}
use agent_secyrity.Runtime.{
  stamped, append_audit, conclude, choose_engine, evaluate_normal, evaluate_event, default_ttl,
}
use agent_secyrity.Http.{Handler}
use agent_secyrity.Baseline.{
  secret_file_access, code_repository_pack, customer_support_pack, finance_operations_pack,
  data_analysis_pack, default_policy_packs,
}
use agent_secyrity.Postgres.{Json, Database, PackRow, unix_nano, int_text, scan}
use agent_secyrity.Server.Seeding.{seeded}
use agent_secyrity.Runtime.Memory.{Stores, pack_store}
use agent_secyrity.Postgres.Packs.{policy_pack_store}
use agent_secyrity.Postgres.Service.{
  Change, put, switch, change, Changed, unchanged, changed, Mirrors, changes-Mirrors, decides_alike,
}
use agent_secyrity.Postgres.Packs as Tables
use agent_secyrity.Postgres.Audits as Records
use agent_secyrity.Postgres.Opening.{Driver, open_database}
use agent_secyrity.Postgres.Tables.{IsTable, found_column}
use agent_secyrity.Server.{new_stores, Environment, seed, new_handler, start}
use agent_secyrity.Server.Starting.{over_database, database_stores, init_database, start_server}
use agent_secyrity.Server.OnDatabase.{start_server_denies, new-Mirrors, seeded-Mirrors}
use agent_secyrity.Tests.Fixtures.{ascii, in_order, pack_a}
use agent_secyrity.Tests.RuntimeTests.{calm}
use agent_secyrity.Tests.ServerTests.{
  no_keys, refusal, secret_event, secret_is_normal, secret_refused,
}

abbrev json : Json PolicyPack
json = record {
  marshal_pack = λ p. ok p;
  unmarshal_pack = λ p. ok p;
  marshal_record = λ r. ok (code_repository_pack "record");
  unmarshal_record = λ j. err (failed "records are not read");
  marshal_request = λ r. ok (code_repository_pack "request");
  unmarshal_request = λ j. err (failed "requests are not read");
}

abbrev Rows : Type 0
Rows = Map (PackRow PolicyPack)

-- The rows of the packs; the other tables are not kept.
abbrev db : Database Rows PolicyPack
db = record {
  insert_pack = λ ctx row d. (insert (key row.tenant_id row.id) row d, ok tt);
  select_pack = λ ctx t i d. ok (found_column (lookup (key t i) d));
  select_packs =
      λ ctx t d. ok (map (λ row. row.pack) (filter (λ row. row.tenant_id == t) (values d)));
  select_enabled_packs = λ ctx t d.
      ok (map (λ row. row.pack) (filter (λ row. row.tenant_id == t && row.enabled) (values d)));
  insert_record = λ ctx row d. (d, ok tt);
  select_records = λ ctx text args d. ok [];
  insert_request = λ ctx row d. (d, ok tt);
  select_request = λ ctx t i d. ok none;
  select_requests = λ ctx t n d. ok [];
}

value {ℓ} : {A : Type ℓ} → A → Result A → A
value a (ok b) = b
value a (err e) = a

db-IsTable : IsTable json db
unfolding value
db-IsTable = record {
  rows = λ d. d;
  by_id = λ rs. rs;
  by_id_perm = λ rs. Perm.refl rs;
  decode = λ p j h. sym h;
  inserted = λ ctx row d d' h. sym (ap (λ p. p.0) h);
  selected = λ ctx t i d found h. sym (ap (value found) h);
  selected_enabled = λ ctx t d found h. sym (ap (value found) h);
}

abbrev driver : Driver Rows
driver = record {
  open_handle = λ dsn d. (d, ok tt);
  ping = λ ctx d. (d, ok tt);
  close = λ d. (d, ok tt);
  run_migration = λ ctx d. (d, ok tt);
}

abbrev env : Environment
env name = if name == "DATABASE_URL" then "postgres://db" else ""

abbrev seeded_rows : Rows
seeded_rows =
    (seed (database_stores json db driver).policy_packs (pos 1) (default_policy_packs "default")
      empty).0

abbrev handler : Handler Rows
handler = record {
  service = record {
    engine = none;
    pack_store = some (database_stores json db driver).policy_packs;
    store = (database_stores json db driver).audit;
    approval_store = some (database_stores json db driver).approvals;
    approval_ttl = default_ttl;
  };
  store = (database_stores json db driver).audit;
  pack_store = some (database_stores json db driver).policy_packs;
  approval_store = some (database_stores json db driver).approvals;
  api_keys = no_keys;
}

rows_seeded :
    seed (policy_pack_store json db) (pos 1) (default_policy_packs "default") empty
    ≡ (seeded_rows, ok tt)
unfolding seed Tables.upsert default_policy_packs code_repository_pack customer_support_pack
    finance_operations_pack data_analysis_pack
rows_seeded = refl

opened :
    init_database json db driver "postgres://db" empty
    ≡ (empty, ok (database_stores json db driver))
unfolding init_database open_database
opened = refl

started : start_server json db driver env (pos 1) empty ≡ over_database (seeded_rows, ok handler)
unfolding start_server init_database open_database start seed new_handler parse_api_keys is_blank
    trim_space Tables.upsert default_policy_packs code_repository_pack customer_support_pack
    finance_operations_pack data_analysis_pack
started = refl

abbrev database_refusal : EvaluationResult
database_refusal = record refusal { audit_id = "audit--6795364578871345147" }

refused : (evaluate_event handler.service calm secret_event seeded_rows).1 ≡ ok database_refusal
unfolding evaluate_event evaluate_normal append_audit conclude choose_engine stamped Records.append
    Records.completed Tables.list_enabled Tables.unmarshal_pack scan Packs.assign ◌+ℤ◌ unix_nano
    int_text decimal digits_from digit lookup insert values key evaluate applies matches
    matches_tenant match_event_type match_subject_type match_string match_resource match_any_string
    is_blank trim_space equal_fold contains priority new_engine_from_packs inherit normalize
    validate field_errors valid seed Tables.upsert default_policy_packs code_repository_pack
    customer_support_pack finance_operations_pack data_analysis_pack
refused = refl

start_server_denies_example :
    (database_refusal.decision ≡ decision_deny)
    ↔ (matches secret_file_access (stamped (pos 3) secret_event) ≡ true)
unfolding db-IsTable
start_server_denies_example =
    start_server_denies json db driver db-IsTable env (pos 1) empty empty seeded_rows handler calm
      secret_event secret_event database_refusal refl opened refl started refl secret_is_normal refl
      refl refused

abbrev series : List Change
series = put (pos 1) pack_a ∷ switch (pos 2) "tenant-a" "pack-1" false ∷ []

abbrev added : Rows
added = (change (policy_pack_store json db) (put (pos 1) pack_a) empty).0

abbrev switched : Rows
switched = (change (policy_pack_store json db) (switch (pos 2) "tenant-a" "pack-1" false) added).0

series_run : Changed (policy_pack_store json db) series empty switched
unfolding Tables.upsert Tables.get Tables.set_enabled Tables.unmarshal_pack lookup insert key
    Packs.assign
series_run = changed (put (pos 1) pack_a) _ empty added switched refl (
    changed (switch (pos 2) "tenant-a" "pack-1" false) [] added switched switched refl
      (unchanged switched))

changes-Mirrors_example :
    (s' : Stores) × Changed pack_store series new_stores s' × Mirrors json db db-IsTable s' switched
unfolding db-IsTable
changes-Mirrors_example =
    changes-Mirrors json db db-IsTable series new_stores empty switched
      (new-Mirrors json db driver db-IsTable empty refl) series_run

decides_alike_example : database_refusal.decision ≡ refusal.decision
unfolding db-IsTable
decides_alike_example =
    decides_alike json db db-IsTable default_ttl default_ttl calm calm secret_event secret_event
      seeded seeded_rows database_refusal refusal
      (seeded-Mirrors json db driver db-IsTable (pos 1) empty seeded_rows refl rows_seeded) refl
      refl secret_is_normal refl refused secret_refused
