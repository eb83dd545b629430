-- ===== src/Postgres/Audits.antt =====
-- AuditStore of internal/storage/postgres/store.go. The query of List is its text, with numbered
-- placeholders, and its arguments.
use Prim.Native.String as Text
use agent_secyrity.Prelude.{◌+◌, String, List, [], ◌∷◌, ◌++◌, length, ◌==◌, if◌then◌else◌}
use agent_secyrity.Decimal.{decimal}
use agent_secyrity.Domain.{Time, AuditRecord, is_zero}
use agent_secyrity.Domain.Errors.{Result, ok, err, ◌>>=◌, Context}
use agent_secyrity.Audit.{ListOptions, normalize}
use agent_secyrity.Interfaces.{AuditStore}
use agent_secyrity.Postgres.{
  Json, Database, AuditRow, Argument, word, number, unix_nano, int_text, labelled, scan,
}

-- `conditions` and `args` of List
pub record Filters : Type 0 where
  pub conditions : List String
  pub args : List Argument

abbrev pub no_filters : Filters
no_filters = record { conditions = []; args = [] }

-- addCondition with the format `sql ++ "$%d"`, under the test on the option
unfoldable pub add_condition : String → String → Filters → Filters
add_condition sql value f = if value == "" then f else record {
  conditions = f.conditions ++ Text.◌++◌ sql (Text.◌++◌ "$" (decimal (length f.args + 1))) ∷ [];
  args = f.args ++ word value ∷ [];
}

unfoldable pub filters : ListOptions → Filters
filters o = add_condition "event_type = " o.event_type (
    add_condition "decision = " o.decision (
      add_condition "record->'event'->>'task_id' = " o.task_id (
        add_condition "record->'event'->>'user_id' = " o.user_id (
          add_condition "record->'event'->>'agent_id' = " o.agent_id
            (add_condition "tenant_id = " o.tenant_id no_filters)))))

-- strings.Join(conditions, " AND ")
unfoldable pub joined : List String → String
joined [] = ""
joined (c ∷ []) = c
joined (c ∷ cs) = Text.◌++◌ c (Text.◌++◌ " AND " (joined cs))

abbrev where_clause : List String → String
where_clause [] = ""
where_clause (c ∷ cs) = Text.◌++◌ " WHERE " (joined (c ∷ cs))

-- the text of the query; the last two arguments are the limit and the offset
unfoldable pub query_text : Filters → String
query_text f = Text.◌++◌ "SELECT record FROM audit_records" (
    Text.◌++◌ (where_clause f.conditions) (
      Text.◌++◌ " ORDER BY recorded_at DESC LIMIT $" (
        Text.◌++◌ (decimal (length f.args + 1))
          (Text.◌++◌ " OFFSET $" (decimal (length f.args + 2))))))

unfoldable pub query_args : ListOptions → Filters → List Argument
query_args o f = f.args ++ number o.limit ∷ number o.offset ∷ []

-- the fields that Append fills in
unfoldable pub completed : Time → AuditRecord → AuditRecord
completed now r = record r {
  id = if r.id == "" then Text.◌++◌ "audit-" (int_text (unix_nano now)) else r.id;
  recorded_at = if is_zero r.recorded_at then now else r.recorded_at;
}

module _ {D J : Type 0} (json : Json J) (db : Database D J) where
  abbrev pub audit_row : AuditRecord → J → AuditRow J
  audit_row r payload = record {
    id = r.id;
    tenant_id = r.event.tenant_id;
    recorded_at = r.recorded_at;
    event_type = r.event.event_type;
    decision = r.result.decision;
    audit_record = payload;
  }

  abbrev pub appended : AuditRecord → D × Result (Unit {0}) → D × Result AuditRecord
  appended r (d, err e) = (d, err e)
  appended r (d, ok u) = (d, ok r)

  abbrev pub append_marshalled : Context → AuditRecord → Result J → D → D × Result AuditRecord
  append_marshalled ctx r (err e) d = (d, err e)
  append_marshalled ctx r (ok payload) d = appended r (db.insert_record ctx (audit_row r payload) d)

  unfoldable pub append : Context → Time → AuditRecord → D → D × Result AuditRecord
  append ctx now r d =
      append_marshalled ctx (completed now r)
        (labelled "marshal audit record" (json.marshal_record (completed now r))) d

  abbrev pub unmarshal_record : J → Result AuditRecord
  unmarshal_record raw = labelled "unmarshal audit record" (json.unmarshal_record raw)

  unfoldable pub list : Context → ListOptions → D → Result (List AuditRecord)
  list ctx o d =
      let n = normalize o in
      db.select_records ctx (query_text (filters n)) (query_args n (filters n)) d
      >>= scan unmarshal_record

  -- AuditStore as an audit.Store
  abbrev pub audit_store : AuditStore D
  audit_store = record { append = append; list = list }
