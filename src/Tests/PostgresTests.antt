-- ===== src/Tests/PostgresTests.antt =====
-- The PostgreSQL stores over a small database.
use Prim.Native.String as Text
use mathlib.Core.Path.{subst}
use agent_secyrity.Decimal.{decimal, digits_from, digit}
use agent_secyrity.Prelude.{
  sym, Bool-cases, ◌≡◌, ◌⊎◌, inl, inr, refl, ap, String, ◌&&◌, Option, none, some, [], ◌==◌,
  if◌then◌else◌,
}
use agent_secyrity.Prelude.Int.{pos}
use agent_secyrity.Maps.{lookup}
use agent_secyrity.Domain.{PolicyPack, ApprovalRequest}
use agent_secyrity.Domain.Errors.{
  failed, Result, ok, err, ◌>>=◌, invalid_decision, approval_not_found,
}
use agent_secyrity.PolicyPack as Memory
use agent_secyrity.PolicyPack.{with_defaults}
use agent_secyrity.Approval.{DecisionInput, decide_request, decision_time, decide, new_memory_store}
use agent_secyrity.Audit.{ListOptions}
use agent_secyrity.Runtime.{blank_result}
use agent_secyrity.Postgres.{Json, Database}
use agent_secyrity.Postgres.Packs.{upsert, get}
use agent_secyrity.Postgres.Approvals as Approvals
use agent_secyrity.Postgres.Reads.{IsFaithful, Refines}
use agent_secyrity.Postgres.Decides.{IsDecision, write_through, decide_eq}
use agent_secyrity.Postgres.Audits.{filters, add_condition, joined, query_text}
use agent_secyrity.Tests.Fixtures.{shell_event, pack_a}

data Document : Type 0 where
  pack_document : PolicyPack → Document
  request_document : ApprovalRequest → Document

abbrev read_pack : Document → Result PolicyPack
read_pack (pack_document p) = ok p
read_pack (request_document r) = err (failed "not a pack")

abbrev read_request : Document → Result ApprovalRequest
read_request (request_document r) = ok r
read_request (pack_document p) = err (failed "not a request")

abbrev json : Json Document
json = record {
  marshal_pack = λ p. ok (pack_document p);
  unmarshal_pack = read_pack;
  marshal_record = λ r. err (failed "no records");
  unmarshal_record = λ j. err (failed "no records");
  marshal_request = λ r. ok (request_document r);
  unmarshal_request = read_request;
}

-- One row of each primary key.
record Rows : Type 0 where
  packs : String → String → Option Document
  requests : String → String → Option Document

abbrev db : Database Rows Document
db = record {
  insert_pack = λ ctx row d. (
    record d {
      packs = λ t i. if t == row.tenant_id && i == row.id then some row.pack else d.packs t i;
    },
    ok tt,
  );
  select_pack = λ ctx t i d. ok (d.packs t i);
  select_packs = λ ctx t d. ok [];
  select_enabled_packs = λ ctx t d. ok [];
  insert_record = λ ctx row d. (d, ok tt);
  select_records = λ ctx text args d. ok [];
  insert_request = λ ctx row d. (
    record d {
      requests =
          λ t i. if t == row.tenant_id && i == row.id then some row.request else d.requests t i;
    },
    ok tt,
  );
  select_request = λ ctx t i d. ok (d.requests t i);
  select_requests = λ ctx t n d. ok [];
}

abbrev request : ApprovalRequest
request = record {
  id = "approval-1";
  tenant_id = "tenant-a";
  status = "pending";
  event = shell_event;
  result = blank_result;
  reason = "";
  requested_at = pos 1;
  expires_at = pos 0;
  decided_at = pos 0;
  decided_by = "";
  decision_reason = "";
}

abbrev rows : Rows
rows = record {
  packs = λ t i. none;
  requests = λ t i. if i == "approval-1" then some (request_document request) else none;
}

db-IsFaithful : IsFaithful json db
db-IsFaithful = record {
  decode = λ p j h. ap (λ r. r >>= read_pack) (sym h);
  written = λ ctx row d d' h t i.
      subst
        (λ q. db.select_pack none t i q ≡ (
          if t == row.tenant_id && i == row.id
          then ok (some row.pack)
          else db.select_pack none t i d))
        (ap (λ p. p.0) h)
        (elim (Bool-cases (t == row.tenant_id && i == row.id)) [
          | inl same ↦ rw same refl
          | inr other ↦ rw other refl
        ]);
}

-- Nothing is stored at first.
new-Refines : Refines json db Memory.new_memory_store rows
unfolding get Memory.get lookup
new-Refines t i h = refl

abbrev filled : Rows
filled = (upsert json db none (pos 1) pack_a rows).0

pack_inserted : upsert json db none (pos 1) pack_a rows ≡ (filled, ok tt)
unfolding upsert
pack_inserted = refl

abbrev approve : DecisionInput
approve = record { status = "approved"; decided_by = "boss"; reason = "ok"; now = pos 9 }

request_found : Approvals.get json db none "tenant-a" "approval-1" rows ≡ ok request
unfolding Approvals.get Approvals.unmarshal_approval
request_found = refl

decide_eq_example :
    (IsDecision approve
      × (Approvals.decide json db none (pos 2) "tenant-a" "approval-1" approve rows
          ≡ write_through json db none
              (pos 2)
              (decide_request approve (decision_time approve (pos 2)) request)
              rows))
    ⊎ ((¬ IsDecision approve)
        × (Approvals.decide json db none (pos 2) "tenant-a" "approval-1" approve rows
            ≡ (rows, err invalid_decision)))
decide_eq_example =
    decide_eq json db none (pos 2) "tenant-a" "approval-1" approve rows request request_found

abbrev options : ListOptions
options = record {
  limit = pos 10;
  offset = pos 0;
  tenant_id = "tenant-a";
  agent_id = "";
  user_id = "dev-1";
  task_id = "";
  decision = "";
  event_type = "";
}

-- The text of a query with two conditions.
query_text_run :
    query_text (filters options)
    ≡ Text.◌++◌ "SELECT record FROM audit_records WHERE tenant_id = $1" (
        Text.◌++◌ " AND record->'event'->>'user_id' = $2"
          " ORDER BY recorded_at DESC LIMIT $3 OFFSET $4")
unfolding query_text filters add_condition joined decimal digits_from digit
query_text_run = refl

-- A missing request with a decision that is neither approval nor rejection: the database's store
-- answers that it is missing, the in-memory store that the decision is invalid.
missing_first :
    Approvals.decide json db none
      (pos 2)
      "tenant-a"
      "approval-2"
      (record approve { status = "" })
      rows
    ≡ (rows, err approval_not_found)
unfolding Approvals.decide Approvals.get
missing_first = refl

invalid_first :
    (decide none
      (pos 2)
      "tenant-a"
      "approval-2"
      (record approve { status = "" })
      new_memory_store).1
    ≡ err invalid_decision
unfolding decide
invalid_first = refl
