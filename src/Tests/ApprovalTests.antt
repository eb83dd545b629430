-- ===== src/Tests/ApprovalTests.antt =====
-- The approval store at concrete requests.
use agent_secyrity.Prelude.{◌≡◌, ◌≢◌, refl, none, some, [], ◌∷◌, arith, eq_iff}
use agent_secyrity.Prelude.Int.{pos}
use agent_secyrity.Decimal.{decimal, digits_from, digit}
use agent_secyrity.Maps.{lookup, insert, values}
use agent_secyrity.Keys.{key, HasNoNul}
use agent_secyrity.Domain.{
  ApprovalRequest, decision_require_approval, approval_status_approved, approval_status_pending,
}
use agent_secyrity.Domain.Errors.{err, approval_already_decided, approval_expired}
use agent_secyrity.Approval.{
  decision_time, MemoryStore, new_memory_store, DecisionInput, approval_id, completed, create, get,
  decide, decide_request,
}
use agent_secyrity.Approval.Life.{Call, Follows, decide-Follows, decide_all, settled_for_good}
use agent_secyrity.Approval.Laws.{Answer, decide-Answer}
use agent_secyrity.Approval.Fresh.{IsValid, IsValid-new, create-IsValid, decide-IsValid}
use agent_secyrity.Approval.History.{step, run}
use mathlib.Core.List.{Nodup}
use agent_secyrity.Prelude.{All}
use agent_secyrity.Approval.Threads.{
  begin, commit, Shared, new_shared, Reached, fresh, begun, committed, ids, taken, IsKept,
  threads_keep_requests,
}
use agent_secyrity.Tests.Fixtures.{shell_event}

abbrev asked : ApprovalRequest
asked = record {
  id = "";
  tenant_id = "tenant-a";
  status = "";
  event = shell_event;
  result = record {
    decision = decision_require_approval;
    reason = "";
    matched_policy_ids = [];
    audit_id = "";
    approval_id = "";
  };
  reason = "";
  requested_at = pos 0;
  expires_at = pos 20;
  decided_at = pos 0;
  decided_by = "";
  decision_reason = "";
}

abbrev opened : MemoryStore
opened = (create none (pos 5) asked new_memory_store).0

abbrev approve : DecisionInput
approve = record {
  status = approval_status_approved;
  decided_by = "boss";
  reason = "ok";
  now = pos 0;
}

abbrev pub approved : MemoryStore
approved = (decide none (pos 9) "tenant-a" "approval-1" approve opened).0

approval_run : Unit {0}
unfolding create completed get decide decide_request approval_id decimal digits_from digit lookup
    insert values key decide_all run step
approval_run = tt

decided_twice :
    (decide none (pos 9) "tenant-a" "approval-1" approve approved).1 ≡ err approval_already_decided
unfolding approval_run
decided_twice = refl

decided_late :
    (decide none (pos 21) "tenant-a" "approval-1" approve opened).1 ≡ err approval_expired
unfolding approval_run
decided_late = refl

abbrev pub settled_request : ApprovalRequest
settled_request = record asked {
  id = "approval-1";
  status = approval_status_approved;
  requested_at = pos 5;
  decided_at = pos 9;
  decided_by = "boss";
  decision_reason = "ok";
}

pub approved_is_found :
    lookup (key "tenant-a" "approval-1") approved.requests ≡ some settled_request
unfolding approval_run
approved_is_found = refl

pub approved_is_settled : settled_request.status ≢ approval_status_pending
approved_is_settled = ground (arith, eq_iff settled_request.status approval_status_pending)

decide-Answer_example : Answer (pos 9) "tenant-a" "approval-1" approve opened
decide-Answer_example = decide-Answer (pos 9) "tenant-a" "approval-1" approve opened

abbrev pending_request : ApprovalRequest
pending_request = record asked {
  id = "approval-1";
  status = approval_status_pending;
  requested_at = pos 5;
}

pending_is_there : lookup (key "tenant-a" "approval-1") opened.requests ≡ some pending_request
unfolding approval_run
pending_is_there = refl

decide-Follows_example :
    Follows approve
      (decision_time approve (pos 9))
      pending_request
      (lookup (key "tenant-a" "approval-1") approved.requests)
    × (key "tenant-a" "approval-1" ≢ key "tenant-a" "approval-1"
        → lookup (key "tenant-a" "approval-1") approved.requests
          ≡ lookup (key "tenant-a" "approval-1") opened.requests)
decide-Follows_example =
    decide-Follows none (pos 9) "tenant-a" "approval-1" approve opened (key "tenant-a" "approval-1")
      pending_request pending_is_there

abbrev again : Call
again = record {
  ctx = none;
  clock = pos 30;
  tenant_id = "tenant-a";
  approval_id = "approval-1";
  input = approve;
}

settled_for_good_example :
    lookup (key "tenant-a" "approval-1") (decide_all (again ∷ again ∷ []) approved).requests
    ≡ some settled_request
settled_for_good_example =
    settled_for_good (again ∷ again ∷ []) approved (key "tenant-a" "approval-1") settled_request
      approved_is_found approved_is_settled

tenant_a-named : HasNoNul "tenant-a"
tenant_a-named = omega arith

has_tenant : asked.tenant_id ≢ ""
has_tenant = ground (arith, eq_iff asked.tenant_id "")

pub approved-IsValid : IsValid approved
approved-IsValid = decide-IsValid none (pos 9) "tenant-a" "approval-1" approve opened (
    create-IsValid (pos 5) asked new_memory_store refl IsValid-new (omega arith) tenant_a-named
      has_tenant)

pub approved_counter : approved.counter ≡ 1
unfolding approval_run
approved_counter = refl

-- Two calls of Create: the second takes the mutex first.
abbrev first_begun : Shared
first_begun = record {
  store = (begin (pos 5) asked new_memory_store).0;
  waiting = (begin (pos 5) asked new_memory_store).1 ∷ [];
  returned = [];
}

abbrev both_begun : Shared
both_begun = record {
  store = (begin (pos 6) asked first_begun.store).0;
  waiting = (begin (pos 6) asked first_begun.store).1 ∷ first_begun.waiting;
  returned = [];
}

abbrev second_committed : Shared
second_committed = record {
  store = commit (begin (pos 6) asked first_begun.store).1 both_begun.store;
  waiting = first_begun.waiting;
  returned = (begin (pos 6) asked first_begun.store).1 ∷ [];
}

second_first : Reached 2 second_committed
second_first =
    committed 2 both_begun second_committed (begin (pos 6) asked first_begun.store).1 []
      first_begun.waiting
      (begun 1 first_begun both_begun (pos 6) asked
        (begun 0 new_shared first_begun (pos 5) asked fresh has_tenant refl tenant_a-named refl)
        has_tenant refl tenant_a-named refl)
      refl refl

threads_keep_requests_example :
    Nodup (ids (taken second_committed))
    × All (IsKept second_committed.store) second_committed.returned
threads_keep_requests_example = threads_keep_requests 2 second_committed second_first (omega arith)
