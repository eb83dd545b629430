-- ===== src/Approval.antt =====
-- internal/approval/store.go: the in-memory store of approval requests. A method takes the answer
-- of ctx.Err(), the time that it reads from the clock, and the store.
pub mod Life
pub mod Fresh
pub mod History
pub mod Laws
pub mod Threads
use Prim.Native.String as Text
use agent_secyrity.Prelude.{
  ℕ, ◌+◌, ◌-◌, ◌^◌, ◌%◌, String, Bool, true, false, not, ◌&&◌, ◌||◌, Option, none, some, List, ◌==◌,
  filter, length, drop, ltb, if◌then◌else◌,
}
use agent_secyrity.Prelude.Int.{ℤ, pos, pos_part, ltb_ℤ, leb_ℤ, eq_ℤ}
use agent_secyrity.Decimal.{decimal}
use agent_secyrity.Maps.{Map, Iteration, empty, lookup, insert, values}
use agent_secyrity.Keys.{key}
use agent_secyrity.Domain.{
  Time, ApprovalRequest, ApprovalStatus, approval_status_pending, approval_status_approved,
  approval_status_rejected, approval_status_expired, is_zero, after,
}
use agent_secyrity.Domain.Errors.{
  Error, tenant_id_required, approval_not_found, approval_expired, approval_already_decided,
  invalid_decision, Result, ok, err, Context,
}

pub record MemoryStore : Type 0 where
  pub requests : Map ApprovalRequest
  pub counter : ℕ

abbrev pub new_memory_store : MemoryStore
new_memory_store = record { requests = empty; counter = 0 }

pub record DecisionInput : Type 0 where
  pub status : ApprovalStatus
  pub decided_by : String
  pub reason : String
  pub now : Time

-- fmt.Sprintf("approval-%d", n)
unfoldable pub approval_id : ℕ → String
approval_id n = Text.◌++◌ "approval-" (decimal n)

-- s.counter.Add(1), in uint64
abbrev pub next_counter : MemoryStore → ℕ
next_counter s = (s.counter + 1) % 2 ^ 64

-- the fields that Create fills in
unfoldable pub completed : Time → MemoryStore → ApprovalRequest → ApprovalRequest
completed now s r = record r {
  id = if r.id == "" then approval_id (next_counter s) else r.id;
  status = if r.status == "" then approval_status_pending else r.status;
  requested_at = if is_zero r.requested_at then now else r.requested_at;
}

unfoldable pub create :
    Context → Time → ApprovalRequest → MemoryStore → MemoryStore × Result ApprovalRequest
create (some e) now r s = (s, err e)
create none now r s = if r.tenant_id == "" then (s, err tenant_id_required) else (
  record {
    requests = insert (key r.tenant_id (completed now s r).id) (completed now s r) s.requests;
    counter = if r.id == "" then next_counter s else s.counter;
  },
  ok (completed now s r),
)

abbrev pub found_or_missing : Option ApprovalRequest → Result ApprovalRequest
found_or_missing none = err approval_not_found
found_or_missing (some r) = ok r

unfoldable pub get : Context → String → String → MemoryStore → Result ApprovalRequest
get (some e) tenant_id approval_id s = err e
get none tenant_id approval_id s = found_or_missing (lookup (key tenant_id approval_id) s.requests)

-- Decide on a request that was found: what is written in its place, if anything, and the result.
unfoldable pub decide_request :
    DecisionInput → Time → ApprovalRequest → Option ApprovalRequest × Result ApprovalRequest
decide_request input now r =
    let decided : ApprovalRequest = record r {
      status = input.status;
      decided_at = now;
      decided_by = input.decided_by;
      decision_reason = input.reason;
    } in
    if not (r.status == approval_status_pending)
    then (none, err approval_already_decided)
    else if not (is_zero r.expires_at) && after now r.expires_at
    then (some (record r { status = approval_status_expired }), err approval_expired)
    else (some decided, ok decided)

abbrev pub written : String → MemoryStore → Option ApprovalRequest → MemoryStore
written map_key s none = s
written map_key s (some r) = record s { requests = insert map_key r s.requests }

abbrev decide_found :
    String
    → DecisionInput
    → Time
    → MemoryStore
    → Option ApprovalRequest
    → MemoryStore × Result ApprovalRequest
decide_found map_key input now s none = (s, err approval_not_found)
decide_found map_key input now s (some r) =
    let (write, result) = decide_request input now r in (written map_key s write, result)

-- input.Now, or the clock where it is zero
abbrev pub decision_time : DecisionInput → Time → Time
decision_time input clock = if is_zero input.now then clock else input.now

unfoldable pub decide :
    Context
    → Time
    → String
    → String
    → DecisionInput
    → MemoryStore
    → MemoryStore × Result ApprovalRequest
decide (some e) clock tenant_id approval_id input s = (s, err e)
decide none clock tenant_id approval_id input s =
    if not (input.status == approval_status_approved)
      && not (input.status == approval_status_rejected)
    then (s, err invalid_decision)
    else decide_found (key tenant_id approval_id) input (decision_time input clock) s
        (lookup (key tenant_id approval_id) s.requests)

-- the limit of List
unfoldable pub effective_limit : ℤ → ℕ
effective_limit limit =
    if leb_ℤ limit (pos 0) || ltb_ℤ (pos 1000) limit then 100 else pos_part limit

-- result[len(result)-limit:], where there are more
unfoldable pub last_of : ℕ → List ApprovalRequest → List ApprovalRequest
last_of limit rs = if ltb limit (length rs) then drop (length rs - limit) rs else rs

module _ ⦃order : Iteration⦄ where
  unfoldable pub list : Context → String → ℤ → MemoryStore → Result (List ApprovalRequest)
  list (some e) tenant_id limit s = err e
  list none tenant_id limit s = ok (
      last_of (effective_limit limit) (
        filter (λ r. r.tenant_id == tenant_id) (order.arrange ApprovalRequest (values s.requests))))
