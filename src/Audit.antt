-- ===== src/Audit.antt =====
-- internal/audit/store.go: the in-memory store of audit records and its queries. The sum of offset
-- and limit in List is taken only below the number of records, so it does not leave int64.
pub mod Sorting
pub mod Pages
pub mod Threads
pub mod Laws
use Prim.Native.String as Text
use agent_secyrity.Prelude.{
  ℕ, ◌+◌, ◌-◌, ◌^◌, ◌%◌, String, Bool, true, false, not, ◌&&◌, ◌||◌, Option, none, some, List, [],
  ◌∷◌, ◌++◌, ◌==◌, filter, length, take, drop, ltb, leb, if◌then◌else◌,
}
use agent_secyrity.Prelude.Int.{ℤ, pos, pos_part, ltb_ℤ, leb_ℤ}
use agent_secyrity.Decimal.{decimal}
use agent_secyrity.Domain.{Time, AuditRecord, Decision, EventType, is_zero, after}
use agent_secyrity.Domain.Errors.{Error, Result, ok, err, Context}

pub record ListOptions : Type 0 where
  pub limit : ℤ
  pub offset : ℤ
  pub tenant_id : String
  pub agent_id : String
  pub user_id : String
  pub task_id : String
  pub decision : Decision
  pub event_type : EventType

abbrev pub limited : ListOptions → ListOptions
limited o = if leb_ℤ o.limit (pos 0) then record o { limit = pos 100 } else o

abbrev pub capped : ListOptions → ListOptions
capped o = if ltb_ℤ (pos 1000) o.limit then record o { limit = pos 1000 } else o

abbrev pub from_start : ListOptions → ListOptions
from_start o = if ltb_ℤ o.offset (pos 0) then record o { offset = pos 0 } else o

-- ListOptions.Normalize, its three tests in turn
unfoldable pub normalize : ListOptions → ListOptions
normalize o = from_start (capped (limited o))

pub record MemoryStore : Type 0 where
  pub records : List AuditRecord
  pub counter : ℕ

abbrev pub new_memory_store : MemoryStore
new_memory_store = record { records = []; counter = 0 }

-- s.counter.Add(1), in uint64
abbrev pub next_counter : MemoryStore → ℕ
next_counter s = (s.counter + 1) % 2 ^ 64

-- the fields that Append fills in
unfoldable pub completed : Time → MemoryStore → AuditRecord → AuditRecord
completed now s r = record r {
  id = if r.id == "" then Text.◌++◌ "audit-" (decimal (next_counter s)) else r.id;
  recorded_at = if is_zero r.recorded_at then now else r.recorded_at;
}

unfoldable pub append :
    Context → Time → AuditRecord → MemoryStore → MemoryStore × Result AuditRecord
append (some e) now r s = (s, err e)
append none now r s = (
  record {
    records = s.records ++ completed now s r ∷ [];
    counter = if r.id == "" then next_counter s else s.counter;
  },
  ok (completed now s r),
)

-- `filter != "" && actual != filter`, negated
abbrev pub passes : String → String → Bool
passes wanted actual = wanted == "" || actual == wanted

unfoldable pub record_matches : ListOptions → AuditRecord → Bool
record_matches o r =
    passes o.tenant_id r.event.tenant_id
    && passes o.agent_id r.event.agent_id
    && passes o.user_id r.event.user_id
    && passes o.task_id r.event.task_id
    && passes o.decision r.result.decision
    && passes o.event_type r.event.event_type

-- `r` in front of the first record that is not newer
unfoldable pub insert_newest : AuditRecord → List AuditRecord → List AuditRecord
insert_newest r [] = r ∷ []
insert_newest r (q ∷ qs) =
    if after q.recorded_at r.recorded_at then q ∷ insert_newest r qs else r ∷ q ∷ qs

-- sort.SliceStable by RecordedAt.After: newest first, equal times in their order
unfoldable pub sort_newest : List AuditRecord → List AuditRecord
unfolding insert_newest
sort_newest [] = []
sort_newest (r ∷ rs) = insert_newest r (sort_newest rs)

-- the slice that List returns of the sorted records, for normalised options
unfoldable pub page : ListOptions → List AuditRecord → List AuditRecord
page o rs =
    let offset = pos_part o.offset in
    let end = offset + pos_part o.limit in
    let bounded = if ltb (length rs) end then length rs else end in
    if leb (length rs) offset then [] else take (bounded - offset) (drop offset rs)

unfoldable pub list : Context → ListOptions → MemoryStore → Result (List AuditRecord)
list (some e) o s = err e
list none o s =
    ok (page (normalize o) (sort_newest (filter (record_matches (normalize o)) s.records)))
