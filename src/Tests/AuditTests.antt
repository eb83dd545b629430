-- ===== src/Tests/AuditTests.antt =====
-- The audit store at concrete records.
use mathlib.Core.List.{Perm, Nodup}
use agent_secyrity.Prelude.{
  ◌≡◌, ◌↔◌, ◌*◌, ◌≤◌, refl, true, List, [], ◌∷◌, arith, take, drop, filter, length, All,
}
use agent_secyrity.Prelude.Int.{pos, negsuc, pos_part, ◌≤ℤ◌}
use agent_secyrity.Decimal.{decimal, digits_from, digit}
use agent_secyrity.Domain.{AuditRecord, Time, decision_deny}
use agent_secyrity.Domain.Errors.{ok, background}
use agent_secyrity.Audit.{
  ListOptions, MemoryStore, new_memory_store, normalize, completed, append, record_matches,
  insert_newest, sort_newest, page, list,
}
use agent_secyrity.Audit.Sorting.{IsNewestFirst}
use agent_secyrity.Audit.Pages.{selected, walk, walk_reaches_all}
use agent_secyrity.Audit.Laws.{MatchesFilters, IsHit, record_matches_iff, list_sound}
use agent_secyrity.Numbering.{identifiers}
use agent_secyrity.Audit.Threads.{
  begin, commit, Shared, new_shared, Reached, fresh, begun, committed, audit_id, taken, ids,
  threads_identify,
}
use agent_secyrity.Tests.Fixtures.{shell_event}

abbrev denial : Time → AuditRecord
denial t = record {
  id = "";
  recorded_at = t;
  event = shell_event;
  result = record {
    decision = decision_deny;
    reason = "";
    matched_policy_ids = [];
    audit_id = "";
    approval_id = "";
  };
}

abbrev everything : ListOptions
everything = record {
  limit = pos 0;
  offset = negsuc 4;
  tenant_id = "tenant-a";
  agent_id = "";
  user_id = "";
  task_id = "";
  decision = "";
  event_type = "";
}

abbrev one : MemoryStore
one = (append background (pos 5) (denial (pos 0)) new_memory_store).0

abbrev two : MemoryStore
two = (append background (pos 9) (denial (pos 0)) one).0

audit_run : Unit {0}
unfolding normalize completed append record_matches insert_newest sort_newest page list walk take
    drop decimal digits_from digit
audit_run = tt

-- The zero time becomes the time of the clock, and the newest record comes first.
two_listed :
    list background everything two
    ≡ ok (
        record (denial (pos 9)) { id = "audit-2" }
        ∷ record (denial (pos 5)) { id = "audit-1" }
        ∷ [])
unfolding audit_run
two_listed = refl

-- Records with equal times stay in their order.
abbrev crossed : List AuditRecord
crossed =
    record (denial (pos 5)) { id = "a" }
    ∷ record (denial (pos 9)) { id = "b" }
    ∷ record (denial (pos 5)) { id = "c" }
    ∷ []

record_matches_iff_example :
    (record_matches everything (denial (pos 5)) ≡ true) ↔ MatchesFilters everything (denial (pos 5))
record_matches_iff_example = record_matches_iff everything (denial (pos 5))

list_sound_example :
    (rs : List AuditRecord) × (list background everything two ≡ ok rs)
    × All (IsHit everything two) rs
    × IsNewestFirst rs
    × (length rs ≤ 1000)
    × (pos 1 ≤ℤ everything.limit → length rs ≤ pos_part everything.limit)
list_sound_example = list_sound everything two

enough_pages : length (filter (record_matches everything) two.records) ≤ 2 * 1
unfolding audit_run
enough_pages = omega arith

walk_reaches_all_example :
    (walk everything 1 2 0 two ≡ ok (selected everything two))
    × IsNewestFirst (selected everything two)
    × Perm (selected everything two) (filter (record_matches everything) two.records)
walk_reaches_all_example =
    walk_reaches_all everything 1 2 two (omega arith) (omega arith) enough_pages

-- Two calls: the second takes the mutex first.
abbrev first_begun : Shared
first_begun = record {
  store = (begin (pos 5) (denial (pos 0)) new_memory_store).0;
  waiting = (begin (pos 5) (denial (pos 0)) new_memory_store).1 ∷ [];
}

abbrev both_begun : Shared
both_begun = record {
  store = (begin (pos 6) (denial (pos 0)) first_begun.store).0;
  waiting = (begin (pos 6) (denial (pos 0)) first_begun.store).1 ∷ first_begun.waiting;
}

abbrev second_committed : Shared
second_committed = record {
  store = commit (begin (pos 6) (denial (pos 0)) first_begun.store).1 both_begun.store;
  waiting = first_begun.waiting;
}

second_first : Reached 2 second_committed
second_first =
    committed 2 both_begun second_committed (begin (pos 6) (denial (pos 0)) first_begun.store).1 []
      first_begun.waiting
      (begun 1 first_begun both_begun (pos 6) (denial (pos 0))
        (begun 0 new_shared first_begun (pos 5) (denial (pos 0)) fresh refl refl) refl refl)
      refl refl

threads_identify_example :
    (second_committed.store.counter ≡ 2)
    × Nodup (ids (taken second_committed))
    × Perm (ids (taken second_committed)) (identifiers audit_id 2)
threads_identify_example = threads_identify 2 second_committed second_first (omega arith)
