-- ===== src/Audit/Threads.antt =====
-- Append from several goroutines: s.counter.Add(1) is one atomic step, in front of the one that holds
-- the mutex, so that other calls may come between the two.
use Prim.Native.String as Text
use text.Mathlib.TextLemmas.{append_cancel_left}
use mathlib.Core.List.{Perm, Nodup}
use mathlib.Core.List.Perm
use mathlib.Core.Path.{subst}
use agent_secyrity.Prelude.{
  ℕ, suc, ◌^◌, ◌<◌, String, ◌≡◌, refl, List, [], ◌∷◌, ◌++◌, map, ◌==◌, arith, eq_iff, if◌then◌else◌,
}
use agent_secyrity.Numbering.{perm_commit, identifiers, Nodup-identifiers}
use agent_secyrity.Decimal.{decimal, decimal_injective}
use agent_secyrity.Domain.{Time, AuditRecord}
use agent_secyrity.Domain.Errors.{ok, background}
use agent_secyrity.Audit.{MemoryStore, new_memory_store, next_counter, completed, append}

-- Append up to s.mu.Lock: the number is taken and the record completed.
unfoldable pub begin : Time → AuditRecord → MemoryStore → MemoryStore × AuditRecord
begin now r s =
    (record s { counter = if r.id == "" then next_counter s else s.counter }, completed now s r)

-- Append under the mutex
unfoldable pub commit : AuditRecord → MemoryStore → MemoryStore
commit r s = record s { records = s.records ++ r ∷ [] }

-- A call that none interrupts is Append.
pub append-begin :
    (now : Time) (r : AuditRecord) (s : MemoryStore)
    → append background now r s ≡ (let (s', q) = begin now r s in (commit q s', ok q))
unfolding append begin commit
append-begin now r s = refl

-- The store, and the records of the calls that wait for the mutex.
pub record Shared : Type 0 where
  pub store : MemoryStore
  pub waiting : List AuditRecord

abbrev pub new_shared : Shared
new_shared = record { store = new_memory_store; waiting = [] }

-- The states that calls of Append reach, in any interleaving, `n` of them begun; the calls leave the
-- identifier to the store, as those of the runtime service do.
pub data Reached : ℕ → Shared → Type 0 where
  fresh : Reached 0 new_shared
  begun :
      (n : ℕ) (w w' : Shared) (now : Time) (r : AuditRecord)
      → Reached n w
      → r.id ≡ ""
      → w'
        ≡ record { store = (begin now r w.store).0; waiting = (begin now r w.store).1 ∷ w.waiting }
      → Reached (suc n) w'
  committed :
      (n : ℕ) (w w' : Shared) (r : AuditRecord) (before after : List AuditRecord)
      → Reached n w
      → w.waiting ≡ before ++ r ∷ after
      → w' ≡ record { store = commit r w.store; waiting = before ++ after }
      → Reached n w'

unfoldable pub audit_id : ℕ → String
audit_id n = Text.◌++◌ "audit-" (decimal n)

-- the records of all calls begun
abbrev pub taken : Shared → List AuditRecord
taken w = w.waiting ++ w.store.records

abbrev pub ids : List AuditRecord → List String
ids = map λ r. r.id

-- The counter counts the calls, and each call has its own identifier.
record IsCounted (n : ℕ) (w : Shared) : Type 0 where
  count : w.store.counter ≡ n
  ids_taken : Perm (ids (taken w)) (identifiers audit_id n)

begin_id :
    (now : Time) (r : AuditRecord) (s : MemoryStore)
    → r.id ≡ ""
    → (begin now r s).1.id ≡ audit_id (next_counter s)
unfolding begin completed audit_id
begin_id now r s blank = ground (arith, eq_iff r.id "")

begin_counter :
    (now : Time) (r : AuditRecord) (s : MemoryStore)
    → r.id ≡ ""
    → (begin now r s).0 ≡ record s { counter = next_counter s }
unfolding begin
begin_counter now r s blank = rw blank refl

begun-IsCounted :
    (n : ℕ) (w : Shared) (now : Time) (r : AuditRecord)
    → r.id ≡ ""
    → suc n < 2 ^ 64
    → IsCounted n w
    → IsCounted
        (suc n)
        (record { store = (begin now r w.store).0; waiting = (begin now r w.store).1 ∷ w.waiting })
begun-IsCounted n w now r blank small v =
    let next : next_counter w.store ≡ suc n = omega (arith, v.count, small) in
    record {
      count = rw (begin_counter now r w.store blank) next;
      ids_taken =
          rw (begin_id now r w.store blank, next, begin_counter now r w.store blank)
            (Perm.cons (audit_id (suc n)) v.ids_taken);
    }

committed-IsCounted :
    (n : ℕ) (w : Shared) (r : AuditRecord) (before after : List AuditRecord)
    → w.waiting ≡ before ++ r ∷ after
    → IsCounted n w
    → IsCounted n (record { store = commit r w.store; waiting = before ++ after })
unfolding commit
committed-IsCounted n w r before after at v = record {
  count = v.count;
  ids_taken =
      Perm.trans (Perm.map (λ q. q.id) (perm_commit r before after w.store.records))
        (subst (λ q. Perm (ids (q ++ w.store.records)) (identifiers audit_id n)) at v.ids_taken);
}

reached-IsCounted : (n : ℕ) (w : Shared) → Reached n w → n < 2 ^ 64 → IsCounted n w
reached-IsCounted _ _ fresh small = record { count = refl; ids_taken = Perm.refl [] }
reached-IsCounted _ _ (begun n w w' now r past blank e) small =
    rw e (begun-IsCounted n w now r blank small (reached-IsCounted n w past (omega (arith, small))))
reached-IsCounted _ _ (committed n w w' r before after past at e) small =
    rw e (committed-IsCounted n w r before after at (reached-IsCounted n w past small))

audit_id_injective : (n m : ℕ) → n < 2 ^ 64 → m < 2 ^ 64 → audit_id n ≡ audit_id m → n ≡ m
unfolding audit_id
audit_id_injective n m h k e = decimal_injective n m h k (append_cancel_left _ _ _ e)

-- In every interleaving of fewer than 2^64 calls of Append that leave the identifier to the store,
-- the counter is the number n of the calls begun, and the identifiers of the records that are stored
-- or wait for the mutex are audit-1 to audit-n, each once.
pub threads_identify :
    (n : ℕ) (w : Shared)
    → Reached n w
    → n < 2 ^ 64
    → (w.store.counter ≡ n) × Nodup (ids (taken w)) × Perm (ids (taken w)) (identifiers audit_id n)
threads_identify n w run small =
    let v = reached-IsCounted n w run small in
    (
      v.count,
      Perm.nodup (Perm.symm v.ids_taken) (Nodup-identifiers audit_id audit_id_injective n small),
      v.ids_taken,
    )
