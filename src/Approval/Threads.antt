-- ===== src/Approval/Threads.antt =====
-- Create from several goroutines: s.counter.Add(1) is one atomic step, in front of the one that holds
-- the mutex, so that other calls may come between the two.
use mathlib.Core.Path.{subst}
use mathlib.Core.List.{Perm, Mem, Memᴰ, Nodup, Nodup-cons, mem-cons_of_mem, perm_middle}
use mathlib.Core.List.Perm
use agent_secyrity.Prelude.{
  ℕ, suc, ◌^◌, ◌<◌, String, ◌≡◌, ◌≢◌, refl, none, List, [], ◌∷◌, ◌++◌, map, ◌==◌, arith, eq_iff,
  All, if◌then◌else◌,
}
use agent_secyrity.Prelude.Members.{All-append, All-split}
use agent_secyrity.Maps.{insert, lookup-insert_self, lookup-insert_ne}
use agent_secyrity.Numbering.{perm_commit, identifiers, Nodup-identifiers}
use agent_secyrity.Keys.{key, HasNoNul, key_injective}
use agent_secyrity.Domain.{Time, ApprovalRequest}
use agent_secyrity.Domain.Errors.{ok}
use agent_secyrity.Approval.{
  MemoryStore, new_memory_store, approval_id, next_counter, completed, create, get,
}
use agent_secyrity.Approval.Fresh.{approval_id_injective}

-- Create up to s.mu.Lock, of a request with a tenant: the number is taken and the request completed.
unfoldable pub begin : Time → ApprovalRequest → MemoryStore → MemoryStore × ApprovalRequest
begin now r s =
    (record s { counter = if r.id == "" then next_counter s else s.counter }, completed now s r)

-- Create under the mutex
unfoldable pub commit : ApprovalRequest → MemoryStore → MemoryStore
commit r s = record s { requests = insert (key r.tenant_id r.id) r s.requests }

-- A call that none interrupts is Create.
pub create-begin :
    (now : Time) (r : ApprovalRequest) (s : MemoryStore)
    → r.tenant_id ≢ ""
    → create none now r s ≡ (let (s', q) = begin now r s in (commit q s', ok q))
unfolding create begin commit completed
create-begin now r s named = ground (arith, eq_iff r.tenant_id "")

-- The store, the requests of the calls that wait for the mutex, and those of the calls that returned.
pub record Shared : Type 0 where
  pub store : MemoryStore
  pub waiting : List ApprovalRequest
  pub returned : List ApprovalRequest

abbrev pub new_shared : Shared
new_shared = record { store = new_memory_store; waiting = []; returned = [] }

-- The states that calls of Create reach, in any interleaving, `n` of them begun; the calls leave the
-- identifier to the store, as those of the runtime service do, and no tenant has a NUL character.
pub data Reached : ℕ → Shared → Type 0 where
  fresh : Reached 0 new_shared
  begun :
      (n : ℕ) (w w' : Shared) (now : Time) (r : ApprovalRequest)
      → Reached n w
      → r.tenant_id ≢ ""
      → r.id ≡ ""
      → HasNoNul r.tenant_id
      → w' ≡ record w {
        store = (begin now r w.store).0;
        waiting = (begin now r w.store).1 ∷ w.waiting;
      }
      → Reached (suc n) w'
  committed :
      (n : ℕ) (w w' : Shared) (r : ApprovalRequest) (before after : List ApprovalRequest)
      → Reached n w
      → w.waiting ≡ before ++ r ∷ after
      → w' ≡ record {
        store = commit r w.store;
        waiting = before ++ after;
        returned = w.returned ++ r ∷ [];
      }
      → Reached n w'

abbrev pub ids : List ApprovalRequest → List String
ids = map λ r. r.id

abbrev pub taken : Shared → List ApprovalRequest
taken w = w.waiting ++ w.returned

-- Get finds the request.
abbrev pub IsKept : MemoryStore → ApprovalRequest → Type 0
IsKept s r = get none r.tenant_id r.id s ≡ ok r

-- The calls have different identifiers, and the requests of those that returned are found.
record IsCounted (n : ℕ) (w : Shared) : Type 0 where
  count : w.store.counter ≡ n
  ids_taken : Perm (ids (taken w)) (identifiers approval_id n)
  plain : All (λ r. HasNoNul r.tenant_id) (taken w)
  kept : All (IsKept w.store) w.returned

begin_eq :
    (now : Time) (r : ApprovalRequest) (s : MemoryStore)
    → r.id ≡ ""
    → ((begin now r s).0 ≡ record s { counter = next_counter s })
      × ((begin now r s).1.id ≡ approval_id (next_counter s))
      × ((begin now r s).1.tenant_id ≡ r.tenant_id)
unfolding begin completed
begin_eq now r s blank = (rw blank refl, rw blank refl, refl)

IsKept-commit :
    (r q : ApprovalRequest) (s : MemoryStore)
    → r.id ≢ q.id
    → HasNoNul r.tenant_id
    → HasNoNul q.tenant_id
    → IsKept s q
    → IsKept (commit r s) q
unfolding commit get
IsKept-commit r q s differ h k kept =
    rw
      (lookup-insert_ne (key r.tenant_id r.id) (key q.tenant_id q.id) r s.requests
        λ e. differ (key_injective r.tenant_id q.tenant_id r.id q.id h k e).1)
      kept

IsKept-commit_self : (r : ApprovalRequest) (s : MemoryStore) → IsKept (commit r s) r
unfolding commit get
IsKept-commit_self r s = rw lookup-insert_self refl

begun-IsCounted :
    (n : ℕ) (w : Shared) (now : Time) (r : ApprovalRequest)
    → r.id ≡ ""
    → HasNoNul r.tenant_id
    → suc n < 2 ^ 64
    → IsCounted n w
    → IsCounted (suc n) (record w {
      store = (begin now r w.store).0;
      waiting = (begin now r w.store).1 ∷ w.waiting;
    })
unfolding get
begun-IsCounted n w now r blank plain small v =
    let next : next_counter w.store ≡ suc n = omega (arith, v.count, small) in
    let (store, id, tenant) = begin_eq now r w.store blank in
    record {
      count = rw store next;
      ids_taken = rw (id, next) (Perm.cons (approval_id (suc n)) v.ids_taken);
      plain = (rw tenant plain, v.plain);
      kept = rw store v.kept;
    }

-- Where an identifier is not among those of some requests, it is that of none.
others : (x : String) (rs : List ApprovalRequest) → ¬ Mem x (ids rs) → All (λ q. x ≢ q.id) rs
others x [] free = tt
others x (q ∷ qs) free =
    (λ e. free ∣ Memᴰ.head e ∣₁, others x qs (λ m. free (mem-cons_of_mem q.id m)))

kept_all :
    (r : ApprovalRequest) (s : MemoryStore) (qs : List ApprovalRequest)
    → HasNoNul r.tenant_id
    → All (λ q. r.id ≢ q.id) qs
    → All (λ q. HasNoNul q.tenant_id) qs
    → All (IsKept s) qs
    → All (IsKept (commit r s)) qs
kept_all r s [] plain differ plains kept = tt
kept_all r s (q ∷ qs) plain (d, ds) (p, ps) (k, ks) =
    (IsKept-commit r q s d plain p k, kept_all r s qs plain ds ps ks)

committed-IsCounted :
    (n : ℕ) (w : Shared) (r : ApprovalRequest) (before after : List ApprovalRequest)
    → w.waiting ≡ before ++ r ∷ after
    → n < 2 ^ 64
    → IsCounted n w
    → IsCounted n (record {
      store = commit r w.store;
      waiting = before ++ after;
      returned = w.returned ++ r ∷ [];
    })
unfolding commit
committed-IsCounted n w r before after at small v =
    let Plain = λ (q : ApprovalRequest). HasNoNul q.tenant_id in
    let counted =
      subst (λ q. Perm (ids (q ++ w.returned)) (identifiers approval_id n)) at v.ids_taken in
    let plains = subst (λ q. All Plain (q ++ w.returned)) at v.plain in
    let (waiting, returned) = All-split Plain (before ++ r ∷ after) w.returned plains in
    let (earlier, later) = All-split Plain before (r ∷ after) waiting in
    let moved = Perm.map (λ q. q.id) (Perm.append_right w.returned (perm_middle before after)) in
    let distinct =
      Perm.nodup (Perm.trans (Perm.symm counted) moved)
        (Nodup-identifiers approval_id approval_id_injective n small) in
    let differ =
      All-split (λ q. r.id ≢ q.id) (before ++ after) w.returned
        (others r.id ((before ++ after) ++ w.returned) (Nodup-cons.0 distinct).0) in
    record {
      count = v.count;
      ids_taken = Perm.trans (Perm.map (λ q. q.id) (perm_commit r before after w.returned)) counted;
      plain =
          All-append Plain (before ++ after) (w.returned ++ r ∷ [])
            (All-append Plain before after earlier later.1)
            (All-append Plain w.returned (r ∷ []) returned (later.0, tt));
      kept =
          All-append (IsKept (commit r w.store)) w.returned (r ∷ [])
            (kept_all r w.store w.returned later.0 differ.1 returned v.kept)
            (IsKept-commit_self r w.store, tt);
    }

reached-IsCounted : (n : ℕ) (w : Shared) → Reached n w → n < 2 ^ 64 → IsCounted n w
reached-IsCounted _ _ fresh small = record {
  count = refl;
  ids_taken = Perm.refl [];
  plain = tt;
  kept = tt;
}
reached-IsCounted _ _ (begun n w w' now r past tenant blank plain e) small = rw e (
    begun-IsCounted n w now r blank plain small (reached-IsCounted n w past (omega (arith, small))))
reached-IsCounted _ _ (committed n w w' r before after past at e) small =
    rw e (committed-IsCounted n w r before after at small (reached-IsCounted n w past small))

-- In every interleaving of fewer than 2^64 calls of Create that leave the identifier to the store,
-- for tenants without a NUL character, no two calls get the same identifier, and Get finds the
-- request of every call that returned, as it was created.
pub threads_keep_requests :
    (n : ℕ) (w : Shared)
    → Reached n w
    → n < 2 ^ 64
    → Nodup (ids (taken w)) × All (IsKept w.store) w.returned
threads_keep_requests n w run small =
    let v = reached-IsCounted n w run small in
    (
      Perm.nodup (Perm.symm v.ids_taken)
          (Nodup-identifiers approval_id approval_id_injective n small),
      v.kept,
    )
