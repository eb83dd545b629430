-- ===== src/Approval/History.antt =====
-- Any series of Create and Decide calls, as the runtime service and the HTTP API make them.
use agent_secyrity.Prelude.{
  suc, ◌+◌, ◌^◌, ◌<◌, String, ◌≡◌, ◌≢◌, refl, inl, inr, none, some, List, [], ◌∷◌, arith, ◌==◌,
  eq_iff, length, All, Bool-cases,
}
use agent_secyrity.Maps.{lookup}
use agent_secyrity.Keys.{HasNoNul}
use agent_secyrity.Domain.{Time, ApprovalRequest, approval_status_pending}
use agent_secyrity.Domain.Errors.{Error, Context}
use agent_secyrity.Approval.{MemoryStore, create, decide}
use agent_secyrity.Approval.Life.{Call, decide-Follows, Transition-ends}
use agent_secyrity.Approval.Fresh.{
  IsValid, create-IsValid, create_adds, create_counter, decide-IsValid, decide_counter,
}

pub data Operation : Type 0 where
  ask : Context → Time → ApprovalRequest → Operation
  settle : Call → Operation

unfoldable pub step : Operation → MemoryStore → MemoryStore
step (ask ctx now r) s = (create ctx now r s).0
step (settle c) s = (decide c.ctx c.clock c.tenant_id c.approval_id c.input s).0

unfoldable pub run : List Operation → MemoryStore → MemoryStore
unfolding step
run [] s = s
run (o ∷ os) s = run os (step o s)

-- A created request leaves its identifier to the store, and its tenant has no NUL.
abbrev pub IsOrdinary : Operation → Type 0
IsOrdinary (ask ctx now r) = (r.id ≡ "") × HasNoNul r.tenant_id
IsOrdinary (settle c) = Unit

-- What one operation does to a valid store with room for one more number.
record Kept (s s' : MemoryStore) : Type 0 where
  valid : IsValid s'
  count : s'.counter < suc (suc s.counter)
  settled :
      (k : String) (r : ApprovalRequest)
      → lookup k s.requests ≡ some r
      → r.status ≢ approval_status_pending
      → lookup k s'.requests ≡ some r

same-Kept : (s : MemoryStore) → IsValid s → Kept s s
same-Kept s v = record { valid = v; count = omega arith; settled = λ k r h n. h }

create_nothing :
    (now : Time) (r : ApprovalRequest) (s : MemoryStore)
    → r.tenant_id ≡ ""
    → (create none now r s).0 ≡ s
unfolding create
create_nothing now r s e = ground (arith, eq_iff r.tenant_id "")

create_cancelled :
    (e : Error) (now : Time) (r : ApprovalRequest) (s : MemoryStore)
    → (create (some e) now r s).0 ≡ s
unfolding create
create_cancelled e now r s = refl

step-Kept :
    (o : Operation) (s : MemoryStore)
    → IsOrdinary o
    → IsValid s
    → s.counter + 1 < 2 ^ 64
    → Kept s (step o s)
unfolding step
step-Kept (ask (some e) now r) s ordinary v room = rw create_cancelled (same-Kept s v)
step-Kept (ask none now r) s (blank, named) v room = elim (Bool-cases (r.tenant_id == "")) [
  | inl no_tenant ↦ rw (create_nothing now r s ((eq_iff _ _).0 no_tenant)) (same-Kept s v)
  | inr tenant ↦
      let t : r.tenant_id ≢ "" = ground (arith, eq_iff r.tenant_id "") in
      record {
        valid = create-IsValid now r s blank v room named t;
        count = omega (arith, create_counter now r s blank v room named t);
        settled = λ k q h n. (create_adds now r s blank v room named t).2 k q h;
      }
]
step-Kept (settle c) s ordinary v room = record {
  valid = decide-IsValid c.ctx c.clock c.tenant_id c.approval_id c.input s v;
  count = omega (arith, decide_counter c.ctx c.clock c.tenant_id c.approval_id c.input s);
  settled = λ k r h n.
      let (r', found, moved) =
        (decide-Follows c.ctx c.clock c.tenant_id c.approval_id c.input s k r h).0 in
      elim moved [ inl same ↦ rw same found | inr t ↦ absurd (n (Transition-ends _ _ r r' t).0) ];
}

-- A request with a verdict, or expired, is never changed or replaced: it is stored as it is after
-- any series of calls, failing or not, as long as fewer than 2 ^ 64 identifiers are generated.
pub run_keeps_settled :
    (os : List Operation) (s : MemoryStore) (k : String) (r : ApprovalRequest)
    → All IsOrdinary os
    → IsValid s
    → s.counter + length os < 2 ^ 64
    → lookup k s.requests ≡ some r
    → r.status ≢ approval_status_pending
    → (lookup k (run os s).requests ≡ some r) × IsValid (run os s)
unfolding run
run_keeps_settled [] s k r h v room found settled = (found, v)
run_keeps_settled (o ∷ os) s k r (h, hs) v room found settled =
    let kept = step-Kept o s h v (omega arith) in
    run_keeps_settled os (step o s) k r hs kept.valid (omega (arith, kept.count))
      (kept.settled k r found settled) settled
