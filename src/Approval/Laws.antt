-- ===== src/Approval/Laws.antt =====
-- What the store answers: Decide on every branch, and Get after Create and Decide.
use agent_secyrity.Prelude.{
  String, ◌≡◌, ◌≢◌, inl, inr, false, not, ◌&&◌, none, some, arith, ◌==◌, eq_iff, Bool-cases,
  Option-cases,
}
use agent_secyrity.Maps.{lookup, lookup-insert_self}
use agent_secyrity.Keys.{key}
use agent_secyrity.Domain.{
  Time, ApprovalRequest, approval_status_pending, approval_status_approved,
  approval_status_rejected, is_zero, after,
}
use agent_secyrity.Domain.Errors.{
  Result, ok, err, approval_not_found, approval_expired, approval_already_decided, invalid_decision,
}
use agent_secyrity.Approval.{MemoryStore, DecisionInput, get, decide_request, decision_time, decide}
use agent_secyrity.Approval.Life.{IsOverdue, IsVerdict, decided_as, expired}

module _ (clock : Time) (t p : String) (input : DecisionInput) (s : MemoryStore) where
  abbrev after_call : MemoryStore
  after_call = (decide none clock t p input s).0

  abbrev answer : Result ApprovalRequest
  answer = (decide none clock t p input s).1

  -- The answers of Decide, each with the condition under which it is given and the effect.
  pub data Answer : Type 0 where
    invalid : ¬ IsVerdict input.status → answer ≡ err invalid_decision → after_call ≡ s → Answer
    missing :
        IsVerdict input.status
        → get none t p s ≡ err approval_not_found
        → answer ≡ err approval_not_found
        → after_call ≡ s
        → Answer
    settled :
        IsVerdict input.status
        → (r : ApprovalRequest) → get none t p s ≡ ok r
        → r.status ≢ approval_status_pending
        → answer ≡ err approval_already_decided
        → after_call ≡ s
        → Answer
    late :
        IsVerdict input.status
        → (r : ApprovalRequest) → get none t p s ≡ ok r
        → r.status ≡ approval_status_pending
        → IsOverdue (decision_time input clock) r
        → answer ≡ err approval_expired
        → get none t p after_call ≡ ok (expired r)
        → Answer
    given :
        IsVerdict input.status
        → (r : ApprovalRequest) → get none t p s ≡ ok r
        → r.status ≡ approval_status_pending
        → ¬ IsOverdue (decision_time input clock) r
        → answer ≡ ok (decided_as input (decision_time input clock) r)
        → get none t p after_call ≡ ok (decided_as input (decision_time input clock) r)
        → Answer

  decide_found_Answer :
      (r : ApprovalRequest)
      → IsVerdict input.status
      → (not (input.status == approval_status_approved)
          && not (input.status == approval_status_rejected))
        ≡ false
      → lookup (key t p) s.requests ≡ some r
      → Answer
  unfolding decide get decide_request
  decide_found_Answer r v valid found = elim (Bool-cases (r.status == approval_status_pending)) [
    | inr other ↦
        settled v r (ground arith) (ground (arith, eq_iff r.status approval_status_pending))
          (ground arith) (ground arith)
    | inl pending ↦
        let p' : r.status ≡ approval_status_pending = (eq_iff _ _).0 pending in
        let k = key t p in
        elim (Bool-cases
          (not (is_zero r.expires_at) && after (decision_time input clock) r.expires_at)) [
            | inl overdue ↦
                late v r (ground arith) p' (ground arith, ground arith) (ground arith)
                  (ground (arith, lookup-insert_self k (expired r) s.requests))
            | inr in_time ↦
                let r' = decided_as input (decision_time input clock) r in
                given v r (ground arith) p' (λ o. ground arith) (ground arith)
                  (ground (arith, lookup-insert_self k r' s.requests))
          ]
  ]

  -- Decide with an uncancelled context gives one of its five answers: it refuses a status that is
  -- no verdict, an unknown request and one that is no longer pending, and changes nothing; it
  -- marks a request whose deadline has passed as expired; and else it stores and returns the
  -- request with the verdict.
  pub decide-Answer : Answer
  unfolding decide get
  decide-Answer =
      elim (Bool-cases (
        not (input.status == approval_status_approved)
        && not (input.status == approval_status_rejected))) [
          | inl wrong ↦
              invalid
                (λ v. ground (
                  arith,
                  eq_iff input.status approval_status_approved,
                  eq_iff input.status approval_status_rejected,
                ))
                (ground arith) (ground arith)
          | inr valid ↦
              let v : IsVerdict input.status = ground (
                arith,
                eq_iff input.status approval_status_approved,
                eq_iff input.status approval_status_rejected,
              ) in
              elim (Option-cases (lookup (key t p) s.requests)) [
                | inl none_found ↦ missing v (ground arith) (ground arith) (ground arith)
                | inr (r, found) ↦ decide_found_Answer r v valid found
              ]
        ]
