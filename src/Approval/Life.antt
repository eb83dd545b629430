-- ===== src/Approval/Life.antt =====
-- The life of an approval request: what Decide may do to it, once.
use agent_secyrity.Prelude.{
  String, ◌≡◌, ◌≢◌, refl, sym, ap, ◌∙◌, ◌⊎◌, inl, inr, true, false, not, ◌&&◌, Option, none, some,
  List, [], ◌∷◌, arith, ◌==◌, eq_iff, Bool-cases, Option-cases,
}
use mathlib.Core.Path.{subst}
use agent_secyrity.Maps.{lookup, insert, lookup-insert, lookup-insert_ne}
use agent_secyrity.Keys.{key}
use agent_secyrity.Domain.{
  Time, ApprovalRequest, approval_status_pending, approval_status_approved,
  approval_status_rejected, approval_status_expired, is_zero, after,
}
use agent_secyrity.Domain.Errors.{Context}
use agent_secyrity.Approval.{
  MemoryStore, DecisionInput, decide_request, written, decision_time, decide,
}

-- The request has a deadline and it has passed.
abbrev pub IsOverdue : Time → ApprovalRequest → Type 0
IsOverdue now r = (is_zero r.expires_at ≡ false) × (after now r.expires_at ≡ true)

abbrev pub IsVerdict : String → Type 0
IsVerdict status = (status ≡ approval_status_approved) ⊎ (status ≡ approval_status_rejected)

-- The request with the verdict of `input`, given at `now`.
abbrev pub decided_as : DecisionInput → Time → ApprovalRequest → ApprovalRequest
decided_as input now r = record r {
  status = input.status;
  decided_at = now;
  decided_by = input.decided_by;
  decision_reason = input.reason;
}

abbrev pub expired : ApprovalRequest → ApprovalRequest
expired r = record r { status = approval_status_expired }

-- The steps of a request in a call with `input` at the time `now`: its verdict, in time, or the
-- discovery that the deadline has passed by then.
pub data Transition (input : DecisionInput) (now : Time) (r r' : ApprovalRequest) : Type 0 where
  verdict :
      r.status ≡ approval_status_pending
      → ¬ IsOverdue now r
      → IsVerdict input.status
      → r' ≡ decided_as input now r
      → Transition input now r r'
  expire :
      r.status ≡ approval_status_pending
      → IsOverdue now r
      → r' ≡ expired r
      → Transition input now r r'

verdict-ne-pending : (status : String) → IsVerdict status → status ≢ approval_status_pending
verdict-ne-pending status (inl e) =
    rw e (ground (arith, eq_iff approval_status_approved approval_status_pending))
verdict-ne-pending status (inr e) =
    rw e (ground (arith, eq_iff approval_status_rejected approval_status_pending))

expired-ne-pending : ◌≢◌ {A = String} approval_status_expired approval_status_pending
expired-ne-pending = ground (arith, eq_iff approval_status_expired approval_status_pending)

-- A step starts at a pending request and ends at one that is not.
pub Transition-ends :
    (input : DecisionInput) (now : Time) (r r' : ApprovalRequest)
    → Transition input now r r'
    → (r.status ≡ approval_status_pending) × (r'.status ≢ approval_status_pending)
Transition-ends input now r r' (verdict p _ v e) =
    (p, λ h. verdict-ne-pending input.status v (sym (ap (λ q. q.status) e) ∙ h))
Transition-ends input now r r' (expire p _ e) =
    (p, λ h. expired-ne-pending (sym (ap (λ q. q.status) e) ∙ h))

decide_request-Transition :
    (input : DecisionInput) (now : Time) (r r' : ApprovalRequest)
    → IsVerdict input.status
    → (decide_request input now r).0 ≡ some r'
    → Transition input now r r'
unfolding decide_request
decide_request-Transition input now r r' v h =
    elim (Bool-cases (r.status == approval_status_pending)) [
      | inr settled ↦ absurd (ground arith)
      | inl open_still ↦
          let pending : r.status ≡ approval_status_pending = (eq_iff _ _).0 open_still in
          elim (Bool-cases (not (is_zero r.expires_at) && after now r.expires_at)) [
            | inl late ↦ expire pending (ground arith, ground arith) (ground arith)
            | inr timely ↦ verdict pending (λ o. ground arith) v (ground arith)
          ]
    ]

-- The same request after a call: as it was, or one step further.
abbrev pub Follows : DecisionInput → Time → ApprovalRequest → Option ApprovalRequest → Type 0
Follows input now r found =
    (r' : ApprovalRequest) × (found ≡ some r') × ((r ≡ r') ⊎ Transition input now r r')

-- What a call of Decide does to the store: nothing, or one step of the request that it names.
pub data Effect (input : DecisionInput) (now : Time) (map_key : String) (s s' : MemoryStore)
    : Type 0 where
  none_written : s' ≡ s → Effect input now map_key s s'
  step_written :
      (q q' : ApprovalRequest)
      → lookup map_key s.requests ≡ some q
      → Transition input now q q'
      → s' ≡ record s { requests = insert map_key q' s.requests }
      → Effect input now map_key s s'

written-Effect :
    (input : DecisionInput) (now : Time) (map_key : String) (s : MemoryStore) (q : ApprovalRequest)
    (write : Option ApprovalRequest)
    → lookup map_key s.requests ≡ some q
    → ((q' : ApprovalRequest) → write ≡ some q' → Transition input now q q')
    → Effect input now map_key s (written map_key s write)
written-Effect input now map_key s q none h step = none_written refl
written-Effect input now map_key s q (some q') h step = step_written q q' h (step q' refl) refl

pub decide-Effect :
    (ctx : Context) (clock : Time) (t p : String) (input : DecisionInput) (s : MemoryStore)
    → Effect input (decision_time input clock) (key t p) s (decide ctx clock t p input s).0
unfolding decide
decide-Effect (some e) clock t p input s = none_written refl
decide-Effect none clock t p input s =
    elim (Bool-cases (
      not (input.status == approval_status_approved)
      && not (input.status == approval_status_rejected))) [
        | inl invalid ↦ rw invalid (none_written refl)
        | inr valid ↦ elim (Option-cases (lookup (key t p) s.requests)) [
          | inl missing ↦ rw (valid, missing) (none_written refl)
          | inr (q, found) ↦
              let v : IsVerdict input.status = ground (
                arith,
                eq_iff input.status approval_status_approved,
                eq_iff input.status approval_status_rejected,
              ) in
              rw (valid, found)
                (written-Effect input (decision_time input clock) (key t p) s q _ found
                  (λ q' w. decide_request-Transition input (decision_time input clock) q q' v w))
        ]
      ]

Effect-Follows :
    (input : DecisionInput) (now : Time) (map_key k : String) (s s' : MemoryStore)
    (r : ApprovalRequest)
    → Effect input now map_key s s'
    → lookup k s.requests ≡ some r
    → Follows input now r (lookup k s'.requests)
Effect-Follows input now map_key k s s' r (none_written e) h = (r, rw e h, inl refl)
Effect-Follows input now map_key k s s' r (step_written q q' found step e) h =
    elim (Bool-cases (map_key == k)) [
      | inr other ↦ (r, rw e (ground (arith, lookup-insert map_key k q' s.requests)), inl refl)
      | inl same ↦
          let same_request : q ≡ r = ground (arith, eq_iff map_key k) in
          (
            q',
            rw e (ground (arith, lookup-insert map_key k q' s.requests)),
            inr (subst (λ x. Transition input now x q') same_request step),
          )
    ]

Effect-frame :
    (input : DecisionInput) (now : Time) (map_key k : String) (s s' : MemoryStore)
    → Effect input now map_key s s'
    → k ≢ map_key
    → lookup k s'.requests ≡ lookup k s.requests
Effect-frame input now map_key k s s' (none_written e) other = ap (λ x. lookup k x.requests) e
Effect-frame input now map_key k s s' (step_written q q' found step e) other =
    ap (λ x. lookup k x.requests) e
    ∙ lookup-insert_ne map_key k q' s.requests (λ same. other (sym same))

-- Whatever Decide is called with, and whether it succeeds or fails, each stored request stays as
-- it is or makes one step from pending: to the verdict of the input, with its decider and reason, at
-- the time of the decision, which is that of the input or else the clock, if there is no deadline
-- that has passed by then; or to expired, if there is one. What stands at another key than
-- that of the call stays.
pub decide-Follows :
    (ctx : Context) (clock : Time) (t p : String) (input : DecisionInput) (s : MemoryStore)
    (k : String) (r : ApprovalRequest)
    → lookup k s.requests ≡ some r
    → Follows input
        (decision_time input clock)
        r
        (lookup k (decide ctx clock t p input s).0.requests)
      × (k ≢ key t p → lookup k (decide ctx clock t p input s).0.requests ≡ lookup k s.requests)
decide-Follows ctx clock t p input s k r h =
    let effect = decide-Effect ctx clock t p input s in
    (
      Effect-Follows input (decision_time input clock) (key t p) k s _ r effect h,
      Effect-frame input (decision_time input clock) (key t p) k s _ effect,
    )

-- A call of Decide.
pub record Call : Type 0 where
  pub ctx : Context
  pub clock : Time
  pub tenant_id : String
  pub approval_id : String
  pub input : DecisionInput

-- The store after a series of calls, each made whether or not the ones before it failed.
unfoldable pub decide_all : List Call → MemoryStore → MemoryStore
decide_all [] s = s
decide_all (c ∷ cs) s = decide_all cs (decide c.ctx c.clock c.tenant_id c.approval_id c.input s).0

-- A request that is no longer pending is the same after any series of Decide calls.
pub settled_for_good :
    (cs : List Call) (s : MemoryStore) (k : String) (r : ApprovalRequest)
    → lookup k s.requests ≡ some r
    → r.status ≢ approval_status_pending
    → lookup k (decide_all cs s).requests ≡ some r
unfolding decide_all
settled_for_good [] s k r h settled = h
settled_for_good (c ∷ cs) s k r h settled =
    let (r', found, step) =
      (decide-Follows c.ctx c.clock c.tenant_id c.approval_id c.input s k r h).0 in
    settled_for_good cs (decide c.ctx c.clock c.tenant_id c.approval_id c.input s).0 k r
      (elim step [
        | inl same ↦ rw same found
        | inr moved ↦ absurd (settled (Transition-ends _ _ r r' moved).0)
      ])
      settled
