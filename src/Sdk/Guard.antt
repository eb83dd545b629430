-- ===== src/Sdk/Guard.antt =====
-- What Execute of the enforcer does with the protected action.
use mathlib.Core.Path.{subst}
use agent_secyrity.Prelude.{
  ◌≡◌, ◌≢◌, refl, inl, inr, true, Option, none, some, ◌==◌, eq_iff, Bool-cases,
}
use agent_secyrity.Sdk.Types.{
  RuntimeEvent, EvaluationResult, ApprovalRequest, approval_status_approved,
}
use agent_secyrity.Domain.Errors.{Result, ok, err}
use agent_secyrity.Sdk.{Failure, Reply, done, fault, Platform, allowed, requires_approval}
use agent_secyrity.Sdk.Client.{Client, evaluate}
use agent_secyrity.Sdk.Enforcer.{
  ActionFunc, ApprovalWaiter, Execution, approved_event, refused, execute_allowed, reevaluated,
  waited, awaited, evaluated, execute,
}

module _ {W B : Type 0} (platform : Platform B) where
  module _ (client : Client W B) (waiter : Option (ApprovalWaiter W B)) where
    -- The states that evaluations and the waiter lead to.
    pub data Reached (w : W) : W → Type 0 where
      start : Reached w w
      evaluating :
          {u : W} (event : RuntimeEvent)
          → Reached w u
          → Reached w (evaluate platform client event u).0
      waiting :
          {u : W} (f : ApprovalWaiter W B) (result : EvaluationResult) (event : RuntimeEvent)
          → waiter ≡ some f
          → Reached w u
          → Reached w (f client result event u).0

  module _ {O : Type 0} (client : Client W B) (waiter : Option (ApprovalWaiter W B)) where
    -- No action ran: the state is reached without it, there is no output, and there is an error.
    pub record IsStopped (w : W) (x : Execution W O) : Type 0 where
      pub reached : Reached client waiter w x.0
      pub no_output : x.1.output ≡ none
      pub has_error : x.2 ≢ none

    -- How an execution of an action for an event can go.
    pub data Course (event : RuntimeEvent) (action : ActionFunc W O) (w : W) (x : Execution W O)
        : Type 0 where
      stopped : IsStopped w x → Course event action w x
      allowed_at_once :
          (u : W) (result : EvaluationResult)
          → evaluate platform client event w ≡ (u, done result)
          → allowed result ≡ true
          → x ≡ execute_allowed result none action u
          → Course event action w x
      allowed_later :
          (u v v' : W) (f : ApprovalWaiter W B) (first second : EvaluationResult)
          (approval : ApprovalRequest)
          → evaluate platform client event w ≡ (u, done first)
          → requires_approval first ≡ true
          → waiter ≡ some f
          → f client first event u ≡ (v, ok approval)
          → approval.status ≡ approval_status_approved
          → evaluate platform client (approved_event event approval) v ≡ (v', done second)
          → allowed second ≡ true
          → x ≡ execute_allowed second (some approval) action v'
          → Course event action w x

    stop :
        {w u : W} (result : EvaluationResult) (approval : Option ApprovalRequest) (f : Failure)
        → Reached client waiter w u
        → IsStopped w (refused u result approval f)
    stop result approval f reached = record {
      reached = reached;
      no_output = refl;
      has_error = λ e. cc e;
    }

  module _ {O : Type 0} (client : Client W B) (event : RuntimeEvent) (action : ActionFunc W O)
      (w : W) where
    -- A first evaluation that asks for approval, and the approval that the waiter returns.
    record IsReleased (f : ApprovalWaiter W B) (u v : W) (first : EvaluationResult)
        (approval : ApprovalRequest) : Type 0 where
      evaluation : evaluate platform client event w ≡ (u, done first)
      asks : requires_approval first ≡ true
      waiting : f client first event u ≡ (v, ok approval)
      is_approved : approval.status ≡ approval_status_approved

    module _ (f : ApprovalWaiter W B) (u v : W) (first : EvaluationResult)
        (approval : ApprovalRequest) (released : IsReleased f u v first approval) where
      second-Course :
          Reached client (some f) w v
          → (p : W × Reply EvaluationResult)
          → evaluate platform client (approved_event event approval) v ≡ p
          → Course client
              (some f)
              event
              action
              w
              (reevaluated platform client event action first approval p)
      second-Course reached (v', fault failure) e = stopped (
          stop client (some f) first (some approval) failure
            (subst (λ q. Reached client (some f) w q.0) e (evaluating _ reached)))
      second-Course reached (v', done second) e = elim (Bool-cases (allowed second)) [
        | inl good ↦ rw good (
            allowed_later u v v' f first second approval released.evaluation released.asks refl
              released.waiting released.is_approved e good refl)
        | inr bad ↦ rw bad (
            stopped (
              stop client (some f) second (some approval) _
                (subst (λ q. Reached client (some f) w q.0) e (evaluating _ reached))))
      ]

    module _ (u : W) (first : EvaluationResult)
        (evaluation : evaluate platform client event w ≡ (u, done first))
        (asks : requires_approval first ≡ true) where
      waited-Course :
          (f : ApprovalWaiter W B)
          → Reached client (some f) w u
          → (p : W × Result ApprovalRequest) → f client first event u ≡ p
          → Course client (some f) event action w (waited platform client event action first p)
      waited-Course f reached (v, err failure) e = stopped (
          stop client (some f) first none _
            (subst (λ q. Reached client (some f) w q.0) e (waiting f first event refl reached)))
      waited-Course f reached (v, ok approval) e =
          let now =
            subst (λ q. Reached client (some f) w q.0) e (waiting f first event refl reached) in
          elim (Bool-cases (approval.status == approval_status_approved)) [
            | inl good ↦ rw good (
                second-Course f u v first approval
                  (record {
                    evaluation = evaluation;
                    asks = asks;
                    waiting = e;
                    is_approved = (eq_iff approval.status approval_status_approved).0 good;
                  })
                  now _ refl)
            | inr bad ↦ rw bad (stopped (stop client (some f) first (some approval) _ now))
          ]

      awaited-Course :
          (waiter : Option (ApprovalWaiter W B))
          → Reached client waiter w u
          → Course client waiter event action w
              (awaited platform client event action waiter first u)
      awaited-Course none reached = stopped (stop client none first none _ reached)
      awaited-Course (some f) reached = waited-Course f reached _ refl

    evaluated-Course :
        (waiter : Option (ApprovalWaiter W B)) (p : W × Reply EvaluationResult)
        → evaluate platform client event w ≡ p
        → Course client waiter event action w (evaluated platform client event action waiter p)
    evaluated-Course waiter (u, fault failure) e = stopped (
        stop client waiter _ none failure
          (subst (λ q. Reached client waiter w q.0) e (evaluating event start)))
    evaluated-Course waiter (u, done result) e =
        let now = subst (λ q. Reached client waiter w q.0) e (evaluating event start) in
        elim (Bool-cases (allowed result)) [
          | inl good ↦ rw good (allowed_at_once u result e good refl)
          | inr bad ↦ elim (Bool-cases (requires_approval result)) [
            | inl asks ↦ rw (bad, asks) (awaited-Course u result e asks waiter now)
            | inr other ↦ rw (bad, other) (stopped (stop client waiter result none _ now))
          ]
        ]

    -- Execute runs the action at most once, and last: after an evaluation of the event that allows
    -- it, or, where an evaluation asks for approval, after the waiter returned an approved request
    -- and an evaluation of the event with its identifier allows it. Otherwise the state is one that
    -- evaluations and the waiter lead to, and there is an error and no output.
    pub execute-Course :
        (waiter : Option (ApprovalWaiter W B))
        → Course client waiter event action w (
            execute platform
              (some (record { client = some client; approval_waiter = waiter }))
              (record { event = event; action = some action })
              w)
    unfolding execute
    execute-Course waiter = evaluated-Course waiter _ refl
