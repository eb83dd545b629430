-- ===== src/Sdk/Enforcer.antt =====
-- sdk/go/agentsec/enforcer.go: the enforcer, which runs an action only if the platform allows it.
-- The action and the waiter are code of the caller: functions on the state of the world.
use Prim.Native.String as Text
use agent_secyrity.Prelude.{not, Option, none, some, List, [], ◌∷◌, ◌==◌, if◌then◌else◌}
use agent_secyrity.Sdk.Types.{
  RuntimeEvent, EvaluationResult, ApprovalRequest, approval_status_approved,
}
use agent_secyrity.Domain.Errors.{Result, ok, err}
use agent_secyrity.Sdk.Types.{blank_result}
use agent_secyrity.Sdk.{
  EnforcementError, Failure, stated, passed, blocked, Reply, done, fault, Platform, allowed,
  requires_approval,
}
use agent_secyrity.Sdk.Client.{Client, evaluate}

-- ActionFunc
abbrev pub ActionFunc : Type 0 → Type 0 → Type 0
ActionFunc W O = W → W × Result O

-- ApprovalWaiter
abbrev pub ApprovalWaiter : Type 0 → Type 0 → Type 0
ApprovalWaiter W B = Client W B → EvaluationResult → RuntimeEvent → W → W × Result ApprovalRequest

pub record Operation (W O : Type 0) : Type 0 where
  pub event : RuntimeEvent
  pub action : Option (ActionFunc W O)

pub record EnforcementResult (O : Type 0) : Type 0 where
  pub evaluation : EvaluationResult
  pub approval : Option ApprovalRequest
  pub output : Option O

pub record Enforcer (W B : Type 0) : Type 0 where
  pub client : Option (Client W B)
  pub approval_waiter : Option (ApprovalWaiter W B)

-- EnforcerOption; the nil option is none
abbrev pub EnforcerOption : Type 0 → Type 0 → Type 0
EnforcerOption W B = Option (Enforcer W B → Enforcer W B)

-- What Execute returns: the state, and the result with an error or nil.
abbrev pub Execution : Type 0 → Type 0 → Type 0
Execution W O = W × EnforcementResult O × Option Failure

-- enforcementError
unfoldable pub enforcement_error : EvaluationResult → EnforcementError
enforcement_error result = record {
  decision = result.decision;
  reason = result.reason;
  approval_id = result.approval_id;
}

abbrev not_approved : EvaluationResult → ApprovalRequest → EnforcementError
not_approved result approval = record {
  decision = result.decision;
  reason = Text.◌++◌ "approval status is " approval.status;
  approval_id = approval.id;
}

-- the event with the identifier of its approval
abbrev pub approved_event : RuntimeEvent → ApprovalRequest → RuntimeEvent
approved_event event approval = record event { approval_id = approval.id }

abbrev pub enforced :
    {O : Type 0} → EvaluationResult → Option ApprovalRequest → Option O → EnforcementResult O
enforced result approval output = record {
  evaluation = result;
  approval = approval;
  output = output;
}

module _ {W B : Type 0} where
  abbrev pub with_approval_waiter : Option (ApprovalWaiter W B) → Enforcer W B → Enforcer W B
  with_approval_waiter waiter e = record e { approval_waiter = waiter }

  -- the loop of NewEnforcer over the options
  unfoldable pub apply_options : List (EnforcerOption W B) → Enforcer W B → Enforcer W B
  apply_options [] e = e
  apply_options (none ∷ options) e = apply_options options e
  apply_options (some option ∷ options) e = apply_options options (option e)

  unfoldable pub new_enforcer :
      Option (Client W B) → List (EnforcerOption W B) → Reply (Enforcer W B)
  new_enforcer none options = fault (stated "agentsec client is required")
  new_enforcer (some client) options =
      done (apply_options options (record { client = some client; approval_waiter = none }))

module _ {W O : Type 0} where
  abbrev pub action_done : EvaluationResult → Option ApprovalRequest → W × Result O → Execution W O
  action_done result approval (w, err e) = (w, enforced result approval none, some (passed e))
  action_done result approval (w, ok output) = (w, enforced result approval (some output), none)

  -- executeAllowed
  unfoldable pub execute_allowed :
      EvaluationResult → Option ApprovalRequest → ActionFunc W O → W → Execution W O
  execute_allowed result approval action w = action_done result approval (action w)

  abbrev pub refused : W → EvaluationResult → Option ApprovalRequest → Failure → Execution W O
  refused w result approval failure = (w, enforced result approval none, some failure)

  abbrev no_client : W → Execution W O
  no_client w = refused w blank_result none (stated "agentsec enforcer client is required")

module _ {W B O : Type 0} (platform : Platform B) (client : Client W B) (event : RuntimeEvent)
    (action : ActionFunc W O) where
  -- from the second evaluation on
  abbrev pub reevaluated :
      EvaluationResult → ApprovalRequest → W × Reply EvaluationResult → Execution W O
  reevaluated result approval (w, fault f) = refused w result (some approval) f
  reevaluated result approval (w, done second) =
      if not (allowed second)
      then refused w second (some approval) (blocked (enforcement_error second))
      else execute_allowed second (some approval) action w

  -- from the answer of the waiter on
  abbrev pub waited : EvaluationResult → W × Result ApprovalRequest → Execution W O
  waited result (w, err e) = refused w result none (passed e)
  waited result (w, ok approval) =
      if not (approval.status == approval_status_approved)
      then refused w result (some approval) (blocked (not_approved result approval))
      else reevaluated result approval (evaluate platform client (approved_event event approval) w)

  abbrev pub awaited : Option (ApprovalWaiter W B) → EvaluationResult → W → Execution W O
  awaited none result w = refused w result none (blocked (enforcement_error result))
  awaited (some waiter) result w = waited result (waiter client result event w)

  -- from the first evaluation on
  abbrev pub evaluated : Option (ApprovalWaiter W B) → W × Reply EvaluationResult → Execution W O
  evaluated waiter (w, fault f) = refused w blank_result none f
  evaluated waiter (w, done result) =
      if allowed result
      then execute_allowed result none action w
      else if not (requires_approval result)
      then refused w result none (blocked (enforcement_error result))
      else awaited waiter result w

module _ {W B O : Type 0} (platform : Platform B) where
  abbrev pub with_action :
      Client W B
      → Option (ApprovalWaiter W B)
      → RuntimeEvent
      → Option (ActionFunc W O)
      → W
      → Execution W O
  with_action client waiter event none w =
      refused w blank_result none (stated "agentsec operation action is required")
  with_action client waiter event (some action) w =
      evaluated platform client event action waiter (evaluate platform client event w)

  abbrev pub with_enforcer :
      Option (Client W B) → Option (ApprovalWaiter W B) → Operation W O → W → Execution W O
  with_enforcer none waiter op w = no_client w
  with_enforcer (some client) waiter op w = with_action client waiter op.event op.action w

  -- Execute, on an enforcer that may be nil
  unfoldable pub execute : Option (Enforcer W B) → Operation W O → W → Execution W O
  execute none op w = no_client w
  execute (some e) op w = with_enforcer e.client e.approval_waiter op w
