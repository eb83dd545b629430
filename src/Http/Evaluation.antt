-- ===== src/Http/Evaluation.antt =====
-- What POST /v1/evaluate answers, over the in-memory stores.
use agent_secyrity.Prelude.{◌≡◌, ◌⊎◌, inl, inr, refl, true, Option, some}
use agent_secyrity.Prelude.Int.{ℤ}
use agent_secyrity.Strings.{Folding}
use agent_secyrity.Maps.{Iteration}
use agent_secyrity.Domain.{RuntimeEvent, EvaluationResult}
use agent_secyrity.Domain.Event.{validate, with_schema_version}
use agent_secyrity.Domain.Event.Laws.{IsComplete, normalize-cases, IsComplete-of_normalize}
use agent_secyrity.Domain.Errors.{
  ValidationError, is_invalid_runtime_event, as_validation, Result, ok, err,
}
use agent_secyrity.Auth.{ApiKey, ApiKeyConfig}
use agent_secyrity.Runtime.{evaluate_event}
use agent_secyrity.Runtime.Memory.{Stores}
use agent_secyrity.Runtime.Total.{IsCalm, IsOk, evaluate_event-IsOk}
use agent_secyrity.Http.{
  Request, Codec, Moments, evaluation, write_json, write_error_with_details, Answer,
  authorize_tenant,
}
use agent_secyrity.Http.Events.{evaluate, evaluation_response}
use agent_secyrity.Http.Memory.{memory_handler}

-- A valid event is answered with a result; any other with 422 and the failed checks of Validate, and
-- nothing is stored.
abbrev pub Answered : Stores → RuntimeEvent → Answer Stores → Type 0
Answered s event answer =
    (IsComplete event
      × ((result : EvaluationResult) × (answer.1 ≡ write_json 200 (evaluation result))))
    ⊎ ((v : ValidationError) × (validate (with_schema_version event) ≡ some v)
        × (answer ≡ (s, write_error_with_details 422 "invalid_runtime_event" v.message v.fields)))

ok_response :
    (r : Result EvaluationResult)
    → IsOk r
    → (result : EvaluationResult) × (evaluation_response r ≡ write_json 200 (evaluation result))
unfolding evaluation_response
ok_response (ok result) h = (result, refl)
ok_response (err e) h = absurd h

module _ {B : Type 0} (codec : Codec B) ⦃order : Iteration⦄ ⦃folding : Folding⦄
    (keys : ApiKeyConfig) (ttl : ℤ) (key : Option ApiKey) (at : Moments)
    (calm : IsCalm at.evaluation) where
  -- The answer to POST /v1/evaluate, where the body is an event of a tenant that the caller may use
  -- and no call is cancelled: 200 with a result for a valid event, 422 with the failed checks for any
  -- other.
  pub evaluate-Answered :
      (r : Request B) (s : Stores) (event : RuntimeEvent)
      → codec.event r.body ≡ ok event
      → authorize_tenant keys key event.tenant_id ≡ true
      → Answered s event (evaluate codec (memory_handler keys ttl) key at r s)
  unfolding evaluate evaluate_event evaluation_response is_invalid_runtime_event as_validation
  evaluate-Answered r s event decoded allowed = elim (normalize-cases event) [
    | inl valid ↦
        let complete = IsComplete-of_normalize event (with_schema_version event) valid in
        let answered = evaluate_event-IsOk ttl at.evaluation calm event s complete in
        inl (complete, rw (decoded, allowed) (ok_response _ answered))
    | inr (v, found, invalid) ↦ inr (v, found, rw (decoded, allowed, invalid) refl)
  ]
