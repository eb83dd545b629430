-- ===== src/Http/Approvals.antt =====
-- The handlers of internal/transport/httpapi/handler.go for approval requests.
use agent_secyrity.Prelude.{String, Option, none, some, List, if◌then◌else◌}
use agent_secyrity.Prelude.Int.{pos}
use agent_secyrity.Domain.{ApprovalRequest}
use agent_secyrity.Domain.Errors.{is_approval_not_found, is_approval_conflict, Result, ok, err}
use agent_secyrity.Interfaces.{ApprovalStore}
use agent_secyrity.Approval.{DecisionInput}
use agent_secyrity.Auth.{ApiKey}
use agent_secyrity.Http.{
  Request, Codec, Moments, DecisionPayload, text, error_text, approval, approvals, Response,
  write_json, write_error, Handler, Answer, guarded,
}

abbrev pub approval_store_disabled : Response
approval_store_disabled =
    write_error 501 "approval_store_disabled" (text "approval store is not configured")

abbrev pub found : Result ApprovalRequest → Response
found (ok request) = write_json 200 (approval request)
found (err e) =
    write_error (if is_approval_not_found e then 404 else 500) "approval_get_failed" (error_text e)

abbrev pub listed : Result (List ApprovalRequest) → Response
listed (ok requests) = write_json 200 (approvals requests)
listed (err e) = write_error 500 "approval_list_failed" (error_text e)

-- The second test of the source overrides the first.
unfoldable pub decision_response : Result ApprovalRequest → Response
decision_response (ok request) = write_json 200 (approval request)
decision_response (err e) =
    write_error
      (if is_approval_conflict e then 409 else if is_approval_not_found e then 404 else 500)
      "approval_decide_failed" (error_text e)

abbrev pub input_of : DecisionPayload → DecisionInput
input_of p = record {
  status = p.decision;
  decided_by = p.decided_by;
  reason = p.reason;
  now = pos 0;
}

module _ {S B : Type 0} (codec : Codec B) (h : Handler S) (key : Option ApiKey) (at : Moments) where
  -- The handlers start alike: a store is configured, and the key may use the tenant.
  abbrev pub with_approvals : String → S → (ApprovalStore S → Answer S) → Answer S
  with_approvals tenant_id s rest = elim h.approval_store [
    | none ↦ (s, approval_store_disabled)
    | some store ↦ guarded h key tenant_id s (rest store)
  ]

  unfoldable pub list_approvals : String → S → Answer S
  list_approvals tenant_id s =
      with_approvals tenant_id s λ store. (s, listed (store.list at.first tenant_id (pos 100) s))

  unfoldable pub get_approval : String → String → S → Answer S
  get_approval tenant_id approval_id s =
      with_approvals tenant_id s λ store. (s, found (store.get at.first tenant_id approval_id s))

  abbrev pub decided : S × Result ApprovalRequest → Answer S
  decided (s, result) = (s, decision_response result)

  abbrev pub decide_decoded :
      ApprovalStore S → String → String → S → Result DecisionPayload → Answer S
  decide_decoded store tenant_id approval_id s (err e) =
      (s, write_error 400 "invalid_json" (error_text e))
  decide_decoded store tenant_id approval_id s (ok payload) =
      decided (store.decide at.first at.first_time tenant_id approval_id (input_of payload) s)

  unfoldable pub decide_approval : String → String → Request B → S → Answer S
  decide_approval tenant_id approval_id r s =
      with_approvals tenant_id s
        λ store. decide_decoded store tenant_id approval_id s (codec.decision r.body)
