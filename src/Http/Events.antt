-- ===== src/Http/Events.antt =====
-- The handlers of internal/transport/httpapi/handler.go for events: healthz, evaluate,
-- listAuditEvents and simulatePolicyPack.
use agent_secyrity.Prelude.{
  String, not, Option, none, some, List, ◌==◌, is_empty, length, if◌then◌else◌,
}
use agent_secyrity.Prelude.Int.{pos, ◌+ℤ◌, wrap64}
use agent_secyrity.Strings.{Folding}
use agent_secyrity.Domain.{RuntimeEvent, EvaluationResult, AuditRecord}
use agent_secyrity.Domain.Errors.{
  Error, ValidationError, is_invalid_runtime_event, as_validation, Result, ok, err,
}
use agent_secyrity.Policy.Simulation.{SimulationRequest, SimulationResult, simulate}
use agent_secyrity.Audit.{ListOptions, normalize}
use agent_secyrity.Auth.{ApiKey, is_enabled}
use agent_secyrity.Runtime.{evaluate_event}
use agent_secyrity.Http.{
  Request, Codec, Moments, text, error_text, healthy, evaluation, audit_events, simulation,
  Response, write_json, write_error, write_error_with_details, Handler, Answer, guarded,
}
use agent_secyrity.Http.Query.{parse_audit_list_options}

abbrev pub healthz : Response
healthz = write_json 200 healthy

-- the error of an evaluation, with the fields of a ValidationError
abbrev pub evaluation_refused : Error → Option ValidationError → Response
evaluation_refused e (some v) =
    if is_invalid_runtime_event e
    then write_error_with_details 422 "invalid_runtime_event" v.message v.fields
    else write_error_with_details 500 "evaluation_failed" v.message v.fields
evaluation_refused e none =
    if is_invalid_runtime_event e
    then write_error 422 "invalid_runtime_event" (error_text e)
    else write_error 500 "evaluation_failed" (error_text e)

unfoldable pub evaluation_response : Result EvaluationResult → Response
evaluation_response (ok result) = write_json 200 (evaluation result)
evaluation_response (err e) = evaluation_refused e (as_validation e)

abbrev simulation_refused : Error → Option ValidationError → Response
simulation_refused e (some v) =
    write_error_with_details 422 "invalid_runtime_event" v.message v.fields
simulation_refused e none = write_error 500 "policy_simulation_failed" (error_text e)

unfoldable pub simulation_response : Result SimulationResult → Response
simulation_response (ok result) = write_json 200 (simulation result)
simulation_response (err e) = simulation_refused e (as_validation e)

-- nextPageOpts; the sum is one of int
unfoldable pub next_page : ListOptions → ListOptions
next_page o = record o { limit = pos 1; offset = wrap64 (o.offset +ℤ o.limit) }

abbrev audit_list_failed : Error → Response
audit_list_failed e = write_error 500 "audit_list_failed" (error_text e)

-- the page, and whether the page after it has a record
unfoldable pub audit_page :
    ListOptions → Result (List AuditRecord) → Result (List AuditRecord) → Response
audit_page o (err e) next = audit_list_failed e
audit_page o (ok records) (err e) = audit_list_failed e
audit_page o (ok records) (ok next) = write_json 200 (
    audit_events (record {
      events = records;
      pagination = record {
        limit = o.limit;
        offset = o.offset;
        count = length records;
        has_more = not (is_empty next);
      };
    }))

module _ {S B : Type 0} (codec : Codec B) (h : Handler S) (key : Option ApiKey) (at : Moments) where
  abbrev pub listed : ListOptions → S → Response
  listed o s =
      audit_page (normalize o) (h.store.list at.first (normalize o) s)
        (h.store.list at.second (next_page (normalize o)) s)

  abbrev pub list_checked : S → Result ListOptions → Answer S
  list_checked s (err e) = (s, write_error 400 "invalid_audit_query" (error_text e))
  list_checked s (ok o) =
      if not (is_enabled h.api_keys)
      then (s, listed o s)
      else if o.tenant_id == ""
      then (
        s,
        write_error 400 "tenant_id_required"
            (text "tenant_id query parameter is required when API key authentication is enabled"),
      )
      else guarded h key o.tenant_id s (s, listed o s)

  unfoldable pub list_audit_events : Request B → S → Answer S
  list_audit_events r s = list_checked s (parse_audit_list_options r.query)

  module _ ⦃folding : Folding⦄ where
    abbrev pub evaluated : S × Result EvaluationResult → Answer S
    evaluated (s, result) = (s, evaluation_response result)

    abbrev pub evaluate_decoded : S → Result RuntimeEvent → Answer S
    evaluate_decoded s (err e) = (s, write_error 400 "invalid_json" (error_text e))
    evaluate_decoded s (ok event) =
        guarded h key event.tenant_id s (evaluated (evaluate_event h.service at.evaluation event s))

    unfoldable pub evaluate : Request B → S → Answer S
    evaluate r s = evaluate_decoded s (codec.event r.body)

    abbrev pub simulate_decoded : String → S → Result SimulationRequest → Answer S
    simulate_decoded tenant_id s (err e) = (s, write_error 400 "invalid_json" (error_text e))
    simulate_decoded tenant_id s (ok request) =
        if not (request.event.tenant_id == tenant_id)
        then (
          s,
          write_error 403 "forbidden" (text "simulation event tenant_id must match path tenant_id"),
        )
        else (s, simulation_response (simulate request))

    unfoldable pub simulate_policy_pack : String → Request B → S → Answer S
    simulate_policy_pack tenant_id r s =
        guarded h key tenant_id s (simulate_decoded tenant_id s (codec.simulation r.body))
