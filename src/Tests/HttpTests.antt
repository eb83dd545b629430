-- ===== src/Tests/HttpTests.antt =====
-- The router over the in-memory stores at concrete requests.
use agent_secyrity.Prelude.{
  ◌≡◌, inl, inr, refl, String, none, some, [], ◌∷◌, ◌==◌, arith, if◌then◌else◌,
}
use agent_secyrity.Prelude.Int.{pos}
use agent_secyrity.Domain.Event.Laws.{IsComplete, IsComplete-of_normalize}
use agent_secyrity.Domain.Errors.{ok}
use agent_secyrity.Audit as Audits
use agent_secyrity.Auth.{
  is_enabled, authenticate, authenticate_request, find_key, constant_time_string_equal,
}
use agent_secyrity.Runtime.{evaluate_event}
use agent_secyrity.Runtime.Memory.{Stores, memory_service}
use agent_secyrity.Runtime.Total.{IsOk, evaluate_event-IsOk}
use agent_secyrity.Http.{healthy, write_json, Request, Answer, authorize_tenant}
use mathlib.Core.Path.{subst}
use agent_secyrity.Keys.{HasNoNul}
use agent_secyrity.Strings.{trim_space, is_blank, split, cut, fold_rune, equal_fold}
use agent_secyrity.Server.{Environment, memory_stores, new_stores, start}
use agent_secyrity.Approval as Approvals
use agent_secyrity.Approval.Fresh.{IsValid}
use agent_secyrity.Http.Finality.{no_requests, one_more, Requests-keep_settled}
use agent_secyrity.Tests.ApprovalTests.{
  approved, settled_request, approved_is_found, approved_is_settled, approved-IsValid,
  approved_counter,
}
use agent_secyrity.Http.Confined.{Shown}
use agent_secyrity.Http.Confined.Runs.{started, served, Served-Shown}
use agent_secyrity.Http.Query.{
  number_parameter, word_parameter, valid_decision, parse_audit_list_options,
}
use agent_secyrity.Http.Options.{
  IsReadable, query_of, parse_audit_list_options-IsReadable, parse_audit_list_options-query_of,
}
use agent_secyrity.Http.Events.{evaluate, list_audit_events}
use agent_secyrity.Http.Evaluation.{Answered, evaluate-Answered}
use agent_secyrity.Http.Paging.{page_answer, audit_events-answer}
use agent_secyrity.Http.Router.{Route, evaluation, audit, candidates, find_route, serve}
use agent_secyrity.Http.Access.{IsHealthCheck, IsPlain, Access, tenant_of, serve-Access}
use agent_secyrity.Http.Memory.{memory_handler}
use agent_secyrity.Tests.Fixtures.{ascii, in_order, shell_event}
use agent_secyrity.Tests.RuntimeTests.{calm, denying, normal_event, normal}
use agent_secyrity.Tests.AuthTests.{config, dev}
use agent_secyrity.Tests.Wires.{Body, codec, moments, no_body, posted}

serve-Access_example :
    (IsHealthCheck (posted "Bearer s2")
      → serve codec (memory_handler config (pos 0)) moments (posted "Bearer s2") denying
        ≡ (denying, write_json 200 healthy))
    × (¬ IsHealthCheck (posted "Bearer s2")
        → Access codec
            (memory_handler config (pos 0))
            moments
            (posted "Bearer s2")
            denying
            (serve codec (memory_handler config (pos 0)) moments (posted "Bearer s2") denying))
unfolding is_enabled
serve-Access_example =
    serve-Access codec (memory_handler config (pos 0)) moments (posted "Bearer s2") denying refl

shell_event-IsComplete : IsComplete shell_event
shell_event-IsComplete = IsComplete-of_normalize shell_event normal_event normal

evaluate_event-IsOk_example :
    IsOk (evaluate_event (memory_service (pos 0)) calm shell_event denying).1
evaluate_event-IsOk_example =
    evaluate_event-IsOk (pos 0) calm (record { listing = refl; creating = refl; appending = refl })
      shell_event denying shell_event-IsComplete

evaluate-Answered_example : Answered denying shell_event (
    evaluate codec (memory_handler (record { keys = [] }) (pos 0)) none moments (posted "") denying)
unfolding authorize_tenant is_enabled
evaluate-Answered_example =
    evaluate-Answered codec (record { keys = [] }) (pos 0) none moments
      (record { listing = refl; creating = refl; appending = refl }) (posted "") denying shell_event
      refl refl

abbrev query : String → String
query name = if name == "tenant_id" then "tenant-a" else ""

abbrev asked : Request Body
asked = record (posted "") { method = "GET"; query = query; body = no_body }

abbrev tenant_options : Audits.ListOptions
tenant_options = record {
  limit = pos 0;
  offset = pos 0;
  tenant_id = "tenant-a";
  agent_id = "";
  user_id = "";
  task_id = "";
  decision = "";
  event_type = "";
}

parse_audit_list_options-IsReadable_example :
    IsReadable tenant_options
    × ("tenant-a" ≡ query "tenant_id")
    × ("" ≡ query "agent_id")
    × ("" ≡ query "user_id")
    × ("" ≡ query "task_id")
unfolding parse_audit_list_options number_parameter word_parameter
parse_audit_list_options-IsReadable_example =
    parse_audit_list_options-IsReadable query tenant_options refl

-- The second page of the denials.
abbrev denials : Audits.ListOptions
denials = record tenant_options { limit = pos 25; offset = pos 25; decision = "deny" }

denials-IsReadable : IsReadable denials
unfolding valid_decision
denials-IsReadable = record {
  limit = (omega arith, omega arith);
  offset = (omega arith, omega arith);
  decision = inr refl;
  event_type = inl refl;
}

parse_audit_list_options-query_of_example : parse_audit_list_options (query_of denials) ≡ ok denials
parse_audit_list_options-query_of_example =
    parse_audit_list_options-query_of denials denials-IsReadable

audit_events-answer_example :
    list_audit_events codec
      (memory_handler (record { keys = [] }) (pos 0))
      none
      moments
      asked
      denying
    ≡ (denying, page_answer (Audits.normalize tenant_options) denying.audits)
unfolding parse_audit_list_options number_parameter word_parameter is_enabled
audit_events-answer_example =
    audit_events-answer codec (record { keys = [] }) (pos 0) none moments asked denying
      tenant_options refl (inl refl) refl refl

abbrev with_keys : Stores → Answer Stores
with_keys s = serve codec (memory_handler config (pos 0)) moments (posted "Bearer s2") s

-- GET /v1/audit/events?tenant_id=tenant-a
abbrev listing : Request Body
listing = record {
  method = "GET";
  path = "v1" ∷ "audit" ∷ "events" ∷ [];
  authorization = "Bearer s2";
  query = query;
  body = no_body;
}

IsPlain-of :
    (q : Request Body) (route : Route)
    → find_route q.method q.path ≡ some route
    → ((t : String)
        → tenant_of codec (memory_handler config (pos 0)) moments route q ≡ some t
        → HasNoNul t)
    → IsPlain codec (memory_handler config (pos 0)) moments q
IsPlain-of q route found plain other t found' about =
    let same : other ≡ route = cc (found, found') in
    plain t
      (subst (λ x. tenant_of codec (memory_handler config (pos 0)) moments x q ≡ some t) same about)

posted-IsPlain : IsPlain codec (memory_handler config (pos 0)) moments (posted "Bearer s2")
unfolding find_route candidates
posted-IsPlain =
    IsPlain-of (posted "Bearer s2") evaluation refl
      λ t about. let same : "tenant-a" ≡ t = cc about in subst HasNoNul same (omega arith)

listing-IsPlain : IsPlain codec (memory_handler config (pos 0)) moments listing
unfolding find_route candidates
listing-IsPlain =
    IsPlain-of listing audit refl
      λ t about. let same : "tenant-a" ≡ t = cc about in subst HasNoNul same (omega arith)

known : authenticate_request config "Bearer s2" ≡ ok dev
unfolding authenticate_request authenticate find_key constant_time_string_equal is_blank trim_space
    equal_fold cut split fold_rune
known = refl

abbrev environment : Environment
environment name = ""

-- The stores of main when it begins to listen, with the packs of the tenant "default".
abbrev at_start : Stores
at_start = (start environment memory_stores (pos 1) new_stores).0

Served-Shown_example :
    Shown dev
      (serve codec (memory_handler config (pos 0)) moments listing (with_keys at_start).0).1.payload
unfolding is_enabled
Served-Shown_example =
    Served-Shown codec config (pos 0) moments listing (with_keys at_start).0 dev refl
      (served at_start moments (posted "Bearer s2") (started environment (pos 1)) posted-IsPlain)
      listing-IsPlain known

abbrev approved_stores : Stores
approved_stores = record denying { approvals = approved }

approved_found : Approvals.get none "tenant-a" "approval-1" approved ≡ ok settled_request
unfolding Approvals.get
approved_found = rw approved_is_found refl

Requests-keep_settled_example :
    (Approvals.get none "tenant-a" "approval-1" (with_keys approved_stores).0.approvals
      ≡ ok settled_request)
    × IsValid (with_keys approved_stores).0.approvals
Requests-keep_settled_example =
    Requests-keep_settled codec config (pos 0) 1 approved_stores (with_keys approved_stores).0
      "tenant-a" "approval-1" settled_request
      (one_more 0 approved_stores approved_stores moments (posted "Bearer s2")
        (no_requests approved_stores) posted-IsPlain)
      approved-IsValid (omega (arith, approved_counter)) approved_found approved_is_settled
