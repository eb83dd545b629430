-- ===== src/Runtime/Life.antt =====
-- The service over the in-memory stores: from an event that needs an approval to its release.
use agent_secyrity.Maps.{Iteration, lookup}
use agent_secyrity.Prelude.{
  String, some, ◌+◌, ◌^◌, ◌<◌, ◌≡◌, ◌≢◌, refl, true, none, ◌==◌, arith, eq_iff,
}
use agent_secyrity.Prelude.Int.{ℤ, ◌+ℤ◌}
use agent_secyrity.Strings.{Folding}
use agent_secyrity.Keys.{HasNoNul}
use agent_secyrity.Domain.{
  RuntimeEvent, EvaluationResult, ApprovalRequest, decision_require_approval,
  approval_status_pending,
}
use agent_secyrity.Domain.Event.{normalize}
use agent_secyrity.Domain.Errors.{Result, ok, err, approval_not_found}
use agent_secyrity.Policy.Engine.{Engine, evaluate}
use agent_secyrity.Audit.{append}
use agent_secyrity.Approval.{create, completed, get}
use agent_secyrity.Approval.Fresh.{IsValid, create_adds, create_fresh, create-IsValid}
use agent_secyrity.Runtime.{
  Readings, stamped, approval_request, choose_engine, conclude, evaluate_normal, evaluate_event,
  append_audit, effective_ttl,
}
use agent_secyrity.Runtime.Memory.{Stores, memory_service, audit_store}

module _ ⦃order : Iteration⦄ ⦃folding : Folding⦄ (ttl : ℤ) (at : Readings)
    (event normal : RuntimeEvent) (s : Stores) (engine : Engine) where
  -- the event that is evaluated, the engine's result, and the request that is created
  abbrev pub arrived : RuntimeEvent
  arrived = stamped at.received normal

  abbrev pub given : EvaluationResult
  given = evaluate engine arrived

  abbrev pub asked : ApprovalRequest
  asked = completed at.created s.approvals (approval_request ttl at.expiry_base arrived given)

  -- The event is valid and names no approval, and the enabled packs require one.
  pub record NeedsApproval : Type 0 where
    pub is_normal : normalize event ≡ ok normal
    pub unnamed : normal.approval_id ≡ ""
    pub chosen : choose_engine (memory_service ttl) at.listing normal.tenant_id s ≡ ok engine
    pub required : given.decision ≡ decision_require_approval
    pub tenant : normal.tenant_id ≢ ""
    pub no_nul : HasNoNul normal.tenant_id
    pub valid : IsValid s.approvals
    pub room : s.approvals.counter + 1 < 2 ^ 64
    pub not_cancelled : (at.creating ≡ none) × (at.appending ≡ none)

  -- A result with the identifier of a pending request, which replaces none.
  pub record Opened (outcome : Stores × Result EvaluationResult) (result : EvaluationResult)
      : Type 0 where
    pub returned : outcome.1 ≡ ok result
    pub decision : result.decision ≡ decision_require_approval
    pub approval_id : result.approval_id ≡ asked.id
    pub found : get none normal.tenant_id asked.id outcome.0.approvals ≡ ok asked
    pub pending : asked.status ≡ approval_status_pending
    pub for_event : asked.event ≡ arrived
    pub expires_at : asked.expires_at ≡ at.expiry_base +ℤ effective_ttl ttl
    pub packs : outcome.0.packs ≡ s.packs
    pub unknown_before : get none normal.tenant_id asked.id s.approvals ≡ err approval_not_found
    pub others_kept :
        (k : String) (q : ApprovalRequest)
        → lookup k s.approvals.requests ≡ some q
        → lookup k outcome.0.approvals.requests ≡ some q
    pub next_is_new : IsValid outcome.0.approvals

  module _ (needs : NeedsApproval) where
    added :
        let (kept, request) =
          create none at.created (approval_request ttl at.expiry_base arrived given) s.approvals in
        (request ≡ ok asked)
        × (get none normal.tenant_id asked.id kept ≡ ok asked)
        × ((k : String) (q : ApprovalRequest)
            → lookup k s.approvals.requests ≡ some q
            → lookup k kept.requests ≡ some q)
        × IsValid kept
        × (get none normal.tenant_id asked.id s.approvals ≡ err approval_not_found)
    unfolding stamped approval_request get
    added =
        let request = approval_request ttl at.expiry_base arrived given in
        let (returned, found, others) =
          create_adds at.created request s.approvals refl needs.valid needs.room needs.no_nul
            needs.tenant in
        (
          returned,
          found,
          others,
          create-IsValid at.created request s.approvals refl needs.valid needs.room needs.no_nul
              needs.tenant,
          rw
              (create_fresh at.created request s.approvals refl needs.valid needs.room needs.no_nul
                needs.tenant)
              refl,
        )

    evaluate_asks :
        evaluate_event (memory_service ttl) at event s
        ≡ append_audit audit_store at arrived
            (record given { approval_id = asked.id })
            (record s {
              approvals =
                  (create none at.created
                    (approval_request ttl at.expiry_base arrived given)
                    s.approvals).0;
            })
    unfolding evaluate_event evaluate_normal conclude stamped
    evaluate_asks =
        let blank : (normal.approval_id == "") ≡ true =
          ground (arith, eq_iff normal.approval_id "") in
        let asks : (given.decision == decision_require_approval) ≡ true =
          ground (arith, eq_iff given.decision decision_require_approval) in
        rw (needs.is_normal, blank, needs.chosen, asks, needs.not_cancelled.0, added.0) refl

    -- Where no call is cancelled, the event is valid, of a tenant without a NUL character, and names
    -- no approval, the enabled packs require one, every stored request has a generated identifier up
    -- to the counter, and the counter leaves room below 2^64, Evaluate returns that verdict with the
    -- identifier of a request that Get did not find before and finds then: pending, for the event as
    -- it was evaluated, and due the configured time, or 15 minutes, after the clock. Every request
    -- that was stored stays, the packs are as they were, and again every stored request has a
    -- generated identifier up to the counter, so that the next one is new as well.
    pub evaluate_opens :
        (result : EvaluationResult) × Opened (evaluate_event (memory_service ttl) at event s) result
    unfolding append_audit append approval_request completed stamped
    evaluate_opens =
        rw (evaluate_asks, needs.not_cancelled.1)
          (
            _,
            record {
              returned = refl;
              decision = needs.required;
              approval_id = refl;
              found = added.1;
              pending = refl;
              for_event = refl;
              expires_at = refl;
              packs = refl;
              unknown_before = added.4;
              others_kept = added.2;
              next_is_new = added.3;
            },
          )
