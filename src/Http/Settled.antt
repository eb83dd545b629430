-- ===== src/Http/Settled.antt =====
-- What requests to the server over the in-memory stores do to the approval requests.
use mathlib.Core.Path.{subst}
use agent_secyrity.Prelude.{
  ℕ, ◌+◌, ◌≤◌, ◌≡◌, refl, sym, ap, ◌∙◌, inl, inr, String, List, [], ◌∷◌, ◌++◌, ◌==◌, length, arith,
  All, Bool-cases,
}
use agent_secyrity.Prelude.Members.{All-append}
use agent_secyrity.Prelude.Int.{ℤ}
use agent_secyrity.Strings.{Folding}
use agent_secyrity.Maps.{Iteration}
use agent_secyrity.Keys.{HasNoNul}
use agent_secyrity.Domain.{
  Time, RuntimeEvent, EvaluationResult, ApprovalRequest, AuditRecord, decision_require_approval,
}
use agent_secyrity.Domain.Event.{with_schema_version}
use agent_secyrity.Domain.Event.Laws.{normalize-cases}
use agent_secyrity.Domain.Errors.{Result, ok, err, Context}
use agent_secyrity.Approval.{MemoryStore, DecisionInput, decide}
use agent_secyrity.Approval.History.{Operation, ask, settle, step, run, IsOrdinary}
use agent_secyrity.Policy.Engine.{Engine, evaluate}
use agent_secyrity.Runtime.{
  Readings, stamped, approval_request, audited, append_audit, choose_engine, requested, conclude,
  with_engine, evaluate_normal, evaluate_event,
}
use agent_secyrity.Runtime.Preserved.{arrived-tenant}
use agent_secyrity.Runtime.Memory.{Stores, memory_service, audit_store}

-- At most `n` calls of Create and Decide, and Create as the service calls it.
pub record Changed (n : ℕ) (before after : MemoryStore) : Type 0 where
  pub calls : List Operation
  pub ordinary : All IsOrdinary calls
  pub few : length calls ≤ n
  pub result : after ≡ run calls before

pub Changed-same : (n : ℕ) (s : MemoryStore) → Changed n s s
unfolding run
Changed-same n s = record { calls = []; ordinary = tt; few = omega arith; result = refl }

Changed-one : (o : Operation) (s s' : MemoryStore) → IsOrdinary o → s' ≡ step o s → Changed 1 s s'
unfolding run
Changed-one o s s' h e = record {
  calls = o ∷ [];
  ordinary = (h, tt);
  few = omega arith;
  result = e;
}

run-append : (os ps : List Operation) (s : MemoryStore) → run (os ++ ps) s ≡ run ps (run os s)
unfolding run
run-append [] ps s = refl
run-append (o ∷ os) ps s = run-append os ps (step o s)

length-append : (os ps : List Operation) → length (os ++ ps) ≡ length os + length ps
length-append [] ps = omega arith
length-append (o ∷ os) ps = (let rest = length-append os ps in omega arith)

pub Changed-trans :
    (m n : ℕ) (s s' s'' : MemoryStore) → Changed m s s' → Changed n s' s'' → Changed (m + n) s s''
Changed-trans m n s s' s'' c d = record {
  calls = c.calls ++ d.calls;
  ordinary = All-append IsOrdinary c.calls d.calls c.ordinary d.ordinary;
  few = omega (arith, length-append c.calls d.calls, c.few, d.few);
  result = d.result ∙ ap (run d.calls) c.result ∙ sym (run-append c.calls d.calls s);
}

append_audit-approvals :
    (at : Readings) (event : RuntimeEvent) (result : EvaluationResult) (s : Stores)
    → (append_audit audit_store at event result s).0.approvals ≡ s.approvals
unfolding append_audit
append_audit-approvals at event result s = go _
  where
    go : (p : Stores × Result AuditRecord) → (audited result p).0.approvals ≡ p.0.approvals
    go (s', ok r) = refl
    go (s', err e) = refl

requested-approvals :
    (at : Readings) (event : RuntimeEvent) (result : EvaluationResult)
    (p : Stores × Result ApprovalRequest)
    → (requested audit_store at event result p).0.approvals ≡ p.0.approvals
requested-approvals at event result (s, ok r) = append_audit-approvals at event _ s
requested-approvals at event result (s, err e) = refl

module _ ⦃order : Iteration⦄ (ttl : ℤ) (at : Readings) where
  unchanged_by_audit :
      (event : RuntimeEvent) (result : EvaluationResult) (s : Stores)
      → Changed 1 s.approvals (append_audit audit_store at event result s).0.approvals
  unchanged_by_audit event result s =
      rw (append_audit-approvals at event result s) (Changed-same 1 s.approvals)

  conclude-Changed :
      (event : RuntimeEvent) (result : EvaluationResult) (s : Stores)
      → HasNoNul event.tenant_id
      → Changed 1 s.approvals (conclude (memory_service ttl) at event result s).0.approvals
  unfolding conclude approval_request step
  conclude-Changed event result s plain =
      elim (Bool-cases (result.decision == decision_require_approval)) [
        | inl asks ↦
            let request = approval_request ttl at.expiry_base event result in
            rw asks (
              Changed-one (ask at.creating at.created request) s.approvals _ (refl, plain)
                (requested-approvals at event result _))
        | inr settled ↦ rw settled (unchanged_by_audit event result s)
      ]

  module _ ⦃folding : Folding⦄ where
    evaluate_normal-Changed :
        (event : RuntimeEvent) (s : Stores)
        → HasNoNul event.tenant_id
        → Changed 1 s.approvals (evaluate_normal (memory_service ttl) at event s).0.approvals
    unfolding evaluate_normal
    evaluate_normal-Changed event s plain = elim (Bool-cases (event.approval_id == "")) [
      | inr named ↦ rw named (unchanged_by_audit event _ s)
      | inl unnamed ↦
          rw unnamed (chosen (choose_engine (memory_service ttl) at.listing event.tenant_id s))
    ]
      where
        chosen :
            (engine : Result Engine)
            → Changed 1 s.approvals (with_engine (memory_service ttl) at event s engine).0.approvals
        chosen (ok engine) = conclude-Changed event (evaluate engine event) s plain
        chosen (err e) = Changed-same 1 s.approvals

    -- An evaluation makes at most one request for approval.
    pub evaluate_event-Changed :
        (event : RuntimeEvent) (s : Stores)
        → HasNoNul event.tenant_id
        → Changed 1 s.approvals (evaluate_event (memory_service ttl) at event s).0.approvals
    unfolding evaluate_event
    evaluate_event-Changed event s plain = elim (normalize-cases event) [
      | inr (v, found, invalid) ↦ rw invalid (Changed-same 1 s.approvals)
      | inl valid ↦ rw valid (
          evaluate_normal-Changed (stamped at.received (with_schema_version event)) s
            (subst HasNoNul (sym (arrived-tenant at.received event)) plain))
    ]

-- A decision of the API is one call of Decide.
pub Changed-decide :
    (ctx : Context) (clock : Time) (t id : String) (input : DecisionInput) (s : MemoryStore)
    → Changed 1 s (decide ctx clock t id input s).0
unfolding step
Changed-decide ctx clock t id input s =
    Changed-one
      (settle (record { ctx = ctx; clock = clock; tenant_id = t; approval_id = id; input = input }))
      s _ tt refl
