-- ===== src/Postgres/Decides.antt =====
-- Decide of the PostgreSQL store beside that of the in-memory store.
use agent_secyrity.Prelude.{
  ◌≡◌, ◌⊎◌, inl, inr, refl, String, Bool, false, not, ◌&&◌, Option, none, some, ◌==◌, arith, eq_iff,
  Bool-cases,
}
use agent_secyrity.Domain.{
  Time, ApprovalRequest, approval_status_pending, approval_status_approved,
  approval_status_rejected, is_zero, after,
}
use agent_secyrity.Domain.Errors.{Result, ok, err, invalid_decision, Context}
use agent_secyrity.Approval.{DecisionInput, decide_request, decision_time}
use agent_secyrity.Postgres.{Json, Database}
use agent_secyrity.Postgres.Approvals.{create, get, after_write, decide_at, decide}

abbrev pub IsDecision : DecisionInput → Type 0
IsDecision input =
    (input.status ≡ approval_status_approved) ⊎ (input.status ≡ approval_status_rejected)

abbrev is_unsupported : DecisionInput → Bool
is_unsupported input =
    not (input.status == approval_status_approved) && not (input.status == approval_status_rejected)

supported : (input : DecisionInput) → IsDecision input → is_unsupported input ≡ false
supported input h = ground (
  arith,
  eq_iff input.status approval_status_approved,
  eq_iff input.status approval_status_rejected,
)

is_decision : (input : DecisionInput) → is_unsupported input ≡ false → IsDecision input
is_decision input h = ground (
  arith,
  eq_iff input.status approval_status_approved,
  eq_iff input.status approval_status_rejected,
)

module _ {D J : Type 0} (json : Json J) (db : Database D J) (ctx : Context) (clock : Time) where
  -- What the in-memory store writes and returns, with the write made by Create.
  abbrev pub write_through :
      Option ApprovalRequest × Result ApprovalRequest → D → D × Result ApprovalRequest
  write_through (none, result) d = (d, result)
  write_through (some r, result) d = after_write json db result (create json db ctx clock r d)

  decide_at_eq :
      (input : DecisionInput) (r : ApprovalRequest) (d : D)
      → decide_at json db ctx clock input (decision_time input clock) r d
        ≡ write_through (decide_request input (decision_time input clock) r) d
  unfolding decide_request
  decide_at_eq input r d =
      let now = decision_time input clock in
      elim (Bool-cases (r.status == approval_status_pending)) [
        | inr settled ↦ rw settled refl
        | inl pending ↦ elim (Bool-cases (not (is_zero r.expires_at) && after now r.expires_at)) [
          | inl late ↦ rw (pending, late) refl
          | inr in_time ↦ rw (pending, in_time) refl
        ]
      ]

  -- On a request that Get finds, Decide on the database refuses a decision that is neither approval
  -- nor rejection, and for any other makes the write, if one, and returns the result that the
  -- in-memory store does, unless the write fails.
  pub decide_eq :
      (tenant_id id : String) (input : DecisionInput) (d : D) (r : ApprovalRequest)
      → get json db ctx tenant_id id d ≡ ok r
      → (IsDecision input
          × (decide json db ctx clock tenant_id id input d
              ≡ write_through (decide_request input (decision_time input clock) r) d))
        ⊎ ((¬ IsDecision input)
            × (decide json db ctx clock tenant_id id input d ≡ (d, err invalid_decision)))
  unfolding decide
  decide_eq tenant_id id input d r found = elim (Bool-cases (is_unsupported input)) [
    | inl bad ↦ inr (λ good. cc (bad, supported input good), rw (found, bad) refl)
    | inr good ↦ inl (is_decision input good, rw (found, good) (decide_at_eq input r d))
  ]
