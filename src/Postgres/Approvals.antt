-- ===== src/Postgres/Approvals.antt =====
-- ApprovalStore of internal/storage/postgres/store.go.
use Prim.Native.String as Text
use agent_secyrity.Prelude.{
  ℕ, String, not, ◌&&◌, ◌||◌, Option, none, some, List, ◌==◌, if◌then◌else◌,
}
use agent_secyrity.Prelude.Int.{ℤ, pos, pos_part, leb_ℤ, ltb_ℤ}
use agent_secyrity.Domain.{
  Time, ApprovalRequest, approval_status_pending, approval_status_approved,
  approval_status_rejected, approval_status_expired, is_zero, after,
}
use agent_secyrity.Domain.Errors.{
  failed, approval_not_found, approval_expired, approval_already_decided, invalid_decision, Result,
  ok, err, ◌>>=◌, Context,
}
use agent_secyrity.Approval.{DecisionInput}
use agent_secyrity.Interfaces.{ApprovalStore}
use agent_secyrity.Postgres.{Json, Database, ApprovalRow, unix_nano, int_text, labelled, scan}

-- the fields that Create fills in
unfoldable pub completed : Time → ApprovalRequest → ApprovalRequest
completed now r = record r {
  id = if r.id == "" then Text.◌++◌ "approval-" (int_text (unix_nano now)) else r.id;
  status = if r.status == "" then approval_status_pending else r.status;
  requested_at = if is_zero r.requested_at then now else r.requested_at;
}

-- the limit of List
abbrev row_limit : ℤ → ℕ
row_limit limit = if leb_ℤ limit (pos 0) || ltb_ℤ (pos 1000) limit then 100 else pos_part limit

module _ {D J : Type 0} (json : Json J) (db : Database D J) where
  -- unmarshalApproval
  unfoldable pub unmarshal_approval : J → Result ApprovalRequest
  unmarshal_approval raw = labelled "unmarshal approval request" (json.unmarshal_request raw)

  abbrev pub approval_row : ApprovalRequest → J → ApprovalRow J
  approval_row r payload = record {
    tenant_id = r.tenant_id;
    id = r.id;
    status = r.status;
    requested_at = r.requested_at;
    expires_at = r.expires_at;
    request = payload;
  }

  abbrev pub created : ApprovalRequest → D × Result (Unit {0}) → D × Result ApprovalRequest
  created r (d, err e) = (d, err e)
  created r (d, ok u) = (d, ok r)

  abbrev pub create_marshalled :
      Context → ApprovalRequest → Result J → D → D × Result ApprovalRequest
  create_marshalled ctx r (err e) d = (d, err e)
  create_marshalled ctx r (ok payload) d =
      created r (db.insert_request ctx (approval_row r payload) d)

  unfoldable pub create : Context → Time → ApprovalRequest → D → D × Result ApprovalRequest
  create ctx now r d =
      if r.tenant_id == ""
      then (d, err (failed "tenant_id is required"))
      else create_marshalled ctx (completed now r)
          (labelled "marshal approval request" (json.marshal_request (completed now r))) d

  abbrev pub scanned_request : Result (Option J) → Result ApprovalRequest
  scanned_request (err e) = err e
  scanned_request (ok none) = err approval_not_found
  scanned_request (ok (some raw)) = unmarshal_approval raw

  unfoldable pub get : Context → String → String → D → Result ApprovalRequest
  get ctx tenant_id approval_id d = scanned_request (db.select_request ctx tenant_id approval_id d)

  unfoldable pub list : Context → String → ℤ → D → Result (List ApprovalRequest)
  list ctx tenant_id limit d =
      db.select_requests ctx tenant_id (row_limit limit) d >>= scan unmarshal_approval

  -- what Decide returns once its write is made
  abbrev pub after_write :
      Result ApprovalRequest → D × Result ApprovalRequest → D × Result ApprovalRequest
  after_write result (d, err e) = (d, err e)
  after_write result (d, ok r) = (d, result)

  abbrev pub decided : DecisionInput → Time → ApprovalRequest → ApprovalRequest
  decided input now r = record r {
    status = input.status;
    decided_at = now;
    decided_by = input.decided_by;
    decision_reason = input.reason;
  }

  -- from the status of the request on; `clock` is what Create reads
  abbrev pub decide_at :
      Context → Time → DecisionInput → Time → ApprovalRequest → D → D × Result ApprovalRequest
  decide_at ctx clock input now r d =
      if not (r.status == approval_status_pending)
      then (d, err approval_already_decided)
      else if not (is_zero r.expires_at) && after now r.expires_at
      then after_write (err approval_expired)
          (create ctx clock (record r { status = approval_status_expired }) d)
      else after_write (ok (decided input now r)) (create ctx clock (decided input now r) d)

  abbrev pub decide_found :
      Context → Time → DecisionInput → D → Result ApprovalRequest → D × Result ApprovalRequest
  decide_found ctx clock input d (err e) = (d, err e)
  decide_found ctx clock input d (ok r) =
      if not (input.status == approval_status_approved)
        && not (input.status == approval_status_rejected)
      then (d, err invalid_decision)
      else decide_at ctx clock input (if is_zero input.now then clock else input.now) r d

  unfoldable pub decide :
      Context → Time → String → String → DecisionInput → D → D × Result ApprovalRequest
  decide ctx clock tenant_id approval_id input d =
      decide_found ctx clock input d (get ctx tenant_id approval_id d)

  -- ApprovalStore as an approval.Store
  abbrev pub approval_store : ApprovalStore D
  approval_store = record { create = create; get = get; list = list; decide = decide }
