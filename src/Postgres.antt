-- ===== src/Postgres.antt =====
-- internal/storage/postgres/store.go: the stores on PostgreSQL. The database and encoding/json are
-- parameters: a statement of the source is an operation of `Database`, on a state `D` and with JSON
-- documents `J`; the text of the audit query, which is put together at run time, is an argument. A
-- method reads the context and the clock once here.
pub mod Packs
pub mod Audits
pub mod Approvals
pub mod Query
pub mod Reads
pub mod Decides
pub mod Tables
pub mod Writes
pub mod Enabled
pub mod Service
pub mod Opening
use Prim.Native.String as Text
use agent_secyrity.Prelude.{ℕ, suc, ◌+◌, ◌-◌, ◌*◌, ◌^◌, String, Bool, Option, List, [], ◌∷◌}
use agent_secyrity.Prelude.Int.{ℤ, pos, negsuc, ◌+ℤ◌, wrap64}
use agent_secyrity.Decimal.{decimal}
use agent_secyrity.Domain.{Time, PolicyPack, ApprovalRequest, AuditRecord}
use agent_secyrity.Domain.Errors.{wrapped, Result, ok, err, ◌>>=◌, Context}

-- json.Marshal and json.Unmarshal
pub record Json (J : Type 0) : Type 0 where
  pub marshal_pack : PolicyPack → Result J
  pub unmarshal_pack : J → Result PolicyPack
  pub marshal_record : AuditRecord → Result J
  pub unmarshal_record : J → Result AuditRecord
  pub marshal_request : ApprovalRequest → Result J
  pub unmarshal_request : J → Result ApprovalRequest

-- The arguments of the three INSERT statements.
pub record PackRow (J : Type 0) : Type 0 where
  pub tenant_id : String
  pub id : String
  pub version : String
  pub enabled : Bool
  pub pack : J
  pub updated_at : Time

pub record AuditRow (J : Type 0) : Type 0 where
  pub id : String
  pub tenant_id : String
  pub recorded_at : Time
  pub event_type : String
  pub decision : String
  pub audit_record : J

pub record ApprovalRow (J : Type 0) : Type 0 where
  pub tenant_id : String
  pub id : String
  pub status : String
  pub requested_at : Time
  pub expires_at : Time
  pub request : J

-- an argument of the audit query
pub data Argument : Type 0 where
  word : String → Argument
  number : ℤ → Argument

-- The statements; a query of one row answers none for sql.ErrNoRows.
pub record Database (D J : Type 0) : Type 0 where
  pub insert_pack : Context → PackRow J → D → D × Result (Unit {0})
  pub select_pack : Context → String → String → D → Result (Option J)
  pub select_packs : Context → String → D → Result (List J)
  pub select_enabled_packs : Context → String → D → Result (List J)
  pub insert_record : Context → AuditRow J → D → D × Result (Unit {0})
  pub select_records : Context → String → List Argument → D → Result (List J)
  pub insert_request : Context → ApprovalRow J → D → D × Result (Unit {0})
  pub select_request : Context → String → String → D → Result (Option J)
  pub select_requests : Context → String → ℕ → D → Result (List J)

-- t.UnixNano(): the nanoseconds from 1970, in int64
unfoldable pub unix_nano : Time → ℤ
unix_nano t = wrap64 (t +ℤ negsuc (62135596800 * 10 ^ 9 - 1))

-- the %d of an int64
unfoldable pub int_text : ℤ → String
int_text (pos n) = decimal n
int_text (negsuc n) = Text.◌++◌ "-" (decimal (suc n))

-- `fmt.Errorf("<label>: %w", err)`
abbrev pub labelled : {A : Type 0} → String → Result A → Result A
labelled label (ok a) = ok a
labelled label (err e) = err (wrapped label e)

-- scanPacks, scanAuditRecords and the loop of List over the approval requests
unfoldable pub scan : {J A : Type 0} → (J → Result A) → List J → Result (List A)
scan unmarshal [] = ok []
scan unmarshal (raw ∷ rows) =
    let rest = scan unmarshal rows in unmarshal raw >>= λ a. rest >>= λ more. ok (a ∷ more)
