-- ===== src/Domain/Errors.antt =====
-- The errors that the components return, and errors.Is on them. `fmt.Errorf("…: %w", err)` is
-- `wrapped`, without %w it is `failed`; the errors of ctx.Err() are `context_done`.
use agent_secyrity.Prelude.{
  ◌≡◌, ◌⊎◌, inl, inr, refl, String, Bool, true, false, Option, none, some, List,
}
use agent_secyrity.Domain.{EventType}

-- A message; the one that `fmt.Sprintf("event_type %q is unsupported", …)` makes keeps its
-- argument unquoted.
pub data Message : Type 0 where
  text : String → Message
  event_type_unsupported : EventType → Message

pub record FieldError : Type 0 where
  pub field : String
  pub code : String
  pub message : Message

pub record ValidationError : Type 0 where
  pub message : String
  pub fields : List FieldError

pub data Error : Type 0 where
  context_done : Error
  tenant_id_required : Error
  policy_pack_id_required : Error
  policy_pack_not_found : Error
  approval_not_found : Error
  approval_expired : Error
  approval_already_decided : Error
  invalid_decision : Error
  validation : ValidationError → Error
  runtime_event_error : Error → Error
  wrapped : String → Error → Error
  unauthorized : Error
  failed : String → Error

-- A result with an error, `(value, error)` in Go.
pub data Result {ℓ} (A : Type ℓ) : Type ℓ where
  ok : A → Result A
  err : Error → Result A

infixl 5 ◌>>=◌
abbrev pub ◌>>=◌ {ℓ κ} : {A : Type ℓ} {B : Type κ} → Result A → (A → Result B) → Result B
ok a >>= f = f a
err e >>= f = err e

pub Result-cases {ℓ} :
    {A : Type ℓ} (r : Result A) → ((a : A) × (r ≡ ok a)) ⊎ ((e : Error) × (r ≡ err e))
Result-cases (ok a) = inl (a, refl)
Result-cases (err e) = inr (e, refl)

-- errors.Is(err, ErrInvalidRuntimeEvent): RuntimeEventError.Is, and Unwrap down the chain
unfoldable pub is_invalid_runtime_event : Error → Bool
is_invalid_runtime_event (runtime_event_error e) = true
is_invalid_runtime_event (wrapped s e) = is_invalid_runtime_event e
is_invalid_runtime_event _ = false

-- errors.Is(err, policypack.ErrNotFound)
unfoldable pub is_policy_pack_not_found : Error → Bool
is_policy_pack_not_found policy_pack_not_found = true
is_policy_pack_not_found (runtime_event_error e) = is_policy_pack_not_found e
is_policy_pack_not_found (wrapped s e) = is_policy_pack_not_found e
is_policy_pack_not_found _ = false

-- errors.Is(err, approval.ErrNotFound)
unfoldable pub is_approval_not_found : Error → Bool
is_approval_not_found approval_not_found = true
is_approval_not_found (runtime_event_error e) = is_approval_not_found e
is_approval_not_found (wrapped s e) = is_approval_not_found e
is_approval_not_found _ = false

-- errors.Is(err, e) for one of ErrApprovalExpired, ErrApprovalAlreadyDecided and ErrInvalidDecision
unfoldable pub is_approval_conflict : Error → Bool
is_approval_conflict approval_expired = true
is_approval_conflict approval_already_decided = true
is_approval_conflict invalid_decision = true
is_approval_conflict (runtime_event_error e) = is_approval_conflict e
is_approval_conflict (wrapped s e) = is_approval_conflict e
is_approval_conflict _ = false

-- errors.As(err, &validationErr), for a *ValidationError
unfoldable pub as_validation : Error → Option ValidationError
as_validation (validation v) = some v
as_validation (runtime_event_error e) = as_validation e
as_validation (wrapped s e) = as_validation e
as_validation _ = none

-- What ctx.Err() answers when a store asks: nothing, or the error of a cancelled context.
abbrev pub Context : Type 0
Context = Option Error

abbrev pub background : Context
background = none
