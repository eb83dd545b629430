-- ===== src/Domain/Event/Laws.antt =====
-- What validation accepts and reports, and what normalising keeps.
use agent_secyrity.Prelude.{
  String, ◌≡◌, refl, ap, ◌↔◌, ◌⊎◌, inl, inr, Bool, true, false, not, ◌&&◌, ◌||◌, List, [], ◌∷◌,
  ◌++◌, none, some, arith, ◌==◌, eq_iff, any, Bool-cases, Option-cases,
}
use agent_secyrity.Strings.{is_blank}
use agent_secyrity.Domain.{RuntimeEvent}
use agent_secyrity.Domain.Errors.{Message, FieldError, ValidationError, validation, ok, err}
use agent_secyrity.Domain.Event.{
  runtime_event_schema_v1, valid, report, invalid_if_any, field_errors, validate, has_field,
  with_schema_version, normalize,
}

-- An event that the platform can evaluate.
pub record IsComplete (e : RuntimeEvent) : Type 0 where
  pub schema_version :
      (is_blank e.schema_version ≡ true) ⊎ (e.schema_version ≡ runtime_event_schema_v1)
  pub tenant_id : is_blank e.tenant_id ≡ false
  pub agent_id : is_blank e.agent_id ≡ false
  pub user_id : is_blank e.user_id ≡ false
  pub task_id : is_blank e.task_id ≡ false
  pub event_type : valid e.event_type ≡ true
  pub action : is_blank e.action ≡ false

known_types_not_blank :
    (is_blank "prompt" ≡ false)
    × (is_blank "tool_call" ≡ false)
    × (is_blank "file_access" ≡ false)
    × (is_blank "network_access" ≡ false)
    × (is_blank "response" ≡ false)
    × (is_blank "approval" ≡ false)
unfolding is_blank
known_types_not_blank = (refl, refl, refl, refl, refl, refl)

is_blank-valid : (t : String) → valid t ≡ true → is_blank t ≡ false
unfolding valid
is_blank-valid t h = ground (
  arith,
  known_types_not_blank,
  eq_iff t "prompt",
  eq_iff t "tool_call",
  eq_iff t "file_access",
  eq_iff t "network_access",
  eq_iff t "response",
  eq_iff t "approval",
)

IsComplete-of_no_errors : (e : RuntimeEvent) → field_errors e ≡ [] → IsComplete e
unfolding field_errors
IsComplete-of_no_errors e h = record {
  schema_version = ground (arith, eq_iff e.schema_version runtime_event_schema_v1);
  tenant_id = ground arith;
  agent_id = ground arith;
  user_id = ground arith;
  task_id = ground arith;
  event_type = ground arith;
  action = ground arith;
}

no_errors_of_complete : (e : RuntimeEvent) → IsComplete e → field_errors e ≡ []
unfolding field_errors
no_errors_of_complete e c =
    ground (arith, eq_iff e.schema_version runtime_event_schema_v1, is_blank-valid e.event_type)

invalid_if_any-eq-none : (fs : List FieldError) → (invalid_if_any fs ≡ none) ↔ (fs ≡ [])
unfolding invalid_if_any
invalid_if_any-eq-none [] = ground arith
invalid_if_any-eq-none (f ∷ fs) = ground arith

-- Validate accepts an event exactly when its identifying fields and its action are not blank, its
-- event type is one of the six known ones, and its schema version is blank or the current one.
pub validate_iff : (e : RuntimeEvent) → (validate e ≡ none) ↔ IsComplete e
unfolding validate
validate_iff e = (
  λ h. IsComplete-of_no_errors e ((invalid_if_any-eq-none (field_errors e)).0 h),
  λ c. (invalid_if_any-eq-none (field_errors e)).1 (no_errors_of_complete e c),
)

any-append :
    {A : Type 0} (p : A → Bool) (xs ys : List A) → any p (xs ++ ys) ≡ (any p xs || any p ys)
any-append p [] ys = refl
any-append p (x ∷ xs) ys = ground (arith, any-append p xs ys)

any-report :
    (p : FieldError → Bool) (failed : Bool) (field code : String) (message : Message)
    → any p (report failed field code message)
      ≡ (failed && p (record { field = field; code = code; message = message }))
any-report p true field code message = ground arith
any-report p false field code message = refl

-- What HasField answers on the errors of an event, for each check that Validate makes.
pub record Reports (e : RuntimeEvent) (v : ValidationError) : Type 0 where
  pub schema_version :
      has_field v "schema_version" "unsupported"
      ≡ (not (is_blank e.schema_version) && not (e.schema_version == runtime_event_schema_v1))
  pub tenant_id : has_field v "tenant_id" "required" ≡ is_blank e.tenant_id
  pub agent_id : has_field v "agent_id" "required" ≡ is_blank e.agent_id
  pub user_id : has_field v "user_id" "required" ≡ is_blank e.user_id
  pub task_id : has_field v "task_id" "required" ≡ is_blank e.task_id
  pub event_type_required : has_field v "event_type" "required" ≡ is_blank e.event_type
  pub action : has_field v "action" "required" ≡ is_blank e.action
  pub event_type_unsupported :
      has_field v "event_type" "unsupported"
      ≡ (not (is_blank e.event_type) && not (valid e.event_type))

fields_of_validate :
    (e : RuntimeEvent) (v : ValidationError) → validate e ≡ some v → v.fields ≡ field_errors e
unfolding validate invalid_if_any
fields_of_validate e v h = go (field_errors e) h
  where
    go : (fs : List FieldError) → invalid_if_any fs ≡ some v → v.fields ≡ fs
    go [] k = ground arith
    go (f ∷ fs) k = ground arith

and-true : (b : Bool) → (b && true) ≡ b
and-true b = ground arith

and-false : (b : Bool) → (b && false) ≡ false
and-false b = ground arith

or-false : (b : Bool) → (b || false) ≡ b
or-false b = ground arith

ruleset report_laws = (any-append, any-report, and-true, and-false, or-false)

-- The errors that Validate returns name each violated check, and no check that holds.
pub validate-Reports : (e : RuntimeEvent) (v : ValidationError) → validate e ≡ some v → Reports e v
unfolding field_errors has_field
validate-Reports e v h = record {
  schema_version = rw (fields_of_validate e v h) (simp report_laws);
  tenant_id = rw (fields_of_validate e v h) (simp report_laws);
  agent_id = rw (fields_of_validate e v h) (simp report_laws);
  user_id = rw (fields_of_validate e v h) (simp report_laws);
  task_id = rw (fields_of_validate e v h) (simp report_laws);
  event_type_required = rw (fields_of_validate e v h) (simp report_laws);
  action = rw (fields_of_validate e v h) (simp report_laws);
  event_type_unsupported = rw (fields_of_validate e v h) (simp report_laws);
}

-- The event with the current schema version.
abbrev pub current : RuntimeEvent → RuntimeEvent
current e = record e { schema_version = runtime_event_schema_v1 }

with_schema_version-eq :
    (e : RuntimeEvent)
    → (is_blank e.schema_version ≡ true) ⊎ (e.schema_version ≡ runtime_event_schema_v1)
    → with_schema_version e ≡ current e
unfolding with_schema_version
with_schema_version-eq e (inl h) = ground arith
with_schema_version-eq e (inr h) = ground arith

with_schema_version-IsComplete :
    (e : RuntimeEvent) → IsComplete (with_schema_version e) ↔ IsComplete e
unfolding with_schema_version
with_schema_version-IsComplete e = elim (Bool-cases (is_blank e.schema_version)) [
  | inl blank ↦ rw blank (
    λ c. record {
      schema_version = inl blank;
      tenant_id = c.tenant_id;
      agent_id = c.agent_id;
      user_id = c.user_id;
      task_id = c.task_id;
      event_type = c.event_type;
      action = c.action;
    },
    λ c. record {
      schema_version = inr refl;
      tenant_id = c.tenant_id;
      agent_id = c.agent_id;
      user_id = c.user_id;
      task_id = c.task_id;
      event_type = c.event_type;
      action = c.action;
    },
  )
  | inr other ↦ rw other (λ c. c, λ c. c)
]

-- A complete event is normalised to itself with the current schema version.
pub normalize-eq-ok : (e : RuntimeEvent) → IsComplete e → normalize e ≡ ok (current e)
unfolding normalize
normalize-eq-ok e c =
    rw
      ((validate_iff (with_schema_version e)).1 ((with_schema_version-IsComplete e).1 c), normalize)
      (ap ok (with_schema_version-eq e c.schema_version))

IsComplete-current : (e : RuntimeEvent) → IsComplete e → IsComplete (current e)
IsComplete-current e c = record {
  schema_version = inr refl;
  tenant_id = c.tenant_id;
  agent_id = c.agent_id;
  user_id = c.user_id;
  task_id = c.task_id;
  event_type = c.event_type;
  action = c.action;
}

-- What Normalize returns follows the answer of Validate.
pub normalize-cases :
    (e : RuntimeEvent)
    → (normalize e ≡ ok (with_schema_version e))
      ⊎ ((v : ValidationError) × (validate (with_schema_version e) ≡ some v)
          × (normalize e ≡ err (validation v)))
unfolding normalize
normalize-cases e = elim (Option-cases (validate (with_schema_version e))) [
  | inl accepted ↦ inl (ground (arith, accepted))
  | inr (v, found) ↦ inr (v, found, ground (arith, found))
]

-- An event that Normalize accepts is complete.
pub IsComplete-of_normalize : (e n : RuntimeEvent) → normalize e ≡ ok n → IsComplete e
unfolding normalize
IsComplete-of_normalize e n h = elim (Option-cases (validate (with_schema_version e))) [
  | inl accepted ↦
      (with_schema_version-IsComplete e).0 ((validate_iff (with_schema_version e)).0 accepted)
  | inr (v, found) ↦ absurd (ground arith)
]

-- Normalize returns an event only for a complete event, and that event is complete, differs from
-- the given one in the schema version alone, and is left as it is by a second Normalize.
pub normalize_sound :
    (e n : RuntimeEvent)
    → normalize e ≡ ok n
    → IsComplete e × (n ≡ current e) × IsComplete n × (normalize n ≡ ok n)
normalize_sound e n h =
    let c = IsComplete-of_normalize e n h in
    let same : n ≡ current e = cc (normalize-eq-ok e c) in
    let again = IsComplete-current e c in
    (c, same, rw same again, rw same (normalize-eq-ok (current e) again))
