-- ===== src/Http/Options.antt =====
-- parseAuditListOptions as a whole: which options it yields, and which queries give them.
use agent_secyrity.Prelude.{
  ◌-◌, ◌^◌, ◌≡◌, ◌⊎◌, inl, inr, refl, String, Bool, true, ◌==◌, arith, eq_iff, Bool-cases,
  Option-cases, if◌then◌else◌,
}
use agent_secyrity.Prelude.Int.{ℤ, pos, negsuc, pos_part, ◌≤ℤ◌}
use agent_secyrity.Strconv.{atoi, atoi-le}
use agent_secyrity.Decimal.{decimal}
use agent_secyrity.Domain.Event.{valid}
use agent_secyrity.Domain.Errors.{ok}
use agent_secyrity.Audit.{ListOptions}
use agent_secyrity.Http.Reading.{number_parameter-decimal}
use agent_secyrity.Http.Query.{
  number_parameter, word_parameter, valid_decision, parse_audit_list_options,
}

-- A number that the query may ask for: an int that is not negative.
abbrev pub IsIndex : ℤ → Type 0
IsIndex z = (pos 0 ≤ℤ z) × (z ≤ℤ pos (2 ^ 63 - 1))

-- A blank word, or one that the handler knows.
abbrev pub IsWord : (String → Bool) → String → Type 0
IsWord supported word = (word ≡ "") ⊎ (supported word ≡ true)

-- Options that a query can give.
pub record IsReadable (o : ListOptions) : Type 0 where
  pub limit : IsIndex o.limit
  pub offset : IsIndex o.offset
  pub decision : IsWord valid_decision o.decision
  pub event_type : IsWord valid o.event_type

-- The query that a client writes for the options, its numbers in decimal.
abbrev pub query_of : ListOptions → String → String
query_of o name =
    if name == "limit"
    then decimal (pos_part o.limit)
    else if name == "offset"
    then decimal (pos_part o.offset)
    else if name == "decision"
    then o.decision
    else if name == "event_type"
    then o.event_type
    else if name == "tenant_id"
    then o.tenant_id
    else if name == "agent_id"
    then o.agent_id
    else if name == "user_id"
    then o.user_id
    else if name == "task_id"
    then o.task_id
    else ""

number_parameter-IsIndex :
    (name raw : String) (z : ℤ) → number_parameter name raw ≡ ok z → IsIndex z
unfolding number_parameter
number_parameter-IsIndex name raw z h = elim (Option-cases (atoi raw)) [
  | inl unread ↦ ground arith
  | inr (n, read) ↦ let fits = atoi-le raw n read in ground arith
]

number_parameter-IsRead :
    (name : String) (z : ℤ) → IsIndex z → number_parameter name (decimal (pos_part z)) ≡ ok z
number_parameter-IsRead name (pos n) h = number_parameter-decimal name n (omega arith)
number_parameter-IsRead name (negsuc n) h = absurd (omega arith)

word_parameter-IsWord :
    (name : String) (supported : String → Bool) (raw word : String)
    → word_parameter name supported raw ≡ ok word
    → IsWord supported word
unfolding word_parameter
word_parameter-IsWord name supported raw word h = elim (Bool-cases (raw == "")) [
  | inl blank ↦ inl (ground arith)
  | inr filled ↦ inr (ground arith)
]

word_parameter-IsRead :
    (name : String) (supported : String → Bool) (word : String)
    → IsWord supported word
    → word_parameter name supported word ≡ ok word
unfolding word_parameter
word_parameter-IsRead name supported word h = ground (arith, eq_iff word "")

-- Whatever the query, options that parseAuditListOptions returns have a limit and an offset from 0 to
-- 2^63 - 1, a decision and an event type that are blank or known, and the tenant, agent, user and
-- task of the query.
pub parse_audit_list_options-IsReadable :
    (query : String → String) (o : ListOptions)
    → parse_audit_list_options query ≡ ok o
    → IsReadable o
      × (o.tenant_id ≡ query "tenant_id")
      × (o.agent_id ≡ query "agent_id")
      × (o.user_id ≡ query "user_id")
      × (o.task_id ≡ query "task_id")
unfolding parse_audit_list_options
parse_audit_list_options-IsReadable query o h =
    let limit : number_parameter "limit" (query "limit") ≡ ok o.limit = ground arith in
    let offset : number_parameter "offset" (query "offset") ≡ ok o.offset = ground arith in
    let decision : word_parameter "decision" valid_decision (query "decision") ≡ ok o.decision =
      ground arith in
    let event_type : word_parameter "event_type" valid (query "event_type") ≡ ok o.event_type =
      ground arith in
    (
      record {
        limit = number_parameter-IsIndex "limit" (query "limit") o.limit limit;
        offset = number_parameter-IsIndex "offset" (query "offset") o.offset offset;
        decision = word_parameter-IsWord "decision" valid_decision _ o.decision decision;
        event_type = word_parameter-IsWord "event_type" valid _ o.event_type event_type;
      },
      ground arith,
      ground arith,
      ground arith,
      ground arith,
    )

-- Options with a limit and an offset from 0 to 2^63 - 1 and with a decision and an event type that are
-- blank or known are read back from the query that a client writes for them.
pub parse_audit_list_options-query_of :
    (o : ListOptions) → IsReadable o → parse_audit_list_options (query_of o) ≡ ok o
unfolding parse_audit_list_options
parse_audit_list_options-query_of o h =
    rw
      (
        number_parameter-IsRead "limit" o.limit h.limit,
        number_parameter-IsRead "offset" o.offset h.offset,
        word_parameter-IsRead "decision" valid_decision o.decision h.decision,
        word_parameter-IsRead "event_type" valid o.event_type h.event_type,
      )
      refl
