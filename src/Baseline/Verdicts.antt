-- ===== src/Baseline/Verdicts.antt =====
-- What the baseline packs decide.
use agent_secyrity.Prelude.{
  ◌≡◌, refl, ap, ◌∙◌, String, Bool, true, false, ◌||◌, ◌&&◌, any, arith, List, [], map, ◌∷◌, ◌==◌,
  eq_iff, if◌then◌else◌,
}
use agent_secyrity.Strings.{Folding, trim_space, is_blank, contains, equal_fold}
use agent_secyrity.Domain.{
  RuntimeEvent, Policy, PolicyPack, Decision, decision_allow, decision_redact,
  decision_require_approval, decision_deny,
}
use agent_secyrity.Domain.Decision.{priority}
use agent_secyrity.Policy.Matching.{
  matches, matches_tenant, same_text, match_event_type, match_subject_type, match_string,
  match_resource, match_any_string,
}
use agent_secyrity.Policy.Engine.{applies, evaluate, no_match}
use agent_secyrity.Policy.Engine.Hits.{verdict, both, both_sound, evaluate-verdict}
use agent_secyrity.Policy.Packs.{inherit, policies_of_packs, new_engine_from_packs}
use agent_secyrity.Baseline.{
  secret_file_access, dangerous_shell, customer_data_response, account_change, money_transfer,
  production_export, code_repository_pack, customer_support_pack, finance_operations_pack,
  data_analysis_pack, default_policy_packs,
}

module _ ⦃folding : Folding⦄ where
  -- A text is one of the names, up to case and surrounding spaces.
  abbrev pub is_named : List String → String → Bool
  is_named names text = any (λ name. same_text name text) names

  -- A resource has one of the parts, or is one up to case.
  abbrev pub mentions : List String → String → Bool
  mentions parts resource = any (λ part. contains resource part || equal_fold part resource) parts

  abbrev pub is_labelled : List String → List String → Bool
  is_labelled names labels = any (λ name. any (λ label. same_text name label) labels) names

  -- The events that the packs are about.
  abbrev pub is_secret_file : RuntimeEvent → Bool
  is_secret_file e =
      "file_access" == e.event_type
      && mentions (".env" ∷ "id_rsa" ∷ "id_ed25519" ∷ ".ssh/" ∷ "credentials" ∷ []) e.resource
      && is_labelled ("secret" ∷ []) e.data_labels

  abbrev pub is_shell : RuntimeEvent → Bool
  is_shell e =
      "tool_call" == e.event_type
      && is_named ("shell" ∷ "exec" ∷ "terminal" ∷ []) e.tool_name
      && is_named ("execute" ∷ []) e.action

  abbrev pub is_customer_response : RuntimeEvent → Bool
  is_customer_response e =
      "response" == e.event_type && is_labelled ("pii" ∷ "customer_data" ∷ []) e.data_labels

  abbrev pub is_account_change : RuntimeEvent → Bool
  is_account_change e =
      "tool_call" == e.event_type
      && is_named ("account_admin" ∷ "crm" ∷ []) e.tool_name
      && is_named ("change_account_status" ∷ "reset_password" ∷ "refund" ∷ []) e.action

  abbrev pub is_money_transfer : RuntimeEvent → Bool
  is_money_transfer e =
      "tool_call" == e.event_type
      && is_named ("wire_transfer" ∷ "payment" ∷ "refund" ∷ []) e.tool_name
      && is_named ("transfer" ∷ "pay" ∷ "refund" ∷ []) e.action

  abbrev pub is_export : RuntimeEvent → Bool
  is_export e =
      "tool_call" == e.event_type
      && is_named ("sql_query" ∷ "warehouse" ∷ "database" ∷ []) e.tool_name
      && mentions ("prod" ∷ "production" ∷ "customer" ∷ []) e.resource
      && is_named ("export" ∷ "query" ∷ "dump" ∷ []) e.action
      && is_labelled ("customer_data" ∷ "pii" ∷ []) e.data_labels

  hits_eq :
      (e : RuntimeEvent)
      → (matches secret_file_access e ≡ is_secret_file e)
        × (matches dangerous_shell e ≡ is_shell e)
        × (matches customer_data_response e ≡ is_customer_response e)
        × (matches account_change e ≡ is_account_change e)
        × (matches money_transfer e ≡ is_money_transfer e)
        × (matches production_export e ≡ is_export e)
  unfolding matches match_event_type match_subject_type match_string match_resource match_any_string
      trim_space
  hits_eq e = (ground arith, ground arith, ground arith, ground arith, ground arith, ground arith)

  -- The decision table of the packs.
  abbrev pub baseline_decision : RuntimeEvent → Decision
  baseline_decision e =
      if is_secret_file e
      then decision_deny
      else if is_shell e || is_account_change e || is_money_transfer e || is_export e
      then decision_require_approval
      else if is_customer_response e
      then decision_redact
      else decision_allow

  pub applies_of_tenant :
      (e : RuntimeEvent) (pack : PolicyPack) (p : Policy) (t : String)
      → is_blank t ≡ false
      → same_text t e.tenant_id ≡ true
      → p.tenant_id ≡ t
      → p.enabled ≡ true
      → applies e (inherit pack p) ≡ matches p.conditions e
  unfolding applies inherit matches_tenant
  applies_of_tenant e pack p t named same own enabled = rw (own, named, named, enabled, same) refl

-- The policies of the four packs, in order.
baseline_policies : String → List Policy
unfolding new_engine_from_packs policies_of_packs default_policy_packs code_repository_pack
    customer_support_pack finance_operations_pack data_analysis_pack
baseline_policies t = (new_engine_from_packs (default_policy_packs t)).policies

-- The decision table, from which policies match.
table : Bool → Bool → Bool → Bool → Bool → Bool → Decision
table secret shell response account money export =
    if secret
    then decision_deny
    else if shell || account || money || export
    then decision_require_approval
    else if response
    then decision_redact
    else decision_allow

agrees : String → Bool → Bool → Bool → Bool → Bool → Bool → Bool
unfolding baseline_policies table
agrees t a b c d e f =
    verdict no_match (baseline_policies t) (a ∷ b ∷ c ∷ d ∷ e ∷ f ∷ []) == table a b c d e f

verdict-table :
    (t : String) (a b c d e f : Bool)
    → verdict no_match (baseline_policies t) (a ∷ b ∷ c ∷ d ∷ e ∷ f ∷ []) ≡ table a b c d e f
unfolding verdict agrees baseline_policies inherit priority
verdict-table t a b c d e f =
    let in_c = λ (c : Bool). both λ d. both λ e. both (agrees t a b c d e) in
    let in_b = λ (b : Bool). both λ c. both λ d. both λ e. both (agrees t a b c d e) in
    let in_a = λ (a : Bool). both λ b. both λ c. both λ d. both λ e. both (agrees t a b c d e) in
    (eq_iff _ _).0 (
      both_sound (agrees t a b c d e)
        (both_sound (λ e. both (agrees t a b c d e))
          (both_sound (λ d. both λ e. both (agrees t a b c d e))
            (both_sound in_c (both_sound in_b (both_sound in_a refl a) b) c) d)
          e)
        f)

module _ ⦃folding : Folding⦄ where
  -- Which of the policies match.
  abbrev hits : RuntimeEvent → List Bool
  hits e =
      matches secret_file_access e
      ∷ matches dangerous_shell e
      ∷ matches customer_data_response e
      ∷ matches account_change e
      ∷ matches money_transfer e
      ∷ matches production_export e
      ∷ []

  cons_path : {x y : Bool} {xs ys : List Bool} → x ≡ y → xs ≡ ys → (x ∷ xs) ≡ (y ∷ ys)
  cons_path p q = cc (p, q)

  applies-hits :
      (t : String) (e : RuntimeEvent)
      → is_blank t ≡ false
      → same_text t e.tenant_id ≡ true
      → map (applies e) (baseline_policies t) ≡ hits e
  unfolding baseline_policies
  applies-hits t e named same =
      cons_path (applies_of_tenant e (code_repository_pack t) _ t named same refl refl) (
        cons_path (applies_of_tenant e (code_repository_pack t) _ t named same refl refl) (
          cons_path (applies_of_tenant e (customer_support_pack t) _ t named same refl refl) (
            cons_path (applies_of_tenant e (customer_support_pack t) _ t named same refl refl) (
              cons_path (applies_of_tenant e (finance_operations_pack t) _ t named same refl refl) (
                cons_path (applies_of_tenant e (data_analysis_pack t) _ t named same refl refl)
                  refl)))))

  -- The baseline packs of a tenant with a name decide an event of that tenant by the table
  -- `baseline_decision`, whose classes are written out above: access to a secret file is denied; a
  -- call of a shell, of an account change, of a money transfer or of an export of labelled customer
  -- data from production requires approval; a response with customer data is redacted; any other
  -- event is allowed.
  pub evaluate-default_policy_packs :
      (t : String) (e : RuntimeEvent)
      → is_blank t ≡ false
      → same_text t e.tenant_id ≡ true
      → (evaluate (new_engine_from_packs (default_policy_packs t)) e).decision ≡ baseline_decision e
  unfolding baseline_policies table new_engine_from_packs
  evaluate-default_policy_packs t e named same =
      evaluate-verdict e (baseline_policies t)
      ∙ ap (verdict no_match (baseline_policies t)) (applies-hits t e named same)
      ∙ verdict-table t _ _ _ _ _ _
      ∙ (let (secret, shell, response, account, money, export) = hits_eq e in
          rw (secret, shell, response, account, money, export) refl)
