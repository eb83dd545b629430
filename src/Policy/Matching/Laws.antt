-- ===== src/Policy/Matching/Laws.antt =====
-- When a policy applies to an event, stated without the loops.
use agent_secyrity.Prelude.{
  String, ◌≡◌, ◌≢◌, ◌↔◌, ◌⊎◌, inl, inr, Bool, true, List, [], ◌∷◌, arith, ◌==◌, eq_iff, any,
  is_empty, if◌then◌else◌, Any,
}
use agent_secyrity.Prelude.Members.{any_iff, Any-map}
use agent_secyrity.Strings.{Folding, trim_space, is_blank, equal_fold, contains}
use agent_secyrity.Domain.{RuntimeEvent, Policy, PolicyConditions}
use agent_secyrity.Policy.Matching.{
  match_event_type, match_subject_type, same_text, matches_tenant, match_string, resource_hit,
  match_resource, match_any_string, matches,
}

-- A condition with no entry holds of every event; any other needs one entry that fits.
abbrev pub SomeEntry : (String → Type 0) → List String → Type 0
SomeEntry P entries = (entries ≡ []) ⊎ Any P entries

or_empty_iff :
    (test : String → Bool) (entries : List String)
    → ((if is_empty entries then true else any test entries) ≡ true)
      ↔ SomeEntry (λ x. test x ≡ true) entries
or_empty_iff test [] = ground arith
or_empty_iff test (x ∷ xs) =
    let both = any_iff test (x ∷ xs) in
    (
      λ h. inr (both.0 h),
      λ s. elim s [ inl nothing ↦ absurd (ground arith) | inr found ↦ both.1 found ],
    )

SomeEntry-map :
    {P Q : String → Type 0} (entries : List String)
    → ((x : String) → P x → Q x)
    → SomeEntry P entries
    → SomeEntry Q entries
SomeEntry-map entries f (inl h) = inl h
SomeEntry-map entries f (inr h) = inr (Any-map entries f h)

-- `want` is one of the event's entries, up to case and surrounding spaces.
module _ ⦃folding : Folding⦄ where
  abbrev pub Same : String → String → Type 0
  Same a b = same_text a b ≡ true

  -- The pattern, trimmed and not blank, is a part of the resource or equals it up to case.
  abbrev pub Covers : String → String → Type 0
  Covers resource pattern =
      (trim_space pattern ≢ "")
      × ((contains resource (trim_space pattern) ≡ true)
          ⊎ (equal_fold (trim_space pattern) resource ≡ true))

  pub record Fits (c : PolicyConditions) (e : RuntimeEvent) : Type 0 where
    pub event_types : SomeEntry (λ x. x ≡ e.event_type) c.event_types
    pub tool_names : SomeEntry (λ x. Same x e.tool_name) c.tool_names
    pub resources : SomeEntry (Covers e.resource) c.resources
    pub actions : SomeEntry (λ x. Same x e.action) c.actions
    pub data_labels : SomeEntry (λ x. Any (λ y. Same x y) e.data_labels) c.data_labels
    pub agent_ids : SomeEntry (λ x. Same x e.agent_id) c.agent_ids
    pub user_ids : SomeEntry (λ x. Same x e.user_id) c.user_ids
    pub subject_types : SomeEntry (λ x. x ≡ e.subject.type) c.subject_types
    pub subject_ids : SomeEntry (λ x. Same x e.subject.id) c.subject_ids
    pub subject_roles : SomeEntry (λ x. Any (λ y. Same x y) e.subject.roles) c.subject_roles
    pub subject_groups : SomeEntry (λ x. Any (λ y. Same x y) e.subject.groups) c.subject_groups
    pub subject_risk_levels : SomeEntry (λ x. Same x e.subject.risk_level) c.subject_risk_levels

  match_event_type_iff :
      (xs : List String) (a : String) → (match_event_type xs a ≡ true) ↔ SomeEntry (λ x. x ≡ a) xs
  unfolding match_event_type
  match_event_type_iff xs a = (
    λ h. SomeEntry-map xs (λ x. (eq_iff x a).0) ((or_empty_iff (λ x. x == a) xs).0 h),
    λ s. (or_empty_iff (λ x. x == a) xs).1 (SomeEntry-map xs (λ x. (eq_iff x a).1) s),
  )

  match_subject_type_iff :
      (xs : List String) (a : String) → (match_subject_type xs a ≡ true) ↔ SomeEntry (λ x. x ≡ a) xs
  unfolding match_subject_type
  match_subject_type_iff xs a = (
    λ h. SomeEntry-map xs (λ x. (eq_iff x a).0) ((or_empty_iff (λ x. x == a) xs).0 h),
    λ s. (or_empty_iff (λ x. x == a) xs).1 (SomeEntry-map xs (λ x. (eq_iff x a).1) s),
  )

  match_string_iff :
      (xs : List String) (a : String) → (match_string xs a ≡ true) ↔ SomeEntry (λ x. Same x a) xs
  unfolding match_string
  match_string_iff xs a = or_empty_iff (λ x. same_text x a) xs

  resource_hit_iff : (a p : String) → (resource_hit a p ≡ true) ↔ Covers a p
  unfolding resource_hit
  resource_hit_iff a p = ground (arith, eq_iff (trim_space p) "")

  match_resource_iff :
      (xs : List String) (a : String) → (match_resource xs a ≡ true) ↔ SomeEntry (Covers a) xs
  unfolding match_resource
  match_resource_iff xs a = (
    λ h. SomeEntry-map xs (λ x. (resource_hit_iff a x).0) ((or_empty_iff (resource_hit a) xs).0 h),
    λ s. (or_empty_iff (resource_hit a) xs).1 (SomeEntry-map xs (λ x. (resource_hit_iff a x).1) s),
  )

  match_any_string_iff :
      (xs ys : List String)
      → (match_any_string xs ys ≡ true) ↔ SomeEntry (λ x. Any (λ y. Same x y) ys) xs
  unfolding match_any_string
  match_any_string_iff xs ys =
      let inner = λ (x : String). any_iff (same_text x) ys in
      let outer = or_empty_iff (λ x. any (same_text x) ys) xs in
      (
        λ h. SomeEntry-map xs (λ x. (inner x).0) (outer.0 h),
        λ s. outer.1 (SomeEntry-map xs (λ x. (inner x).1) s),
      )

  -- The conditions of a policy match an event exactly when each of the twelve is empty or has an
  -- entry that fits: event and subject types exactly, resources by a part or up to case, all
  -- others up to case and surrounding spaces.
  pub matches_iff : (c : PolicyConditions) (e : RuntimeEvent) → (matches c e ≡ true) ↔ Fits c e
  unfolding matches
  matches_iff c e = (
    λ h. record {
      event_types = (match_event_type_iff c.event_types e.event_type).0 (ground arith);
      tool_names = (match_string_iff c.tool_names e.tool_name).0 (ground arith);
      resources = (match_resource_iff c.resources e.resource).0 (ground arith);
      actions = (match_string_iff c.actions e.action).0 (ground arith);
      data_labels = (match_any_string_iff c.data_labels e.data_labels).0 (ground arith);
      agent_ids = (match_string_iff c.agent_ids e.agent_id).0 (ground arith);
      user_ids = (match_string_iff c.user_ids e.user_id).0 (ground arith);
      subject_types = (match_subject_type_iff c.subject_types e.subject.type).0 (ground arith);
      subject_ids = (match_string_iff c.subject_ids e.subject.id).0 (ground arith);
      subject_roles = (match_any_string_iff c.subject_roles e.subject.roles).0 (ground arith);
      subject_groups = (match_any_string_iff c.subject_groups e.subject.groups).0 (ground arith);
      subject_risk_levels =
          (match_string_iff c.subject_risk_levels e.subject.risk_level).0 (ground arith);
    },
    λ f. ground (
      arith,
      (match_event_type_iff c.event_types e.event_type).1 f.event_types,
      (match_string_iff c.tool_names e.tool_name).1 f.tool_names,
      (match_resource_iff c.resources e.resource).1 f.resources,
      (match_string_iff c.actions e.action).1 f.actions,
      (match_any_string_iff c.data_labels e.data_labels).1 f.data_labels,
      (match_string_iff c.agent_ids e.agent_id).1 f.agent_ids,
      (match_string_iff c.user_ids e.user_id).1 f.user_ids,
      (match_subject_type_iff c.subject_types e.subject.type).1 f.subject_types,
      (match_string_iff c.subject_ids e.subject.id).1 f.subject_ids,
      (match_any_string_iff c.subject_roles e.subject.roles).1 f.subject_roles,
      (match_any_string_iff c.subject_groups e.subject.groups).1 f.subject_groups,
      (match_string_iff c.subject_risk_levels e.subject.risk_level).1 f.subject_risk_levels,
    ),
  )

  -- A policy is for every tenant when its own tenant is blank, and else for the events whose
  -- tenant is the same up to case and surrounding spaces.
  pub matches_tenant_iff :
      (p : Policy) (e : RuntimeEvent)
      → (matches_tenant p e ≡ true) ↔ ((is_blank p.tenant_id ≡ true) ⊎ Same p.tenant_id e.tenant_id)
  unfolding matches_tenant
  matches_tenant_iff p e = ground arith
