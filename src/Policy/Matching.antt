-- ===== src/Policy/Matching.antt =====
-- The tests of internal/policy/engine.go: whether a policy's tenant and conditions fit an event.
pub mod Laws
use agent_secyrity.Prelude.{
  String, Bool, true, false, ◌&&◌, ◌||◌, List, [], ◌∷◌, ◌==◌, any, is_empty, if◌then◌else◌,
}
use agent_secyrity.Strings.{Folding, trim_space, is_blank, equal_fold, contains}
use agent_secyrity.Domain.{RuntimeEvent, Policy, PolicyConditions, EventType, SubjectType}

unfoldable pub match_event_type : List EventType → EventType → Bool
match_event_type allowed actual =
    if is_empty allowed then true else any (λ item. item == actual) allowed

unfoldable pub match_subject_type : List SubjectType → SubjectType → Bool
match_subject_type allowed actual =
    if is_empty allowed then true else any (λ item. item == actual) allowed

module _ ⦃folding : Folding⦄ where
  -- strings.EqualFold on the trimmed texts
  abbrev pub same_text : String → String → Bool
  same_text a b = equal_fold (trim_space a) (trim_space b)

  unfoldable pub matches_tenant : Policy → RuntimeEvent → Bool
  matches_tenant p e = if is_blank p.tenant_id then true else same_text p.tenant_id e.tenant_id

  unfoldable pub match_string : List String → String → Bool
  match_string allowed actual =
      if is_empty allowed then true else any (λ item. same_text item actual) allowed

  -- one round of the loop of matchResource
  pub resource_hit : String → String → Bool
  resource_hit actual pattern =
      if trim_space pattern == ""
      then false
      else contains actual (trim_space pattern) || equal_fold (trim_space pattern) actual

  unfoldable pub match_resource : List String → String → Bool
  unfolding resource_hit
  match_resource patterns actual =
      if is_empty patterns then true else any (resource_hit actual) patterns

  unfoldable pub match_any_string : List String → List String → Bool
  match_any_string required actual =
      if is_empty required
      then true
      else any (λ want. any (λ got. same_text want got) actual) required

  unfoldable pub matches : PolicyConditions → RuntimeEvent → Bool
  matches c e =
      match_event_type c.event_types e.event_type
      && match_string c.tool_names e.tool_name
      && match_resource c.resources e.resource
      && match_string c.actions e.action
      && match_any_string c.data_labels e.data_labels
      && match_string c.agent_ids e.agent_id
      && match_string c.user_ids e.user_id
      && match_subject_type c.subject_types e.subject.type
      && match_string c.subject_ids e.subject.id
      && match_any_string c.subject_roles e.subject.roles
      && match_any_string c.subject_groups e.subject.groups
      && match_string c.subject_risk_levels e.subject.risk_level
