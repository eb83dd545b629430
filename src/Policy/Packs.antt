-- ===== src/Policy/Packs.antt =====
-- NewEngineFromPacks of internal/policy/engine.go: the policies of the enabled packs.
pub mod Laws
pub mod Order
use agent_secyrity.Prelude.{String, Bool, not, List, [], ◌∷◌, ◌++◌, map, if◌then◌else◌}
use agent_secyrity.Strings.{is_blank}
use agent_secyrity.Domain.{Policy, PolicyPack}
use agent_secyrity.Policy.Engine.{Engine, new_engine}

unfoldable pub first_non_empty : List String → String
first_non_empty [] = ""
first_non_empty (value ∷ values) = if not (is_blank value) then value else first_non_empty values

-- a policy of the inner loop, with the pack's tenant and identifier where it has none
unfoldable pub inherit : PolicyPack → Policy → Policy
unfolding first_non_empty
inherit pack p = record p {
  tenant_id = first_non_empty (p.tenant_id ∷ pack.tenant_id ∷ []);
  policy_pack_id = first_non_empty (p.policy_pack_id ∷ pack.id ∷ []);
}

unfoldable pub policies_of_packs : List PolicyPack → List Policy
policies_of_packs [] = []
policies_of_packs (pack ∷ packs) =
    if not pack.enabled
    then policies_of_packs packs
    else map (inherit pack) pack.policies ++ policies_of_packs packs

unfoldable pub new_engine_from_packs : List PolicyPack → Engine
unfolding policies_of_packs inherit
new_engine_from_packs packs = new_engine (policies_of_packs packs)
