-- ===== src/PolicyPack.antt =====
-- internal/policypack/store.go: the in-memory store of policy packs. A method takes the answer of
-- ctx.Err() and the store, and returns the store and its result; the mutex makes it one step.
-- Of Upsert's writes into the caller's slice of policies only the stored copy is modelled.
pub mod Invariant
pub mod Laws
pub mod Listing
use agent_secyrity.Prelude.{
  String, Bool, Option, none, some, List, map, ◌==◌, filter, if◌then◌else◌,
}
use agent_secyrity.Maps.{Map, Iteration, empty, lookup, insert, values}
use agent_secyrity.Keys.{key}
use agent_secyrity.Domain.{Policy, PolicyPack}
use agent_secyrity.Domain.Errors.{
  Error, tenant_id_required, policy_pack_id_required, policy_pack_not_found, Result, ok, err,
  Context,
}

pub record MemoryStore : Type 0 where
  pub packs : Map PolicyPack

abbrev pub new_memory_store : MemoryStore
new_memory_store = record { packs = empty }

-- one round of the loop of Upsert over the policies
unfoldable pub assign : PolicyPack → Policy → Policy
assign pack p = record p {
  tenant_id = if p.tenant_id == "" then pack.tenant_id else p.tenant_id;
  policy_pack_id = if p.policy_pack_id == "" then pack.id else p.policy_pack_id;
}

abbrev pub with_defaults : PolicyPack → PolicyPack
with_defaults pack = record pack { policies = map (assign pack) pack.policies }

unfoldable pub upsert : Context → PolicyPack → MemoryStore → MemoryStore × Result (Unit {0})
upsert (some e) pack s = (s, err e)
upsert none pack s =
    if pack.tenant_id == ""
    then (s, err tenant_id_required)
    else if pack.id == ""
    then (s, err policy_pack_id_required)
    else (
      record { packs = insert (key pack.tenant_id pack.id) (with_defaults pack) s.packs },
      ok tt,
    )

abbrev pub found_or_missing : Option PolicyPack → Result PolicyPack
found_or_missing none = err policy_pack_not_found
found_or_missing (some pack) = ok pack

unfoldable pub get : Context → String → String → MemoryStore → Result PolicyPack
get (some e) tenant_id pack_id s = err e
get none tenant_id pack_id s = found_or_missing (lookup (key tenant_id pack_id) s.packs)

abbrev with_enabled :
    MemoryStore → String → Bool → Option PolicyPack → MemoryStore × Result (Unit {0})
with_enabled s map_key enabled none = (s, err policy_pack_not_found)
with_enabled s map_key enabled (some pack) =
    (record { packs = insert map_key (record pack { enabled = enabled }) s.packs }, ok tt)

unfoldable pub set_enabled :
    Context → String → String → Bool → MemoryStore → MemoryStore × Result (Unit {0})
set_enabled (some e) tenant_id pack_id enabled s = (s, err e)
set_enabled none tenant_id pack_id enabled s =
    with_enabled s (key tenant_id pack_id) enabled (lookup (key tenant_id pack_id) s.packs)

module _ ⦃order : Iteration⦄ where
  unfoldable pub list : Context → String → MemoryStore → Result (List PolicyPack)
  list (some e) tenant_id s = err e
  list none tenant_id s =
      ok (filter (λ pack. pack.tenant_id == tenant_id) (order.arrange PolicyPack (values s.packs)))

  unfoldable pub list_enabled : Context → String → MemoryStore → Result (List PolicyPack)
  unfolding list
  list_enabled ctx tenant_id s = elim (list ctx tenant_id s) [
    | err e ↦ err e
    | ok packs ↦ ok (filter (λ pack. pack.enabled) packs)
  ]
