-- ===== src/Tests/PackTests.antt =====
-- The policy pack store at concrete packs.
use mathlib.Core.List.{Mem}
use agent_secyrity.Prelude.{
  ◌≡◌, ◌≢◌, refl, ◌↔◌, true, false, ◌&&◌, none, arith, eq_iff, ◌==◌, if◌then◌else◌,
}
use agent_secyrity.Maps.{lookup, insert, values}
use agent_secyrity.Keys.{key, HasNoNul}
use agent_secyrity.Domain.{PolicyPack}
use agent_secyrity.Domain.Errors.{ok, err, policy_pack_not_found}
use agent_secyrity.PolicyPack.{
  MemoryStore, new_memory_store, assign, with_defaults, upsert, get, set_enabled, list,
  list_enabled,
}
use agent_secyrity.PolicyPack.Invariant.{IsValid, IsValid-new, upsert-IsValid}
use agent_secyrity.PolicyPack.Laws.{upsert_ok_iff, enabled_as, get-set_enabled, get_of_other_tenant}
use agent_secyrity.PolicyPack.Listing.{packs_of, list_enabled_iff}
use agent_secyrity.Tests.Fixtures.{in_order, pack_a}

abbrev stored : MemoryStore
stored = (upsert none pack_a new_memory_store).0

store_run : Unit {0}
unfolding upsert get set_enabled list list_enabled assign lookup insert values key
store_run = tt

found : get none "tenant-a" "pack-1" stored ≡ ok (with_defaults pack_a)
unfolding store_run
found = refl

not_found : get none "tenant-b" "pack-1" stored ≡ err policy_pack_not_found
unfolding store_run
not_found = refl

named : pack_a.tenant_id ≢ ""
named = ground (arith, eq_iff pack_a.tenant_id "")

identified : pack_a.id ≢ ""
identified = ground (arith, eq_iff pack_a.id "")

tenant_a-HasNoNul : HasNoNul "tenant-a"
tenant_a-HasNoNul = omega arith

tenant_b-HasNoNul : HasNoNul "tenant-b"
tenant_b-HasNoNul = omega arith

stored-IsValid : IsValid stored
stored-IsValid = upsert-IsValid none pack_a new_memory_store IsValid-new

upsert_ok_iff_example :
    ((upsert none pack_a new_memory_store).1 ≡ ok tt) ↔ ((pack_a.tenant_id ≢ "") × (pack_a.id ≢ ""))
upsert_ok_iff_example = upsert_ok_iff pack_a new_memory_store

get-set_enabled_example :
    get none "tenant-a" "pack-1" (set_enabled none "tenant-a" "pack-1" false stored).0 ≡ (
      if "tenant-a" == "tenant-a" && "pack-1" == "pack-1"
      then enabled_as false (get none "tenant-a" "pack-1" stored)
      else get none "tenant-a" "pack-1" stored)
get-set_enabled_example =
    get-set_enabled "tenant-a" "pack-1" "tenant-a" "pack-1" false stored tenant_a-HasNoNul
      tenant_a-HasNoNul

list_enabled_iff_example :
    Mem (with_defaults pack_a) (packs_of (list_enabled none "tenant-a" stored)) ↔ (
      ((with_defaults pack_a).enabled ≡ true)
      × ((with_defaults pack_a).tenant_id ≡ "tenant-a")
      × (get none "tenant-a" "pack-1" stored ≡ ok (with_defaults pack_a)))
list_enabled_iff_example =
    list_enabled_iff ⦃order = in_order⦄ stored stored-IsValid "tenant-a" (with_defaults pack_a)

abbrev nul_pack : PolicyPack
nul_pack = record pack_a { tenant_id = "a\0b"; id = "c" }

get_of_other_tenant_example :
    get none "a" "b\0c" (upsert none nul_pack new_memory_store).0 ≡ ok (with_defaults nul_pack)
get_of_other_tenant_example =
    get_of_other_tenant "a" "b" "c" nul_pack new_memory_store refl refl
      (ground (arith, eq_iff nul_pack.id "")) (ground (arith, eq_iff nul_pack.tenant_id ""))
