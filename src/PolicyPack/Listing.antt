-- ===== src/PolicyPack/Listing.antt =====
-- List and ListEnabled against Get: a tenant's list holds the packs that Get finds for it.
use mathlib.Core.Logic.{∥∥₁_elim}
use mathlib.Core.List.{Mem, Memᴰ}
use mathlib.Core.List.Perm
use mathlib.Core.Path.{subst}
use text.Mathlib.TextEquality.{IsScalar-prop}
use agent_secyrity.Prelude.{String, ◌≡◌, ap, ◌↔◌, true, Option, none, some, List, [], ◌==◌, eq_iff}
use agent_secyrity.Prelude.Members.{mem_filter_iff}
use agent_secyrity.Maps.{Iteration, lookup, values, member-values, values-member}
use agent_secyrity.Keys.{key}
use agent_secyrity.Domain.{PolicyPack}
use agent_secyrity.Domain.Errors.{Result, ok, err}
use agent_secyrity.PolicyPack.{MemoryStore, found_or_missing, get, list, list_enabled}
use agent_secyrity.PolicyPack.Invariant.{IsValid}

pub found_cases :
    (o : Option PolicyPack) (pack : PolicyPack) → found_or_missing o ≡ ok pack → o ≡ some pack
found_cases none pack h = cc
found_cases (some other) pack h = cc

PolicyPack-set : IsSet PolicyPack
PolicyPack-set = hlevel IsScalar-prop

Result-set : IsSet (Result PolicyPack)
Result-set = hlevel IsScalar-prop

-- A pack is stored under its own key exactly when Get finds it.
stored_iff :
    (s : MemoryStore) (pack : PolicyPack)
    → IsValid s
    → Memᴰ pack (values s.packs) ↔ (get none pack.tenant_id pack.id s ≡ ok pack)
unfolding get
stored_iff s pack v = (
  λ m.
      let (k, found) = values-member s.packs v.keys m in
      let at = (v.stored k pack found).at_key in
      ap found_or_missing (subst (λ j. lookup j s.packs ≡ some pack) at found),
  λ h. member-values (key pack.tenant_id pack.id) s.packs (found_cases _ pack h),
)

-- The result of a list call, without the error.
abbrev pub packs_of : Result (List PolicyPack) → List PolicyPack
packs_of (ok packs) = packs
packs_of (err e) = []

module _ ⦃order : Iteration⦄ (s : MemoryStore) (v : IsValid s) where
  arranged_iff :
      (pack : PolicyPack)
      → Mem pack (order.arrange PolicyPack (values s.packs))
        ↔ (get none pack.tenant_id pack.id s ≡ ok pack)
  arranged_iff pack =
      let moved = Perm.mem_iff (order.arrange_perm PolicyPack (values s.packs)) in
      (
        λ m. ∥∥₁_elim (moved.0 m) (Result-set _ _) (stored_iff s pack v).0,
        λ h. moved.1 ∣ (stored_iff s pack v).1 h ∣₁,
      )

  -- List returns the packs that Get finds under the tenant, and no other, in whatever order the
  -- map is visited.
  pub list_iff :
      (t : String) (pack : PolicyPack)
      → Mem pack (packs_of (list none t s))
        ↔ ((pack.tenant_id ≡ t) × (get none pack.tenant_id pack.id s ≡ ok pack))
  unfolding list
  list_iff t pack =
      let kept = mem_filter_iff (λ (k : PolicyPack). k.tenant_id == t) pack _ in
      (
        λ m. let (n, h) = kept.0 m in ((eq_iff pack.tenant_id t).0 h, (arranged_iff pack).0 n),
        λ (h, g). kept.1 ((arranged_iff pack).1 g, (eq_iff pack.tenant_id t).1 h),
      )

  -- ListEnabled returns those of them that are enabled.
  pub list_enabled_iff :
      (t : String) (pack : PolicyPack)
      → Mem pack (packs_of (list_enabled none t s)) ↔ (
          (pack.enabled ≡ true)
          × (pack.tenant_id ≡ t)
          × (get none pack.tenant_id pack.id s ≡ ok pack))
  unfolding list_enabled
  list_enabled_iff t pack =
      let kept = mem_filter_iff (λ (k : PolicyPack). k.enabled) pack _ in
      (
        λ m. let (n, h) = kept.0 m in let (t', g) = (list_iff t pack).0 n in (h, t', g),
        λ (h, t', g). kept.1 ((list_iff t pack).1 (t', g), h),
      )
