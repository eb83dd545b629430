-- ===== src/Policy/Packs/Laws.antt =====
-- Which policies an engine made from packs has, and which tenants they reach.
use mathlib.Core.List.{Memᴰ}
use mathlib.Core.List.Memᴰ
use mathlib.Core.Path.{subst}
use agent_secyrity.Prelude.{
  String, ◌≡◌, refl, sym, ap, ◌∙◌, ◌↔◌, ◌⊎◌, inl, inr, true, false, List, [], ◌∷◌, ◌++◌, map, arith,
  All, Any, Bool-cases,
}
use agent_secyrity.Prelude.Members.{All-member, member-Any, Any-member}
use agent_secyrity.Strings.{Folding, is_blank}
use agent_secyrity.Domain.{RuntimeEvent, Policy, PolicyPack, decision_deny}
use agent_secyrity.Policy.Matching.{matches_tenant}
use agent_secyrity.Policy.Matching.Laws.{Same}
use agent_secyrity.Policy.Engine.{applies, evaluate}
use agent_secyrity.Policy.Engine.Laws.{deny_iff}
use agent_secyrity.Policy.Packs.{inherit, policies_of_packs, new_engine_from_packs}

-- `p` is the policy `q` of an enabled pack, with what it takes over from the pack.
pub record Origin (packs : List PolicyPack) (p : Policy) : Type 0 where
  pub pack : PolicyPack
  pub policy : Policy
  pub listed : Memᴰ pack packs
  pub enabled : pack.enabled ≡ true
  pub held : Memᴰ policy pack.policies
  pub inherited : inherit pack policy ≡ p

Origin-cons :
    {pack : PolicyPack} {packs : List PolicyPack} {p : Policy}
    → Origin packs p
    → Origin (pack ∷ packs) p
Origin-cons o = record {
  pack = o.pack;
  policy = o.policy;
  listed = Memᴰ.tail o.listed;
  enabled = o.enabled;
  held = o.held;
  inherited = o.inherited;
}

module _ (pack : PolicyPack) (packs : List PolicyPack) where
  policies-enabled :
      pack.enabled ≡ true
      → policies_of_packs (pack ∷ packs)
        ≡ map (inherit pack) pack.policies ++ policies_of_packs packs
  unfolding policies_of_packs
  policies-enabled on = ground arith

  policies-disabled :
      pack.enabled ≡ false → policies_of_packs (pack ∷ packs) ≡ policies_of_packs packs
  unfolding policies_of_packs
  policies-disabled off = ground arith

policies-Origin :
    {p : Policy} (packs : List PolicyPack) → Memᴰ p (policies_of_packs packs) → Origin packs p
unfolding policies_of_packs
policies-Origin [] m = elim m [ ]
policies-Origin {p} (pack ∷ packs) m = elim (Bool-cases pack.enabled) [
  | inr off ↦
      Origin-cons (policies-Origin packs (subst (Memᴰ p) (policies-disabled pack packs off) m))
  | inl on ↦
      elim (Memᴰ.append_cases (map (inherit pack) pack.policies)
        (subst (Memᴰ p) (policies-enabled pack packs on) m)) [
          | inr later ↦ Origin-cons (policies-Origin packs later)
          | inl here ↦
              let (q, held, same) = Memᴰ.of_map (inherit pack) pack.policies here in
              record {
                pack = pack;
                policy = q;
                listed = Memᴰ.head refl;
                enabled = on;
                held = held;
                inherited = same;
              }
        ]
]

member-enabled :
    (pack : PolicyPack) (packs : List PolicyPack) (q : Policy)
    → pack.enabled ≡ true
    → Memᴰ q pack.policies
    → Memᴰ (inherit pack q) (policies_of_packs (pack ∷ packs))
member-enabled pack packs q on held =
    subst (Memᴰ (inherit pack q)) (sym (policies-enabled pack packs on))
      (Memᴰ.append_left (policies_of_packs packs) (Memᴰ.map (inherit pack) held))

member-later :
    {p : Policy} (pack : PolicyPack) (packs : List PolicyPack)
    → Memᴰ p (policies_of_packs packs)
    → Memᴰ p (policies_of_packs (pack ∷ packs))
member-later {p} pack packs m = elim (Bool-cases pack.enabled) [
  | inl on ↦
      subst (Memᴰ p) (sym (policies-enabled pack packs on))
        (Memᴰ.append_right (map (inherit pack) pack.policies) m)
  | inr off ↦ subst (Memᴰ p) (sym (policies-disabled pack packs off)) m
]

member-policies_of_packs :
    {pack : PolicyPack} {q : Policy} (packs : List PolicyPack)
    → Memᴰ pack packs
    → pack.enabled ≡ true
    → Memᴰ q pack.policies
    → Memᴰ (inherit pack q) (policies_of_packs packs)
member-policies_of_packs [] m on held = elim m [ ]
member-policies_of_packs {pack} {q} (other ∷ packs) (Memᴰ.head e) on held =
    subst (λ k. Memᴰ (inherit pack q) (policies_of_packs (k ∷ packs))) e
      (member-enabled pack packs q on held)
member-policies_of_packs (other ∷ packs) (Memᴰ.tail m) on held =
    member-later other packs (member-policies_of_packs packs m on held)

-- The engine has exactly the policies of the enabled packs, each with the pack's tenant and
-- identifier in place of a blank one.
pub new_engine_from_packs-Origin :
    (packs : List PolicyPack) (p : Policy)
    → (Memᴰ p (new_engine_from_packs packs).policies → Origin packs p)
      × (Origin packs p → Memᴰ p (new_engine_from_packs packs).policies)
unfolding new_engine_from_packs
new_engine_from_packs-Origin packs p = (
  policies-Origin packs,
  λ o.
      subst (λ r. Memᴰ r (policies_of_packs packs)) o.inherited
        (member-policies_of_packs packs o.listed o.enabled o.held),
)

-- A policy names no other tenant than its pack's.
abbrev pub IsOfPack : PolicyPack → Policy → Type 0
IsOfPack pack q = (is_blank q.tenant_id ≡ true) ⊎ (q.tenant_id ≡ pack.tenant_id)

inherit_decision : (pack : PolicyPack) (q : Policy) → (inherit pack q).decision ≡ q.decision
unfolding inherit
inherit_decision pack q = refl

inherit_tenant :
    (pack : PolicyPack) (q : Policy)
    → is_blank pack.tenant_id ≡ false
    → IsOfPack pack q
    → (inherit pack q).tenant_id ≡ pack.tenant_id
unfolding inherit
inherit_tenant pack q named own = ground arith

module _ ⦃folding : Folding⦄ where
  applies-Same :
      (e : RuntimeEvent) (q : Policy) (t : String)
      → applies e q ≡ true
      → q.tenant_id ≡ t
      → is_blank t ≡ false
      → Same t e.tenant_id
  unfolding applies matches_tenant
  applies-Same e q t h same named = ground arith

  -- Where every pack has a tenant and its policies name no other, only policies of enabled packs
  -- of the event's own tenant can match the event.
  pub packs_isolation :
      (packs : List PolicyPack) (e : RuntimeEvent) (p : Policy)
      → All (λ pack. (is_blank pack.tenant_id ≡ false) × All (IsOfPack pack) pack.policies) packs
      → Memᴰ p (new_engine_from_packs packs).policies
      → applies e p ≡ true
      → Any (λ pack. (pack.enabled ≡ true) × Same pack.tenant_id e.tenant_id) packs
  packs_isolation packs e p h m k =
      let o = (new_engine_from_packs-Origin packs p).0 m in
      let (named, owned) = All-member _ packs h o.listed in
      let tenant =
        inherit_tenant o.pack o.policy named (All-member _ o.pack.policies owned o.held) in
      let hit =
        applies-Same e p o.pack.tenant_id k (ap (λ r. r.tenant_id) (sym o.inherited) ∙ tenant)
          named in
      Any-member _ packs o.listed (o.enabled, hit)

  -- A simulation or evaluation over packs denies exactly when an enabled pack has a policy that
  -- says `deny` and that, with what it takes over from the pack, matches the event.
  pub packs_deny_iff :
      (packs : List PolicyPack) (e : RuntimeEvent)
      → ((evaluate (new_engine_from_packs packs) e).decision ≡ decision_deny)
        ↔ Any
            (λ pack.
              (pack.enabled ≡ true)
              × Any
                  (λ q. (applies e (inherit pack q) ≡ true) × (q.decision ≡ decision_deny))
                  pack.policies)
            packs
  packs_deny_iff packs e = (
    λ d.
        let (p, m, hit) = member-Any _ _ ((deny_iff e (new_engine_from_packs packs)).0 d) in
        let o = (new_engine_from_packs-Origin packs p).0 m in
        let inner : (applies e (inherit o.pack o.policy) ≡ true)
            × (o.policy.decision ≡ decision_deny) =
          (
            subst (λ r. applies e r ≡ true) (sym o.inherited) hit.0,
            sym (inherit_decision o.pack o.policy) ∙ ap (λ r. r.decision) o.inherited ∙ hit.1,
          ) in
        Any-member _ packs o.listed (o.enabled, Any-member _ o.pack.policies o.held inner),
    λ found.
        let (pack, listed, hit) = member-Any _ packs found in
        let (q, held, denies) = member-Any _ pack.policies hit.1 in
        let m = (new_engine_from_packs-Origin packs (inherit pack q)).1 (record {
          pack = pack;
          policy = q;
          listed = listed;
          enabled = hit.0;
          held = held;
          inherited = refl;
        }) in
        (deny_iff e (new_engine_from_packs packs)).1 (
          Any-member (λ r. (applies e r ≡ true) × (r.decision ≡ decision_deny)) _ m
            (denies.0, inherit_decision pack q ∙ denies.1)),
  )
