-- ===== src/PolicyPack/Laws.antt =====
-- What a client of the store sees: Get after Upsert and SetEnabled.
use Prim.Native.String as Text
use agent_secyrity.Prelude.{
  String, ◌≡◌, ◌≢◌, refl, ◌↔◌, inl, inr, Bool, ◌&&◌, none, some, arith, ◌==◌, eq_iff, if◌then◌else◌,
  Option-cases,
}
use agent_secyrity.Maps.{lookup, insert, lookup-insert, lookup-insert_self}
use agent_secyrity.Keys.{key, HasNoNul, key_injective, key_nested}
use agent_secyrity.Domain.{PolicyPack}
use agent_secyrity.Domain.Errors.{Error, Result, ok, err, Context}
use agent_secyrity.PolicyPack.{MemoryStore, with_defaults, upsert, get, set_enabled}

-- Without a cancelled context Upsert succeeds exactly for a pack with a tenant and an identifier.
pub upsert_ok_iff :
    (pack : PolicyPack) (s : MemoryStore)
    → ((upsert none pack s).1 ≡ ok tt) ↔ ((pack.tenant_id ≢ "") × (pack.id ≢ ""))
unfolding upsert
upsert_ok_iff pack s = ground (arith, eq_iff pack.tenant_id "", eq_iff pack.id "")

-- An Upsert or SetEnabled that fails leaves the store as it was.
pub failure_keeps_store :
    (ctx : Context) (pack : PolicyPack) (t p : String) (b : Bool) (s : MemoryStore) (e : Error)
    → ((upsert ctx pack s).1 ≡ err e → (upsert ctx pack s).0 ≡ s)
      × ((set_enabled ctx t p b s).1 ≡ err e → (set_enabled ctx t p b s).0 ≡ s)
unfolding upsert set_enabled
failure_keeps_store (some e') pack t p b s e = ground arith
failure_keeps_store none pack t p b s e = (
  ground arith,
  elim (Option-cases (lookup (key t p) s.packs)) [
    | inl missing ↦ rw missing (λ _. refl)
    | inr (old, found) ↦ rw found (λ h. absurd (cc))
  ],
)

upsert_ok :
    (pack : PolicyPack) (s : MemoryStore)
    → pack.tenant_id ≢ ""
    → pack.id ≢ ""
    → (upsert none pack s).0.packs
      ≡ insert (key pack.tenant_id pack.id) (with_defaults pack) s.packs
unfolding upsert
upsert_ok pack s t i = ground (arith, eq_iff pack.tenant_id "", eq_iff pack.id "")

-- The same tenant and identifier, where the tenants have no NUL, is the same key.
same_key : (t u p q : String) → HasNoNul t → HasNoNul u → (key t p == key u q) ≡ (t == u && p == q)
same_key t u p q h k =
    ground (arith, eq_iff (key t p) (key u q), eq_iff t u, eq_iff p q, key_injective t u p q h k)

-- After Upsert of an identified pack, Get of its tenant and identifier returns the pack with its
-- policies assigned, and Get of any other pair returns what it did before, for tenants without NUL.
pub get-upsert :
    (pack : PolicyPack) (s : MemoryStore) (t p : String)
    → pack.tenant_id ≢ ""
    → pack.id ≢ ""
    → HasNoNul pack.tenant_id
    → HasNoNul t
    → get none t p (upsert none pack s).0
      ≡ (if pack.tenant_id == t && pack.id == p then ok (with_defaults pack) else get none t p s)
unfolding get
get-upsert pack s t p ht hp hn hm =
    rw (upsert_ok pack s ht hp)
      (rw lookup-insert (rw (same_key pack.tenant_id t pack.id p hn hm) (ground arith)))

-- A found pack with the flag set.
abbrev pub enabled_as : Bool → Result PolicyPack → Result PolicyPack
enabled_as b (ok pack) = ok (record pack { enabled = b })
enabled_as b (err e) = err e

-- SetEnabled of a stored pack changes what Get returns for it in the flag alone, and what Get
-- returns for other pairs not at all; of a missing pack it changes nothing and says so.
pub get-set_enabled :
    (t p u q : String) (b : Bool) (s : MemoryStore)
    → HasNoNul t
    → HasNoNul u
    → get none u q (set_enabled none t p b s).0
      ≡ (if t == u && p == q then enabled_as b (get none u q s) else get none u q s)
unfolding get set_enabled
get-set_enabled t p u q b s h k = elim (Option-cases (lookup (key t p) s.packs)) [
  | inl missing ↦ rw missing (ground (arith, eq_iff t u, eq_iff p q))
  | inr (old, found) ↦
      rw found
        (rw lookup-insert (rw (same_key t u p q h k) (ground (arith, eq_iff t u, eq_iff p q))))
]

-- Where a tenant has a NUL, tenants are not kept apart: the pack p that Upsert stores for a tenant
-- named t NUL u is what Get returns for the tenant t and the identifier u NUL p.
pub get_of_other_tenant :
    (t u p : String) (pack : PolicyPack) (s : MemoryStore)
    → pack.tenant_id ≡ Text.◌++◌ t (Text.◌++◌ "\0" u)
    → pack.id ≡ p
    → pack.id ≢ ""
    → pack.tenant_id ≢ ""
    → get none t (Text.◌++◌ u (Text.◌++◌ "\0" p)) (upsert none pack s).0 ≡ ok (with_defaults pack)
unfolding get
get_of_other_tenant t u p pack s et ep hp ht =
    rw (upsert_ok pack s ht hp, et, ep, key_nested t u p, lookup-insert_self)
