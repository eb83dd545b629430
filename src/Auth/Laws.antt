-- ===== src/Auth/Laws.antt =====
-- Who is let in: Authenticate, AuthenticateRequest and AllowsTenant of internal/auth/apikey.go.
use mathlib.Core.List.{Memᴰ}
use mathlib.Core.Path.{subst}
use agent_secyrity.Prelude.{
  String, ◌≡◌, ◌≢◌, ◌↔◌, ◌⊎◌, refl, sym, ap, inl, inr, true, false, Option, none, some, List, [],
  ◌∷◌, arith, eq_iff, Bool-cases,
}
use agent_secyrity.Prelude.Members.{All-member}
use agent_secyrity.Strings.{is_blank, trim_space}
use agent_secyrity.Maps.{lookup}
use agent_secyrity.Auth.{
  ApiKey, ApiKeyConfig, constant_time_string_equal, is_found, allows_tenant, find_key, authenticate,
}
use agent_secyrity.Auth.Keyring.{HasDistinctSecrets}

constant_time_iff : (s t : String) → (constant_time_string_equal s t ≡ true) ↔ (s ≡ t)
unfolding constant_time_string_equal
constant_time_iff s t = (λ h. ground (arith, eq_iff s t), λ e. rw e (ground (arith, eq_iff t t)))

find_key_sound :
    (token : String) (ks : List ApiKey) (k : ApiKey)
    → find_key token ks ≡ some k
    → Memᴰ k ks × (k.secret ≡ token)
unfolding find_key
find_key_sound token [] k h = absurd (cc h)
find_key_sound token (other ∷ ks) k h =
    elim (Bool-cases (constant_time_string_equal other.secret token)) [
      | inl hit ↦
          let same : other ≡ k = cc (rw hit at h) in
          (
            Memᴰ.head (sym same),
            subst (λ x. x.secret ≡ token) same ((constant_time_iff other.secret token).0 hit),
          )
      | inr miss ↦ let (m, e) = find_key_sound token ks k (rw miss at h) in (Memᴰ.tail m, e)
    ]

find_key_complete :
    (ks : List ApiKey) (k : ApiKey)
    → HasDistinctSecrets ks
    → Memᴰ k ks
    → find_key k.secret ks ≡ some k
unfolding find_key
find_key_complete [] k d m = elim m [ ]
find_key_complete (other ∷ ks) k (d, ds) (Memᴰ.head e) =
    rw ((constant_time_iff other.secret k.secret).1 (ap (λ x. x.secret) (sym e))) (ap some (sym e))
find_key_complete (other ∷ ks) k (d, ds) (Memᴰ.tail m) =
    let differs = All-member (λ x. x.secret ≢ other.secret) ks d m in
    let miss : constant_time_string_equal other.secret k.secret ≡ false =
      elim (Bool-cases (constant_time_string_equal other.secret k.secret)) [
        | inl hit ↦ absurd (differs (sym ((constant_time_iff other.secret k.secret).0 hit)))
        | inr miss ↦ miss
      ] in
    rw miss (find_key_complete ks k ds m)

-- With different secrets, Authenticate finds a key for a token exactly if the key is configured and
-- the token, less the spaces around it, is its secret and not empty.
pub authenticate_iff :
    (c : ApiKeyConfig) (token : String) (k : ApiKey)
    → HasDistinctSecrets c.keys
    → (authenticate c token ≡ some k
        → Memᴰ k c.keys × (k.secret ≡ trim_space token) × (is_blank token ≡ false))
      × (Memᴰ k c.keys × (k.secret ≡ trim_space token) × (is_blank token ≡ false)
          → authenticate c token ≡ some k)
unfolding authenticate
authenticate_iff c token k distinct = (
  λ h. elim (Bool-cases (is_blank token)) [
    | inl blank ↦ absurd (cc (rw blank at h))
    | inr filled ↦
        let (m, e) = find_key_sound (trim_space token) c.keys k (rw filled at h) in (m, e, filled)
  ],
  λ (m, e, filled).
      rw filled (subst (λ t. find_key t c.keys ≡ some k) e (find_key_complete c.keys k distinct m)),
)

is_found_iff : (o : Option (Unit {0})) → (is_found o ≡ true) ↔ (o ≡ some tt)
is_found_iff none = (λ h. absurd (cc h), λ h. absurd (cc h))
is_found_iff (some u) = (λ h. refl, λ h. refl)

-- A key lets a request into a tenant, given without regard to spaces around it, exactly if the
-- tenant is not blank and the key is for all tenants or for that one.
pub allows_tenant_iff :
    (k : ApiKey) (tenant_id : String)
    → (allows_tenant k tenant_id ≡ true) ↔ (
        (is_blank tenant_id ≡ false)
        × ((k.allow_all_tenants ≡ true)
            ⊎ (lookup (trim_space tenant_id) k.allowed_tenants ≡ some tt)))
unfolding allows_tenant
allows_tenant_iff k tenant_id =
    ground (arith, is_found_iff (lookup (trim_space tenant_id) k.allowed_tenants))
