-- ===== src/Auth.antt =====
-- internal/auth/apikey.go: the configured API keys, and who may use them. The empty APIKeyConfig
-- and APIKey that accompany an error are left out.
pub mod Keyring
pub mod Laws
use Prim.Native.String as Text
use agent_secyrity.Prelude.{
  String, Bool, true, false, not, ◌&&◌, ◌||◌, Option, none, some, List, [], ◌∷◌, ◌==◌, is_empty,
  nat_eq, if◌then◌else◌,
}
use agent_secyrity.Strings.{Folding, trim_space, is_blank, split, cut, equal_fold}
use agent_secyrity.Maps.{Map, empty, lookup, insert}
use agent_secyrity.Domain.Errors.{unauthorized, failed, Result, ok, err, ◌>>=◌}

pub record ApiKey : Type 0 where
  pub id : String
  pub secret : String
  pub allowed_tenants : Map (Unit {0})
  pub allow_all_tenants : Bool

pub record ApiKeyConfig : Type 0 where
  pub keys : List ApiKey

-- `_, ok := m[k]`
abbrev pub is_found : {V : Type 0} → Option V → Bool
is_found none = false
is_found (some v) = true

unfoldable pub allows_tenant : ApiKey → String → Bool
allows_tenant k tenant_id =
    if is_blank tenant_id
    then false
    else if k.allow_all_tenants
    then true
    else is_found (lookup (trim_space tenant_id) k.allowed_tenants)

-- constantTimeStringEqual; subtle.ConstantTimeCompare is 1 exactly on equal contents
unfoldable pub constant_time_string_equal : String → String → Bool
constant_time_string_equal expected actual =
    if not (nat_eq (Text.len expected) (Text.len actual)) then false else expected == actual

-- the loop of parseAPIKey over the tenants
unfoldable pub add_tenants : List String → ApiKey → Result ApiKey
add_tenants [] k = ok k
add_tenants (part ∷ parts) k =
    let everyone = add_tenants parts (record k { allow_all_tenants = true }) in
    let one_more =
      add_tenants parts
        (record k { allowed_tenants = insert (trim_space part) tt k.allowed_tenants }) in
    if is_blank part
    then err (failed "API key tenant id is required")
    else if trim_space part == "*"
    then everyone
    else one_more

abbrev pub checked_tenants : ApiKey → Result ApiKey
checked_tenants k =
    if not k.allow_all_tenants && is_empty k.allowed_tenants.entries
    then err (failed "API key must allow at least one tenant")
    else ok k

-- parseAPIKey from its three parts on, which are trimmed
unfoldable pub parse_parts : String → String → String → Result ApiKey
parse_parts id secret tenant_list =
    if id == ""
    then err (failed "API key id is required")
    else if secret == ""
    then err (failed "API key secret is required")
    else if tenant_list == ""
    then err (failed "API key tenant list is required")
    else add_tenants (split b',' tenant_list)
        (record { id = id; secret = secret; allowed_tenants = empty; allow_all_tenants = false })
      >>= checked_tenants

abbrev pub three_parts : List String → Result ApiKey
three_parts (id ∷ secret ∷ tenant_list ∷ []) =
    parse_parts (trim_space id) (trim_space secret) (trim_space tenant_list)
three_parts _ = err (failed "API key entry must use key-id:secret:tenant-list format")

unfoldable pub parse_api_key : String → Result ApiKey
parse_api_key entry = three_parts (split b':' (trim_space entry))

-- the loop of ParseAPIKeys, with the secrets seen so far
unfoldable pub parse_entries : List String → Map (Unit {0}) → Result (List ApiKey)
parse_entries [] seen = ok []
parse_entries (entry ∷ entries) seen = parse_api_key entry >>= λ k.
    let rest = parse_entries entries (insert k.secret tt seen) in
    if is_found (lookup k.secret seen)
    then err (failed "duplicate API key secret")
    else rest >>= λ ks. ok (k ∷ ks)

unfoldable pub parse_api_keys : String → Result ApiKeyConfig
parse_api_keys raw =
    if is_blank raw
    then ok (record { keys = [] })
    else parse_entries (split b';' (trim_space raw)) empty >>= λ ks. ok (record { keys = ks })

-- Enabled
unfoldable pub is_enabled : ApiKeyConfig → Bool
is_enabled c = not (is_empty c.keys)

-- the loop of Authenticate
unfoldable pub find_key : String → List ApiKey → Option ApiKey
find_key token [] = none
find_key token (k ∷ ks) =
    if constant_time_string_equal k.secret token then some k else find_key token ks

unfoldable pub authenticate : ApiKeyConfig → String → Option ApiKey
authenticate c token = if is_blank token then none else find_key (trim_space token) c.keys

abbrev pub authorized : Option ApiKey → Result ApiKey
authorized none = err unauthorized
authorized (some k) = ok k

module _ ⦃folding : Folding⦄ where
  abbrev pub of_scheme : ApiKeyConfig → Option (String × String) → Result ApiKey
  of_scheme c none = err unauthorized
  of_scheme c (some (scheme, token)) =
      if not (equal_fold scheme "Bearer") || is_blank token
      then err unauthorized
      else authorized (authenticate c token)

  -- AuthenticateRequest, on the Authorization header
  unfoldable pub authenticate_request : ApiKeyConfig → String → Result ApiKey
  authenticate_request c header =
      if is_blank header then err unauthorized else of_scheme c (cut b' ' (trim_space header))
