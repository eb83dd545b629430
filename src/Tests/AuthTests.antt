-- ===== src/Tests/AuthTests.antt =====
-- The API keys at a concrete configuration.
use mathlib.Core.List.{Memᴰ}
use agent_secyrity.Prelude.{String, ◌≡◌, refl, true, false, some, [], ◌∷◌, arith, eq_iff}
use agent_secyrity.Strings.{trim_space, is_blank, split, cut, fold_rune, equal_fold}
use agent_secyrity.Maps.{empty, lookup, insert}
use agent_secyrity.Domain.Errors.{ok, err, unauthorized}
use agent_secyrity.Auth.{
  ApiKey, ApiKeyConfig, allows_tenant, constant_time_string_equal, add_tenants, parse_parts,
  parse_api_key, parse_entries, parse_api_keys, find_key, authenticate, authenticate_request,
}
use agent_secyrity.Auth.Keyring.{HasDistinctSecrets, IsConfig, parse_api_keys-IsConfig}
use agent_secyrity.Auth.Laws.{authenticate_iff}
use agent_secyrity.Tests.Fixtures.{ascii}

abbrev raw : String
raw = "ops:s1:*; dev : s2 :tenant-a, tenant-b"

abbrev pub ops : ApiKey
ops = record { id = "ops"; secret = "s1"; allowed_tenants = empty; allow_all_tenants = true }

abbrev pub dev : ApiKey
dev = record {
  id = "dev";
  secret = "s2";
  allowed_tenants = record { entries = ("tenant-a", tt) ∷ ("tenant-b", tt) ∷ [] };
  allow_all_tenants = false;
}

abbrev pub config : ApiKeyConfig
config = record { keys = ops ∷ dev ∷ [] }

auth_run : Unit {0}
unfolding trim_space is_blank split cut fold_rune equal_fold lookup insert allows_tenant
    constant_time_string_equal add_tenants parse_parts parse_api_key parse_entries parse_api_keys
    find_key authenticate authenticate_request
auth_run = tt

parsed : parse_api_keys raw ≡ ok config
unfolding auth_run
parsed = refl

let_in : authenticate_request config " bearer  s2" ≡ ok dev
unfolding auth_run
let_in = refl

turned_away : authenticate_request config "Basic s2" ≡ err unauthorized
unfolding auth_run
turned_away = refl

other_tenant : allows_tenant dev "tenant-c" ≡ false
unfolding auth_run
other_tenant = refl

config_distinct : HasDistinctSecrets config.keys
config_distinct = ((ground (arith, eq_iff dev.secret ops.secret), tt), (tt, tt))

parse_api_keys-IsConfig_example : IsConfig (parse_api_keys raw)
parse_api_keys-IsConfig_example = parse_api_keys-IsConfig raw

authenticate_iff_example :
    (authenticate config " s2" ≡ some dev
      → Memᴰ dev config.keys × (dev.secret ≡ trim_space " s2") × (is_blank " s2" ≡ false))
    × (Memᴰ dev config.keys × (dev.secret ≡ trim_space " s2") × (is_blank " s2" ≡ false)
        → authenticate config " s2" ≡ some dev)
authenticate_iff_example = authenticate_iff config " s2" dev config_distinct
