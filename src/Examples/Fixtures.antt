-- ===== src/Examples/Fixtures.antt =====
-- The state is the clock. A small deployment: one application with a public and a protected endpoint, one policy, one realm.
use traefik_plugin.Base.{ℕ, true, false, Option, none, some, List, [], ◌∷◌, Bytes, codes, str_eq}
use traefik_plugin.Base.Int.{pos}
use traefik_plugin.Authz.{Statement, Policy, Binding, Principal}
use traefik_plugin.Config.{create_config}
use traefik_plugin.Http.{Headers, Request}
use traefik_plugin.Jwt.{Fields, Items, nil, cons, field, end, str, arr, obj, TokenHeader}
use traefik_plugin.Plugin.{GatewayPlugin, KeycloakRealmRuntime, Services, RateLimitResult}
use traefik_plugin.Registry.{AppRegistryDto, load}
use traefik_plugin.Snapshot.{SnapshotEndpointDto, CompiledEndpoint, SnapshotCache, literal_regex}
use traefik_plugin.Authz.{new_policy_index}

abbrev pub acme : Bytes
acme = codes "acme"

abbrev pub issuer : Bytes
issuer = codes "https://id/acme"

abbrev pub everything : Statement
everything = record { actions = codes "*" ∷ []; apps = codes "*" ∷ [] }

abbrev pub orders : Statement
orders = record {
  actions = codes "order.*" ∷ codes "authenticated" ∷ [];
  apps = codes "@home" ∷ [];
}

abbrev pub policies : List Policy
policies =
    record { name = codes "all"; statements = everything ∷ [] }
    ∷ record { name = codes "shop"; statements = orders ∷ [] }
    ∷ []

abbrev pub bindings : List Binding
bindings =
    record { role = codes "web:root"; policy = codes "all" }
    ∷ record { role = codes "web:buyer"; policy = codes "shop" }
    ∷ record { role = codes "web:ghost"; policy = codes "gone" }
    ∷ []

abbrev pub buyer : Principal
buyer = record {
  subject = codes "s-1";
  user_id = codes "42";
  home_app = acme;
  email = [];
  roles = codes "web:buyer" ∷ [];
  statements = orders ∷ [];
  bound_roles = codes "web:buyer" ∷ [];
  policies = codes "shop" ∷ [];
}

abbrev pub root : Principal
root = record buyer { statements = orders ∷ everything ∷ [] }

abbrev endpoint_dto : Bytes → Bytes → SnapshotEndpointDto
endpoint_dto path permission = record {
  uid = path;
  method = codes "GET";
  path = path;
  full_path = path;
  path_regex = [];
  access_level = codes "free";
  required_permission = permission;
  owner_param = [];
  tags = [];
  rate_limits = λ plan. none;
}

abbrev pub endpoint : Bytes → Bytes → Bytes → CompiledEndpoint
endpoint app path permission = record {
  endpoint = endpoint_dto path permission;
  app_id = app;
  regex = literal_regex path;
}

abbrev pub public_endpoint : CompiledEndpoint
public_endpoint = endpoint [] (codes "/a") []

abbrev pub protected_endpoint : CompiledEndpoint
protected_endpoint = endpoint acme (codes "/b") (codes "order.read")

abbrev pub snapshot : SnapshotCache
snapshot = record {
  loaded = true;
  compiled = public_endpoint ∷ protected_endpoint ∷ [];
  policies = some (new_policy_index policies bindings);
  version = codes "v1";
}

abbrev pub registry_dto : AppRegistryDto
registry_dto = record {
  version = codes "v1";
  hosts = (codes "Shop.Example", record { app_id = acme; status = codes "active" }) ∷ [];
  apps = [];
}

abbrev pub realm : KeycloakRealmRuntime
realm = record { issuer = issuer; jwks = codes "https://id/acme/certs" }

abbrev pub gateway : GatewayPlugin
gateway = record {
  config = create_config;
  snapshot = snapshot;
  app_registry = some (load registry_dto);
  has_rate_limiter = true;
  keycloak_realms = λ app. if_acme app;
  operator_realm = none;
  policy_mode = true;
}
  where
    if_acme : Bytes → Option KeycloakRealmRuntime
    if_acme app = elim (str_eq app acme) [ true ↦ some realm | false ↦ none ]

abbrev names : List Bytes → Items
names [] = nil
names (n ∷ ns) = cons (str n) (names ns)

-- A token of the realm for a user with one client role.
abbrev pub token_fields : Bytes → Fields
token_fields role = field (codes "iss") (str issuer) (
    field (codes "sub") (str (codes "s-1")) (
      field (codes "app_id") (str acme) (
        field (codes "azp") (str (codes "web")) (
          field (codes "resource_access")
            (obj
              (field (codes "web") (obj (field (codes "roles") (arr (names (role ∷ []))) end)) end))
            end))))

abbrev key_for_kid : Bytes → Bytes → ℕ → Option Bytes × ℕ
key_for_kid jwks kid s = (some kid, s)

-- A library that accepts every token, as one for the role root.
abbrev parse_jwt : Bytes → (TokenHeader → ℕ → Option Bytes × ℕ) → ℕ → Option Fields × ℕ
parse_jwt token keys s = elim (keys (record { is_rsa = true; kid = codes "k" }) s).0 [
  | none ↦ (none, s)
  | some _ ↦ (some (token_fields (codes "root")), s)
]

-- Only the public endpoint has budget left.
abbrev check_result : Bytes → RateLimitResult
check_result uid = record {
  allowed = str_eq uid (codes "/a");
  remaining = pos 0;
  limit = pos 30;
  reset_at = pos 2000000000;
}

abbrev pub services : Services ℕ
services = record {
  Key = Bytes;
  key_for_kid = key_for_kid;
  parse_jwt = parse_jwt;
  decode_iss = λ text. some issuer;
  resolve_plan = λ app user plan s. (plan, s);
  check = λ key uid limit window s. (some (check_result uid), s);
  now = λ s. s;
  fresh_request_id = λ s. (codes "rid", s);
}

abbrev pub no_headers : Headers
no_headers = λ k. []

abbrev pub request : Bytes → Headers → Request
request path headers = record {
  method = codes "GET";
  host = codes "shop.example:443";
  path = path;
  query = [];
  remote_addr = codes "10.0.0.1:80";
  headers = headers;
}
