-- ===== src/Examples/Requests.antt =====
-- The laws of the two engines and of the gateway at the fixture's deployment.
use traefik_plugin.Base.{
  ℕ, Bool, true, false, Option, none, some, List, [], ◌∷◌, Bytes, codes, is_empty, trim_space,
  has_prefix, has_suffix, trim_prefix, split, cut, to_lower, equal_fold, drop_last, arith, ◌≡◌, ◌≢◌,
  ◌⊎◌, inl, inr, refl, str_eq,
}
use traefik_plugin.Base.Base64.{decode_raw_url}
use traefik_plugin.Helpers.{normalize_host, split_host_port}
use traefik_plugin.Authz.{
  granted, is_wildcard, some_action, covers_app, match_action, match_app, token_issuer,
  resolve_statements, bind_roles, bind_role, new_policy_index, add_policies, add_binding,
  add_bindings, qualify_roles, add_roles, add_role,
}
use traefik_plugin.Config.{create_config}
use traefik_plugin.Http.{Headers, Request, get, set, canonical, recase}
use traefik_plugin.Jwt.{
  TokenClaims, authenticated, token_claims, parse_keycloak_jwt, key_func, accept_claims, claim,
  keycloak_role_sets, client_role_items, realm_role_items, collect,
}
use traefik_plugin.Plugin.{
  replied, error, ensure_request_id, GatewayPlugin, Outcome, forwarded, has_legacy_api_key,
  set_header, resolution_host, keycloak_realm_for, parse_keycloak_auth, forward,
}
use traefik_plugin.Caller.{principal_for, stamp_claims, stamp_anonymous, choose_realm}
use traefik_plugin.Policy.{
  authenticate, serve_endpoint, serve_policy, limit_and_forward, serve_authenticated, serve_granted,
  serve_target, serve_anonymous, apply_rate_limit,
}
use traefik_plugin.Policy.Gate.{Passes, serve_endpoint-Passes}
use traefik_plugin.Policy.Admin.{serve_endpoint-admin}
use traefik_plugin.Policy.Target.{IsRouted, serve_policy-IsRouted, aimed}
use traefik_plugin.Policy.Limit.{Verdict, limit_and_forward-limited}
use traefik_plugin.Legacy.{serve_legacy}
use traefik_plugin.Legacy.Gate.{serve_legacy-IsGuarded, IsGuarded}
use traefik_plugin.Registry.{
  AppRegistryCache, load, resolve_host, lookup_host, place_hosts, place_host, place_normalized,
  insert_host,
}
use traefik_plugin.Snapshot.{CompiledEndpoint, match_endpoint, scan}
use traefik_plugin.Gateway.{
  serve_identified, cors_origin, is_preflight, strip_trust_headers, serve_http, serve_stripped,
  serve_resolved, resolve_app, snapshot_cold,
}
use traefik_plugin.Gateway.Trust.{Agrees, is_trusted, serve_http-Agrees}
use traefik_plugin.Gateway.Enforce.{serve_http-enforce, serve_stripped-refused}
use traefik_plugin.Examples.Fixtures.{
  acme, gateway, services, token_fields, request, no_headers, protected_endpoint, registry_dto,
}

-- A request with a forged admin header.
abbrev forged : Request
forged = request (codes "/a") (set no_headers (codes "X-Is-Admin") (codes "true"))

abbrev plain : Request
plain = request (codes "/a") no_headers

forged-Agrees : Agrees create_config forged plain
unfolding is_trusted set
forged-Agrees = record {
  method = refl;
  host = refl;
  path = refl;
  query = refl;
  remote_addr = refl;
  others = λ j h. ground arith;
}

serve_http-Agrees_example :
    serve_http services gateway no_headers forged 5 ≡ serve_http services gateway no_headers plain 5
unfolding is_trusted get str_eq canonical set
serve_http-Agrees_example =
    serve_http-Agrees services gateway no_headers forged plain 5
      (record { request_id = refl; origin = refl }) forged-Agrees (inr refl)

-- The bearer of the role web:root.
abbrev bearer : Request
bearer = request (codes "/b") (set no_headers (codes "Authorization") (codes "Bearer a.e30.c"))

abbrev claims : TokenClaims
claims =
    token_claims (token_fields (codes "root")) (codes "luid") (codes "admin" ∷ codes "owner" ∷ [])

abbrev stamped : Request
stamped =
    stamp_claims create_config claims (principal_for gateway claims) true (codes "free") bearer

serve_endpoint-Passes_example :
    ((false ≡ true) ⊎ (has_legacy_api_key bearer (codes "Authorization") ≡ false))
    × Passes services gateway protected_endpoint acme bearer stamped
        (authenticate services gateway acme (get bearer.headers (codes "Authorization")) 5).0
unfolding serve_endpoint has_legacy_api_key has_prefix trim_space get set str_eq canonical recase
    trim_prefix authenticate choose_realm keycloak_realm_for token_issuer split decode_raw_url
    parse_keycloak_auth parse_keycloak_jwt key_func accept_claims claim serve_authenticated granted
    some_action covers_app match_action has_suffix serve_granted is_wildcard limit_and_forward
    forward principal_for resolve_statements bind_roles bind_role new_policy_index add_policies
    add_binding add_bindings token_claims qualify_roles keycloak_role_sets client_role_items
    realm_role_items collect add_roles add_role traefik_plugin.Authz.match_app
serve_endpoint-Passes_example =
    serve_endpoint-Passes services gateway protected_endpoint acme bearer stamped no_headers
      no_headers 5 5 refl

true_text : codes "true" ≢ []
true_text e = cc

serve_endpoint-admin_example :
    (c : TokenClaims) × ((authenticate services gateway acme
        (get bearer.headers (codes "Authorization"))
        5).0
      ≡ authenticated c)
    × (is_wildcard (some (principal_for gateway c)) acme ≡ true)
unfolding stamp_claims match_app serve_endpoint has_legacy_api_key has_prefix trim_space get set
    str_eq canonical recase trim_prefix authenticate choose_realm keycloak_realm_for token_issuer
    split decode_raw_url parse_keycloak_auth parse_keycloak_jwt key_func accept_claims claim
    serve_authenticated granted some_action covers_app match_action has_suffix serve_granted
    is_wildcard limit_and_forward forward principal_for resolve_statements bind_roles bind_role
    new_policy_index add_policies add_binding add_bindings token_claims qualify_roles
    keycloak_role_sets client_role_items realm_role_items collect add_roles add_role
    traefik_plugin.Http.del
serve_endpoint-admin_example =
    serve_endpoint-admin services gateway protected_endpoint acme bearer stamped no_headers
      no_headers 5 5 (refl, (refl, (refl, (refl, (refl, (refl, (refl, tt))))))) refl refl true_text

abbrev unlimited : GatewayPlugin
unlimited = record gateway { has_rate_limiter = false }

serve_policy-IsRouted_example :
    IsRouted services unlimited acme [] no_headers no_headers plain
      (stamp_anonymous create_config (aimed unlimited acme plain))
      5
      5
unfolding serve_policy serve_target match_endpoint scan serve_endpoint has_legacy_api_key has_prefix
    trim_space get set str_eq canonical recase trim_prefix authenticate serve_anonymous
    limit_and_forward apply_rate_limit forward stamp_anonymous
serve_policy-IsRouted_example =
    serve_policy-IsRouted services unlimited acme [] no_headers no_headers plain
      (stamp_anonymous create_config (aimed unlimited acme plain)) 5 5 refl

limit_and_forward-limited_example :
    Verdict services gateway protected_endpoint
      (codes "k")
      (codes "free")
      no_headers
      plain
      5
      false
      (limit_and_forward services gateway protected_endpoint false
        (codes "k")
        (codes "free")
        no_headers
        plain
        5)
limit_and_forward-limited_example =
    limit_and_forward-limited services gateway protected_endpoint (codes "k") (codes "free")
      no_headers plain 5 false

serve_legacy-IsGuarded_example :
    IsGuarded services unlimited acme no_headers plain 5
      (forwarded (stamp_anonymous create_config plain) no_headers)
unfolding serve_legacy match_endpoint traefik_plugin.Snapshot.scan str_eq
    traefik_plugin.Legacy.serve_endpoint has_legacy_api_key traefik_plugin.Base.has_prefix
    trim_space get traefik_plugin.Base.trim_prefix traefik_plugin.Legacy.authenticate
    traefik_plugin.Plugin.keycloak_realm_for traefik_plugin.Plugin.parse_keycloak_auth
    traefik_plugin.Legacy.serve_anonymous traefik_plugin.Legacy.required_permission_of
    traefik_plugin.Legacy.limit_and_forward traefik_plugin.Plugin.forward
serve_legacy-IsGuarded_example = serve_legacy-IsGuarded services unlimited acme no_headers plain 5

abbrev elsewhere : Request
elsewhere = record plain { host = codes "other.example" }

serve_http-enforce_example :
    (true ≡ true)
    × ((app : Bytes) × (resolve_host (load registry_dto) (
            resolution_host create_config (
              strip_trust_headers create_config
                (ensure_request_id services no_headers plain 5).0.1))
          ≡ some app))
unfolding serve_http serve_identified ensure_request_id cors_origin is_preflight serve_stripped
    serve_resolved resolve_app strip_trust_headers snapshot_cold resolve_host lookup_host load
    place_hosts place_host place_normalized insert_host equal_fold normalize_host split_host_port
    cut to_lower has_suffix drop_last resolution_host serve_policy serve_target match_endpoint scan
    serve_endpoint has_legacy_api_key has_prefix trim_space get set str_eq canonical recase
    trim_prefix authenticate serve_anonymous limit_and_forward apply_rate_limit forward
    stamp_anonymous traefik_plugin.Http.del
serve_http-enforce_example =
    serve_http-enforce unlimited (load registry_dto) refl refl services no_headers
      (set no_headers (codes "X-Request-ID") (codes "rid")) plain
      (stamp_anonymous create_config (
        aimed unlimited acme (
          set_header
            (strip_trust_headers create_config
              (set_header plain (codes "X-Request-ID") (codes "rid")))
            (codes "X-App-Id") acme)))
      5 5 refl

serve_stripped-refused_example : serve_stripped services gateway no_headers elsewhere 5 ≡ (
  replied 403
      (set no_headers (codes "Content-Type") (codes "application/json"))
      (error (codes "unknown_app") (codes "host is not mapped to an active application")),
  5,
)
unfolding resolve_host traefik_plugin.Registry.lookup_host load traefik_plugin.Registry.place_hosts
    traefik_plugin.Registry.place_host traefik_plugin.Base.equal_fold
    traefik_plugin.Registry.place_normalized traefik_plugin.Base.has_prefix
    traefik_plugin.Helpers.normalize_host traefik_plugin.Base.has_suffix
    traefik_plugin.Helpers.split_host_port trim_space traefik_plugin.Base.cut
    traefik_plugin.Registry.insert_host resolution_host strip_trust_headers
    traefik_plugin.Registry.match_wildcard
serve_stripped-refused_example =
    serve_stripped-refused gateway (load registry_dto) refl refl services no_headers elsewhere 5
      refl
