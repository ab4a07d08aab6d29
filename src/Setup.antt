-- ===== src/Setup.antt =====
-- New and buildKeycloakAppSet of plugin.go. The shared caches of the snapshot and of the registry and
-- the outcome of newRateLimiter are arguments, for which Process calls the code; a shared key source is
-- named by its URL.
pub mod Entries
pub mod Distinct
pub mod Realms
pub mod Process
use traefik_plugin.Base.{
  Bool, true, false, ◌&&◌, ◌||◌, not, Option, none, some, List, [], ◌∷◌, Bytes, codes, str_eq,
  trim_space, to_lower, equal_fold, is_empty, if◌then◌else◌,
}
use traefik_plugin.Config.{Config, KeycloakRealm, create_config}
use traefik_plugin.Helpers.{or_same}
use traefik_plugin.Base.Decimal.{all}
use traefik_plugin.Plugin.{GatewayPlugin, KeycloakRealmRuntime}
use traefik_plugin.Registry.{AppRegistryCache}
use traefik_plugin.Snapshot.{SnapshotCache}

pub data NewError : Type 0 where
  unknown_authorization_mode : Bytes → NewError
  redis_init_failed : NewError
  no_jwks_url : NewError
  no_issuer : NewError
  incomplete_realm : Bytes → NewError
  wrong_jwks_cache : NewError
  incomplete_operator_realm : NewError

-- The results (x, nil) and (nil, err).
pub data Built {ℓ} (A : Type ℓ) : Type ℓ where
  built : A → Built A
  failed : NewError → Built A

-- realms[app] = r
unfoldable pub insert_realm :
    Bytes → KeycloakRealm → List (Bytes × KeycloakRealm) → List (Bytes × KeycloakRealm)
insert_realm app r [] = (app, r) ∷ []
insert_realm app r ((a, q) ∷ m) =
    let rest = insert_realm app r m in if str_eq a app then (app, r) ∷ m else (a, q) ∷ rest

unfoldable pub lookup_realm : Bytes → List (Bytes × KeycloakRealm) → Option KeycloakRealm
lookup_realm app [] = none
lookup_realm app ((a, r) ∷ m) =
    let rest = lookup_realm app m in if str_eq a app then some r else rest

abbrev pub scalar_realm : Config → Bytes → KeycloakRealm
scalar_realm cfg app = record {
  app_id = app;
  issuer = cfg.keycloak_issuer;
  jwks_url = cfg.keycloak_jwks_url;
}

-- The loop over keycloakApps.
unfoldable pub add_apps :
    Config → List Bytes → List (Bytes × KeycloakRealm) → Built (List (Bytes × KeycloakRealm))
add_apps cfg [] realms = built realms
add_apps cfg (a ∷ apps) realms =
    let app = trim_space a in
    let skipped = add_apps cfg apps realms in
    let added = add_apps cfg apps (insert_realm app (scalar_realm cfg app) realms) in
    if is_empty app
    then skipped
    else if is_empty cfg.keycloak_jwks_url
    then failed no_jwks_url
    else if is_empty cfg.keycloak_issuer
    then failed no_issuer
    else added

abbrev pub named_realm : KeycloakRealm → KeycloakRealm
named_realm r = record r { app_id = trim_space r.app_id }

-- The loop over keycloakRealms.
unfoldable pub add_realms :
    List KeycloakRealm → List (Bytes × KeycloakRealm) → Built (List (Bytes × KeycloakRealm))
add_realms [] realms = built realms
add_realms (r ∷ rs) realms =
    let app = trim_space r.app_id in
    let added = add_realms rs (insert_realm app (named_realm r) realms) in
    if is_empty app || is_empty r.issuer || is_empty r.jwks_url
    then failed (incomplete_realm app)
    else added

abbrev pub then_realms :
    List KeycloakRealm → Built (List (Bytes × KeycloakRealm)) → Built (List (Bytes × KeycloakRealm))
then_realms rs (failed e) = failed e
then_realms rs (built realms) = add_realms rs realms

unfoldable pub build_keycloak_app_set : Config → Built (List (Bytes × KeycloakRealm))
build_keycloak_app_set cfg = then_realms cfg.keycloak_realms (add_apps cfg cfg.keycloak_apps [])

abbrev pub runtime : KeycloakRealm → KeycloakRealmRuntime
runtime r = record { issuer = r.issuer; jwks = r.jwks_url }

abbrev pub runtime_of : Option KeycloakRealm → Option KeycloakRealmRuntime
runtime_of none = none
runtime_of (some r) = some (runtime r)

-- The realm of the operators, where it is configured at all.
unfoldable pub operator_realm_of : KeycloakRealm → Built (Option KeycloakRealmRuntime)
operator_realm_of op =
    if not (is_empty op.issuer) || not (is_empty op.jwks_url)
    then (if is_empty op.issuer || is_empty op.jwks_url
        then failed incomplete_operator_realm
        else built (some (runtime op)))
    else built none

unfoldable pub is_known_mode : Bytes → Bool
is_known_mode mode =
    let m = to_lower (trim_space mode) in
    is_empty m || str_eq m (codes "legacy") || str_eq m (codes "policy")

-- The loop that fills plugin.keycloakRealms; a realm's key cache is named by its URL.
unfoldable pub bind_realms : List (Bytes × KeycloakRealm) → List (Bytes × KeycloakRealmRuntime)
bind_realms [] = []
bind_realms ((app, r) ∷ realms) = (app, runtime r) ∷ bind_realms realms

unfoldable pub lookup_runtime :
    Bytes → List (Bytes × KeycloakRealmRuntime) → Option KeycloakRealmRuntime
lookup_runtime app [] = none
lookup_runtime app ((a, r) ∷ m) =
    let rest = lookup_runtime app m in if str_eq a app then some r else rest

-- cache_url is the field url of the key cache that a realm is bound to, by the cache's name.
module _ (cache_url : Bytes → Option Bytes) where
  abbrev pub url_matches : Option Bytes → Bytes → Bool
  url_matches none want = false
  url_matches (some url) want = str_eq url want

  -- The URL of the cache that is bound is the wanted one.
  abbrev pub is_bound : Option KeycloakRealmRuntime → Bytes → Bool
  is_bound none want = false
  is_bound (some realm) want = url_matches (cache_url realm.jwks) want

  -- The loop that checks what the realms are bound to.
  unfoldable pub all_bound :
      List (Bytes × KeycloakRealmRuntime) → List (Bytes × KeycloakRealm) → Bool
  all_bound bound [] = true
  all_bound bound ((app, r) ∷ realms) =
      is_bound (lookup_runtime app bound) r.jwks_url && all_bound bound realms

module _ (snapshot : SnapshotCache) (registry : AppRegistryCache) (redis_ok : Bool)
    (cache_url : Bytes → Option Bytes) where
  abbrev plugin_of :
      Config → List (Bytes × KeycloakRealmRuntime) → Option KeycloakRealmRuntime → GatewayPlugin
  plugin_of cfg bound operator = record {
    config = cfg;
    snapshot = snapshot;
    app_registry =
        if not (str_eq cfg.app_resolution_mode (codes "disabled")) then some registry else none;
    has_rate_limiter = not cfg.disable_rate_limit;
    keycloak_realms = λ app. lookup_runtime app bound;
    operator_realm = operator;
    policy_mode = equal_fold cfg.authorization_mode (codes "policy");
  }

  abbrev pub with_operator :
      Config
      → List (Bytes × KeycloakRealmRuntime)
      → Built (Option KeycloakRealmRuntime)
      → Built GatewayPlugin
  with_operator cfg bound (failed e) = failed e
  with_operator cfg bound (built operator) = built (plugin_of cfg bound operator)

  abbrev pub with_realms : Config → Built (List (Bytes × KeycloakRealm)) → Built GatewayPlugin
  with_realms cfg (failed e) = failed e
  with_realms cfg (built realms) =
      if not (all_bound cache_url (bind_realms realms) realms)
      then failed wrong_jwks_cache
      else with_operator cfg (bind_realms realms) (operator_realm_of cfg.operator_realm)

  unfoldable pub new_configured : Config → Built GatewayPlugin
  new_configured cfg =
      if not (is_known_mode cfg.authorization_mode)
      then failed (unknown_authorization_mode cfg.authorization_mode)
      else if not cfg.disable_rate_limit && not redis_ok
      then failed redis_init_failed
      else with_realms cfg (build_keycloak_app_set cfg)

  unfoldable pub new : Option Config → Built GatewayPlugin
  new config = new_configured (or_same config create_config)
