-- ===== src/Examples/Setup.antt =====
-- Construction of the plugin at a concrete configuration, and the law of its realms there.
use traefik_plugin.Base.{
  Bool, true, false, some, none, [], ◌∷◌, codes, ◌≡◌, refl, str_eq, trim_space, to_lower,
  equal_fold,
}
use traefik_plugin.Config.{Config, KeycloakRealm, create_config}
use traefik_plugin.Plugin.{GatewayPlugin}
use traefik_plugin.Registry.{new_app_registry_cache}
use traefik_plugin.Setup.{
  Built, built, failed, new_configured, build_keycloak_app_set, add_apps, add_realms, insert_realm,
  lookup_realm, operator_realm_of, is_known_mode, runtime, lookup_runtime, bind_realms,
  scalar_realm, named_realm,
}
use traefik_plugin.Setup.Entries.{IsBinding}
use traefik_plugin.Setup.Realms.{new_configured-IsBinding}
use traefik_plugin.Examples.Fixtures.{acme, issuer, snapshot}

abbrev own_realm : KeycloakRealm
own_realm = record {
  app_id = codes " acme ";
  issuer = issuer;
  jwks_url = codes "https://id/acme/certs";
}

abbrev pub settings : Config
settings = record create_config {
  keycloak_apps = codes "shop" ∷ codes " " ∷ [];
  keycloak_issuer = codes "https://id/shared";
  keycloak_jwks_url = codes "https://id/shared/certs";
  keycloak_realms = own_realm ∷ [];
}

abbrev plugin : GatewayPlugin
plugin = record {
  config = settings;
  snapshot = snapshot;
  app_registry = some new_app_registry_cache;
  has_rate_limiter = true;
  keycloak_realms = λ app. lookup_runtime app (
      (codes "shop", runtime (scalar_realm settings (codes "shop")))
      ∷ (acme, runtime (named_realm own_realm))
      ∷ []);
  operator_realm = none;
  policy_mode = false;
}

new_configured-IsBinding_example :
    (r : KeycloakRealm) × (runtime own_realm ≡ runtime r) × IsBinding settings acme r
unfolding new_configured is_known_mode to_lower trim_space str_eq build_keycloak_app_set add_apps
    add_realms insert_realm operator_realm_of equal_fold lookup_realm traefik_plugin.Setup.all_bound
    lookup_runtime bind_realms
new_configured-IsBinding_example =
    new_configured-IsBinding snapshot new_app_registry_cache true (λ url. some url) settings plugin
      acme (runtime own_realm) refl refl

abbrev padded : Config
padded = record settings { authorization_mode = codes " policy " }

mode_in : Built GatewayPlugin → Bool
mode_in (built p) = p.policy_mode
mode_in (failed e) = true

-- The padded mode is accepted, and runs the legacy engine.
padded_mode :
    mode_in (new_configured snapshot new_app_registry_cache true (λ url. some url) padded) ≡ false
unfolding new_configured mode_in is_known_mode to_lower trim_space str_eq build_keycloak_app_set
    add_apps add_realms insert_realm operator_realm_of equal_fold traefik_plugin.Setup.all_bound
    lookup_runtime bind_realms
padded_mode = refl
