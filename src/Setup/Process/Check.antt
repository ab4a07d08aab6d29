-- ===== src/Setup/Process/Check.antt =====
-- The loop of New in plugin.go that checks what the realms are bound to: it never finds a wrong cache.
use traefik_plugin.Base.{
  true, false, ◌&&◌, not, Option, none, some, List, [], ◌∷◌, Bytes, str_eq_iff, All, ◌≡◌, ◌≢◌, inl,
  inr, refl, ap, arith, Bool-cases,
}
use traefik_plugin.Config.{Config, KeycloakRealm}
use traefik_plugin.Jwks.{JwksCache}
use traefik_plugin.Plugin.{GatewayPlugin, KeycloakRealmRuntime}
use traefik_plugin.Polling.{Caches}
use traefik_plugin.Registry.{AppRegistryCache}
use traefik_plugin.Snapshot.{SnapshotCache}
use traefik_plugin.Setup.{
  Built, built, failed, lookup_realm, lookup_runtime, bind_realms, is_bound, all_bound,
  operator_realm_of, with_operator, with_realms, new_configured, is_known_mode, wrong_jwks_cache,
  build_keycloak_app_set,
}
use traefik_plugin.Setup
use traefik_plugin.Setup.Distinct.{WhenBuilt, build_keycloak_app_set-WhenBuilt, lookup_realm-IsMap}
use traefik_plugin.Setup.Realms.{lookup_runtime-bind_realms}
use traefik_plugin.Setup.Process.{World, Process, key_sources, realm_sources, url_in}
use traefik_plugin.Setup.Process.Sources.{
  IsNamed, HasCache, key_sources-IsNamed, key_sources-lookup_realm,
}

all_bound_lem :
    (cache_url : Bytes → Option Bytes) (bound : List (Bytes × KeycloakRealmRuntime))
    (realms xs : List (Bytes × KeycloakRealm))
    → ((app : Bytes) (r : KeycloakRealm)
        → lookup_realm app realms ≡ some r
        → is_bound cache_url (lookup_runtime app bound) r.jwks_url ≡ true)
    → All (λ e. lookup_realm e.0 realms ≡ some e.1) xs
    → all_bound cache_url bound xs ≡ true
unfolding all_bound
all_bound_lem cache_url bound realms [] f h = refl
all_bound_lem cache_url bound realms ((app, r) ∷ xs) f (here, h) =
    rw (f app r here) (all_bound_lem cache_url bound realms xs f h)

lookup_runtime-is_bound :
    (caches : Caches JwksCache) (realms : List (Bytes × KeycloakRealm)) (app : Bytes)
    (r : KeycloakRealm)
    → IsNamed caches
    → HasCache r.jwks_url caches
    → lookup_realm app realms ≡ some r
    → is_bound (url_in caches) (lookup_runtime app (bind_realms realms)) r.jwks_url ≡ true
lookup_runtime-is_bound caches realms app r named (c, there) listed =
    rw (lookup_runtime-bind_realms realms app, listed, there)
      ((str_eq_iff c.url r.jwks_url).1 (named r.jwks_url c there))

operator_realm_of-failed : (op : KeycloakRealm) → operator_realm_of op ≢ failed wrong_jwks_cache
unfolding operator_realm_of
operator_realm_of-failed op h = ground arith

module _ (sc : SnapshotCache) (c : AppRegistryCache) (cfg : Config) where
  with_operator-failed :
      (cache_url : Bytes → Option Bytes) (bound : List (Bytes × KeycloakRealmRuntime))
      (o : Built (Option KeycloakRealmRuntime))
      → o ≢ failed wrong_jwks_cache
      → with_operator sc c true cache_url cfg bound o ≢ failed wrong_jwks_cache
  with_operator-failed cache_url bound (built operator) h e = cc
  with_operator-failed cache_url bound (failed x) h e = h (ap again e)
    where
      again : Built GatewayPlugin → Built (Option KeycloakRealmRuntime)
      again (built g) = built none
      again (failed y) = failed y

  module _ {S : Type 0} (w : World S) (p : Process S) where
    with_realms-failed :
        (x : Built (List (Bytes × KeycloakRealm)))
        → WhenBuilt x
        → IsNamed p.keys
        → with_realms sc c true (url_in ((realm_sources w cfg x p).keys)) cfg x
          ≢ failed wrong_jwks_cache
    with_realms-failed (failed e) h named same = h (ap reason same)
      where
        reason : Built GatewayPlugin → Setup.NewError
        reason (built g) = e
        reason (failed y) = y
    with_realms-failed (built realms) h named same =
        let caches = (key_sources w cfg realms p).keys in
        let right : all_bound (url_in caches) (bind_realms realms) realms ≡ true =
          all_bound_lem (url_in caches) (bind_realms realms) realms realms
            (λ app r listed.
              lookup_runtime-is_bound caches realms app r (key_sources-IsNamed w cfg realms p named)
                (key_sources-lookup_realm w cfg realms app r p listed) listed)
            (lookup_realm-IsMap realms h) in
        with_operator-failed (url_in caches) (bind_realms realms) _
          (operator_realm_of-failed cfg.operator_realm) (rw right at same)

    -- New never ends with the error on a wrong cache.
    pub new_configured-failed :
        IsNamed p.keys
        → new_configured sc c true
            (url_in ((realm_sources w cfg (build_keycloak_app_set cfg) p).keys))
            cfg
          ≢ failed wrong_jwks_cache
    unfolding new_configured
    new_configured-failed named =
        let rest =
          with_realms-failed (build_keycloak_app_set cfg) (build_keycloak_app_set-WhenBuilt cfg)
            named in
        elim (Bool-cases (not (is_known_mode cfg.authorization_mode))) [
          | inl bad ↦ rw bad (λ e. cc)
          | inr good ↦ rw good (elim (Bool-cases (not cfg.disable_rate_limit && false)) [
            | inl down ↦ rw down (λ e. cc)
            | inr up ↦ rw up rest
          ])
        ]
