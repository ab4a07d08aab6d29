-- ===== src/Setup/Process/Bound.antt =====
-- New of plugin.go: the key cache that each realm of an instance is bound to.
use traefik_plugin.Base.{
  true, false, Bool, ap, not, Option, none, some, List, Bytes, codes, str_eq, ◌≡◌, ◌≢◌, inl, inr,
  refl, sym, ◌∙◌, Bool-cases,
}
use traefik_plugin.Config.{Config, KeycloakRealm}
use traefik_plugin.Jwks.{JwksCache}
use traefik_plugin.Plugin.{GatewayPlugin, KeycloakRealmRuntime}
use traefik_plugin.Polling.{Caches}
use traefik_plugin.RateLimit.{RateLimiter}
use traefik_plugin.Redis.Client.{RespRedis}
use traefik_plugin.Redis.Operations.{Answer, answered, failed, crashed}
use traefik_plugin.Setup.{
  Built, built, lookup_realm, all_bound, bind_realms, runtime, runtime_of, new_configured,
  is_known_mode, build_keycloak_app_set, operator_realm_of, wrong_jwks_cache,
}
use traefik_plugin.Setup
use traefik_plugin.Registry.{AppRegistryCache}
use traefik_plugin.Snapshot.{SnapshotCache}
use traefik_plugin.Setup.Entries.{IsBinding}
use traefik_plugin.Setup.Realms.{
  build_keycloak_app_set-lookup_realm, with_realms-Bound, runtime_of-some, new_configured-realms,
}
use traefik_plugin.Setup.Process.{
  World, Process, key_sources, after_check, realm_sources, url_in, sources_of, with_caches,
  registry_of, limiter_of, snapshot_of, new_in_process, with_limiter,
}
use traefik_plugin.Setup.Process.Check.{new_configured-failed}
use traefik_plugin.Setup.Process.Sources.{
  IsNamed, HasCache, key_sources-IsNamed, key_sources-lookup_realm, operator_source-IsNamed,
  operator_source-HasCache,
}

module _ {S : Type 0} (w : World S) (cfg : Config) where
  -- What New leaves: never the error on a wrong cache; for an application of an instance that it built, the realm that is configured for
  -- that application, with the issuer of that realm and the cache that fetches from its URL.
  abbrev pub HasSources : Built GatewayPlugin → Caches JwksCache → Type 0
  HasSources (Setup.failed e) caches = e ≢ wrong_jwks_cache
  HasSources (built g) caches =
      (app : Bytes) (realm : KeycloakRealmRuntime)
      → g.keycloak_realms app ≡ some realm
      → (r : KeycloakRealm) × IsBinding cfg app r
        × (realm.issuer ≡ r.issuer)
        × ((c : JwksCache) × (caches realm.jwks ≡ some c) × (c.url ≡ r.jwks_url))

  abbrev pub IsSound : Option (Built GatewayPlugin × (Option RespRedis × Process S)) → Type 0
  IsSound none = Unit {0}
  IsSound (some (x, (client, p))) = IsNamed p.keys × HasSources x p.keys

  abbrev KeepsNames : Answer (Option RespRedis × Process S) → Type 0
  KeepsNames (answered (client, p)) = IsNamed p.keys
  KeepsNames failed = Unit {0}
  KeepsNames crashed = Unit {0}

  after_check-IsNamed :
      (ok : Bool) (p : Process S) → IsNamed p.keys → IsNamed ((after_check w cfg ok p).keys)
  after_check-IsNamed true p h =
      operator_source-IsNamed w cfg (operator_realm_of cfg.operator_realm) p h
  after_check-IsNamed false p h = h

  after_check-HasCache :
      (ok : Bool) (u : Bytes) (p : Process S)
      → HasCache u p.keys
      → HasCache u ((after_check w cfg ok p).keys)
  after_check-HasCache true u p h =
      operator_source-HasCache w cfg (operator_realm_of cfg.operator_realm) u p h
  after_check-HasCache false u p h = h

  sources_of-IsNamed :
      (x : Built (List (Bytes × KeycloakRealm))) (p : Process S)
      → IsNamed p.keys
      → IsNamed ((sources_of w cfg x p).keys)
  sources_of-IsNamed (Setup.failed e) p h = h
  sources_of-IsNamed (built realms) p h =
      let p' = key_sources w cfg realms p in
      after_check-IsNamed (all_bound (url_in p'.keys) (bind_realms realms) realms) p'
        (key_sources-IsNamed w cfg realms p h)

  sources_of-HasCache :
      (realms : List (Bytes × KeycloakRealm)) (app : Bytes) (r : KeycloakRealm) (p : Process S)
      → lookup_realm app realms ≡ some r
      → HasCache r.jwks_url ((sources_of w cfg (built realms) p).keys)
  sources_of-HasCache realms app r p h =
      let p' = key_sources w cfg realms p in
      after_check-HasCache (all_bound (url_in p'.keys) (bind_realms realms) realms) r.jwks_url p'
        (key_sources-lookup_realm w cfg realms app r p h)

  module _ (sc : SnapshotCache) (c : AppRegistryCache) where
    new_configured-HasSources :
        (cache_url : Bytes → Option Bytes) (x : Built GatewayPlugin) (p : Process S)
        → IsNamed p.keys
        → new_configured sc c true cache_url cfg ≢ Setup.failed wrong_jwks_cache
        → new_configured sc c true cache_url cfg ≡ x
        → HasSources x ((sources_of w cfg (build_keycloak_app_set cfg) p).keys)
    new_configured-HasSources cache_url (Setup.failed e) p h never same =
        λ wrong. never (same ∙ ap Setup.failed wrong)
    new_configured-HasSources cache_url (built g) p h never same = λ app realm bound_to.
        let (realms, set, bound) =
          with_realms-Bound sc c true cache_url cfg (build_keycloak_app_set cfg) g
            (new_configured-realms sc c true cache_url cfg g same) in
        let (r, listed, is_r) =
          runtime_of-some sc c true cache_url cfg (lookup_realm app realms) realm
            (sym (bound app) ∙ bound_to) in
        let binding = build_keycloak_app_set-lookup_realm cfg realms app r set listed in
        let (cache, there) = sources_of-HasCache realms app r p listed in
        let there' : (sources_of w cfg (build_keycloak_app_set cfg) p).keys realm.jwks
            ≡ some cache =
          rw (set, is_r) there in
        let named = sources_of-IsNamed (build_keycloak_app_set cfg) p h realm.jwks cache there' in
        (r, binding, ap (λ x. x.issuer) is_r, (cache, there', named ∙ ap (λ x. x.jwks) is_r))

    with_caches-IsSound :
        (p : Process S) (m : Answer (Option RespRedis × Process S))
        → IsNamed p.keys
        → KeepsNames m
        → IsSound (with_caches w cfg sc c p m)
    with_caches-IsSound p (answered (client, p')) h kept = (
      sources_of-IsNamed (build_keycloak_app_set cfg) p' kept,
      new_configured-HasSources
          (url_in ((realm_sources w cfg (build_keycloak_app_set cfg) p').keys)) _ p' kept
          (new_configured-failed sc c cfg w p' kept) refl,
    )
    with_caches-IsSound p failed h kept = (h, λ e. cc)
    with_caches-IsSound p crashed h kept = tt

  with_limiter-KeepsNames :
      (p : Process S) (m : Answer (RateLimiter (RespRedis × S) × (RespRedis × S)))
      → IsNamed p.keys
      → KeepsNames (with_limiter w cfg p m)
  with_limiter-KeepsNames p (answered (rl, (r, s))) h = h
  with_limiter-KeepsNames p failed h = tt
  with_limiter-KeepsNames p crashed h = tt

  limiter_of-KeepsNames : (p : Process S) → IsNamed p.keys → KeepsNames (limiter_of w cfg p)
  limiter_of-KeepsNames p h = elim (Bool-cases (not cfg.disable_rate_limit)) [
    | inl enabled ↦ rw enabled (with_limiter-KeepsNames p _ h)
    | inr disabled ↦ rw disabled h
  ]

  registry_of-IsNamed : (p : Process S) → IsNamed p.keys → IsNamed ((registry_of w cfg p).1.keys)
  registry_of-IsNamed p h =
      elim (Bool-cases (not (str_eq cfg.app_resolution_mode (codes "disabled")))) [
        | inl wanted ↦ rw wanted h
        | inr unwanted ↦ rw unwanted h
      ]

  -- Where every key cache of the process fetches from the URL that it is stored under, this holds after
  -- New as well, also where New returns an error, and the error is never that on a wrong cache. An
  -- instance that New builds trusts for an application the issuer of a realm that is configured for
  -- that very application, and the key cache that it is bound to is in the process and fetches from the
  -- URL of that realm.
  pub new_in_process-IsSound : (p : Process S) → IsNamed p.keys → IsSound (new_in_process w cfg p)
  unfolding new_in_process
  new_in_process-IsSound p h = elim (Bool-cases (not (is_known_mode cfg.authorization_mode))) [
    | inl unknown ↦ rw unknown (h, λ e. cc)
    | inr known ↦
        let (sc, p1) = snapshot_of w cfg p in
        let named = registry_of-IsNamed p1 h in
        rw known (
          with_caches-IsSound sc (registry_of w cfg p1).0 (registry_of w cfg p1).1
            (limiter_of w cfg (registry_of w cfg p1).1) named
            (limiter_of-KeepsNames (registry_of w cfg p1).1 named))
  ]
