-- ===== src/Setup/Process.antt =====
-- New of plugin.go within a process: the caches that it asks for, the limiter that it makes, and what
-- it leaves behind. The realms are taken in the order of the list that stands for their map.
pub mod Sources
pub mod Check
pub mod Bound
use traefik_plugin.Base.{
  ℕ, ◌*◌, ◌^◌, Bool, true, false, not, Option, none, some, List, [], ◌∷◌, Bytes, codes, str_eq,
  if◌then◌else◌,
}
use traefik_plugin.Base.Int.{ℤ, pos}
use traefik_plugin.Config.{Config, KeycloakRealm, create_config, parse_duration}
use traefik_plugin.Helpers.{or_same}
use traefik_plugin.Jwks.{JwksDocument, JwksCache}
use traefik_plugin.Plugin.{GatewayPlugin, KeycloakRealmRuntime}
use traefik_plugin.Polling.{
  Caches, get_shared_app_registry_cache, get_shared_snapshot_cache, get_shared_jwks_cache,
}
use traefik_plugin.RateLimit.{RateLimiter, new_rate_limiter}
use traefik_plugin.Redis.Client.{Network, RespRedis}
use traefik_plugin.Redis.Operations.{Url, Answer, answered, failed, crashed}
use traefik_plugin.Registry.{Fetch, AppRegistryDto, AppRegistryCache, new_app_registry_cache}
use traefik_plugin.Setup.{
  Built, built, NewError, unknown_authorization_mode, redis_init_failed, is_known_mode,
  build_keycloak_app_set, operator_realm_of, all_bound, bind_realms, new_configured,
}
use traefik_plugin.Setup
use traefik_plugin.Snapshot.{Regex, SnapshotDto, SnapshotCache}

-- What New and the caches use of other code: the HTTP client, the network with its clock, the decoders,
-- regexp.Compile, url.Parse and time.ParseDuration.
pub record World (S : Type 0) : Type 0 where
  pub fetch : Bytes → S → Fetch × S
  pub net : Network S
  pub decode_version : Bytes → Option Bytes
  pub decode_registry : Bytes → Option AppRegistryDto
  pub compile : Bytes → Option Regex
  pub decode_snapshot : Bytes → Option SnapshotDto
  pub decode_keys : Bytes → Option JwksDocument
  pub parse_url : Bytes → Option Url
  pub parse_time : Bytes → Option ℤ

-- The shared caches of the process, and the state of the world.
pub record Process (S : Type 0) : Type 0 where
  pub snapshots : Caches SnapshotCache
  pub registries : Caches AppRegistryCache
  pub keys : Caches JwksCache
  pub world : S

abbrev half_minute : ℤ
half_minute = pos (30 * 10 ^ 9)

-- The URL that the cache stored under a name fetches from.
abbrev pub url_of : Option JwksCache → Option Bytes
url_of none = none
url_of (some c) = some (c.url)

abbrev pub url_in : Caches JwksCache → Bytes → Option Bytes
url_in caches name = url_of (caches name)

module _ {S : Type 0} (w : World S) (cfg : Config) where
  abbrev pub jwks_cooldown : ℤ
  jwks_cooldown = parse_duration w.parse_time cfg.jwks_refetch_cooldown half_minute

  abbrev pub with_snapshots :
      Process S → SnapshotCache × (Caches SnapshotCache × S) → SnapshotCache × Process S
  with_snapshots p (sc, (caches, s)) = (sc, record p { snapshots = caches; world = s })

  abbrev pub snapshot_of : Process S → SnapshotCache × Process S
  snapshot_of p = with_snapshots p (
      get_shared_snapshot_cache w.fetch w.decode_version w.compile w.decode_snapshot
        cfg.service_service_url (p.snapshots, p.world))

  abbrev pub with_registries :
      Process S → AppRegistryCache × (Caches AppRegistryCache × S) → AppRegistryCache × Process S
  with_registries p (c, (caches, s)) = (c, record p { registries = caches; world = s })

  -- In the mode disabled there is no registry, and new_configured does not look at it.
  abbrev pub registry_of : Process S → AppRegistryCache × Process S
  registry_of p =
      if not (str_eq cfg.app_resolution_mode (codes "disabled"))
      then with_registries p (
          get_shared_app_registry_cache w.fetch w.decode_version w.decode_registry
            cfg.application_service_url (p.registries, p.world))
      else (new_app_registry_cache, p)

  abbrev pub with_limiter :
      Process S
      → Answer (RateLimiter (RespRedis × S) × (RespRedis × S))
      → Answer (Option RespRedis × Process S)
  with_limiter p (answered (rl, (r, s))) = answered (some r, record p { world = s })
  with_limiter p failed = failed
  with_limiter p crashed = crashed

  -- The limiter's client, where rate limits are enabled.
  abbrev pub limiter_of : Process S → Answer (Option RespRedis × Process S)
  limiter_of p =
      if not cfg.disable_rate_limit
      then with_limiter p (
          new_rate_limiter w.net w.parse_url cfg.redis_url cfg.redis_password cfg.redis_prefix
            cfg.redis_db p.world)
      else answered (none, p)

  abbrev pub with_keys : Process S → JwksCache × (Caches JwksCache × S) → Process S
  with_keys p (c, (caches, s)) = record p { keys = caches; world = s }

  unfoldable pub key_source : Bytes → Process S → Process S
  key_source url p =
      with_keys p
        (get_shared_jwks_cache w.fetch w.decode_keys w.net.now jwks_cooldown url (p.keys, p.world))

  -- The loop over the realms.
  unfoldable pub key_sources : List (Bytes × KeycloakRealm) → Process S → Process S
  key_sources [] p = p
  key_sources ((app, r) ∷ realms) p = key_sources realms (key_source r.jwks_url p)

  abbrev pub operator_source : Built (Option KeycloakRealmRuntime) → Process S → Process S
  operator_source (Setup.failed e) p = p
  operator_source (built none) p = p
  operator_source (built (some r)) p = key_source r.jwks p

  -- The key caches after the loop over the realms.
  abbrev pub realm_sources : Built (List (Bytes × KeycloakRealm)) → Process S → Process S
  realm_sources (Setup.failed e) p = p
  realm_sources (built realms) p = key_sources realms p

  -- The operators' key cache, where the check of the bound caches lets New come so far.
  abbrev pub after_check : Bool → Process S → Process S
  after_check ok p = if ok then operator_source (operator_realm_of cfg.operator_realm) p else p

  abbrev pub sources_of : Built (List (Bytes × KeycloakRealm)) → Process S → Process S
  sources_of (Setup.failed e) p = p
  sources_of (built realms) p =
      let p' = key_sources realms p in
      after_check (all_bound (url_in p'.keys) (bind_realms realms) realms) p'

  -- The instance, its client of Redis, and the process; none is a panic.
  abbrev pub Outcome : Type 0
  Outcome = Option (Built GatewayPlugin × (Option RespRedis × Process S))

  abbrev pub with_caches :
      SnapshotCache → AppRegistryCache → Process S → Answer (Option RespRedis × Process S) → Outcome
  with_caches sc c p (answered (client, p')) =
      (let realms = build_keycloak_app_set cfg in
        some (
          new_configured sc c true (url_in ((realm_sources realms p').keys)) cfg,
          (client, sources_of realms p'),
        ))
  with_caches sc c p failed = some (Setup.failed redis_init_failed, (none, p))
  with_caches sc c p crashed = none

  abbrev pub after_registry : SnapshotCache → AppRegistryCache × Process S → Outcome
  after_registry sc (c, p) = with_caches sc c p (limiter_of p)

  abbrev pub after_snapshot : SnapshotCache × Process S → Outcome
  after_snapshot (sc, p) = after_registry sc (registry_of p)

  unfoldable pub new_in_process : Process S → Outcome
  new_in_process p =
      if not (is_known_mode cfg.authorization_mode)
      then some (Setup.failed (unknown_authorization_mode cfg.authorization_mode), (none, p))
      else after_snapshot (snapshot_of p)

-- New, with the defaults for a configuration that is nil.
abbrev pub new_instance :
    {S : Type 0}
    → World S
    → Option Config
    → Process S
    → Option (Built GatewayPlugin × (Option RespRedis × Process S))
new_instance w config p = new_in_process w (or_same config create_config) p
