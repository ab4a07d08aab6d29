-- ===== src/Examples/Process.antt =====
-- New within a process that has no caches yet, where no server answers.
use traefik_plugin.Base.{ℕ, Bool, true, false, Option, none, some, [], ◌∷◌, Bytes, codes, ◌≡◌, refl}
use traefik_plugin.Jwks.{JwksCache}
use traefik_plugin.Plugin.{GatewayPlugin}
use traefik_plugin.Registry.{no_response}
use traefik_plugin.Setup.{Built, built, failed}
use traefik_plugin.Setup.Process.{World, Process, new_in_process}
use traefik_plugin.Setup.Process.Bound.{IsSound, new_in_process-IsSound}
use traefik_plugin.Examples.Setup.{settings}

abbrev silent : World ℕ
silent = record {
  fetch = λ url t. (no_response, t);
  net = record {
    now = λ t. t;
    dial = λ addr use_tls t. (false, t);
    send = λ bytes t. (false, t);
    receive = λ t. ([], t);
  };
  decode_version = λ body. none;
  decode_registry = λ body. none;
  compile = λ text. none;
  decode_snapshot = λ body. none;
  decode_keys = λ body. none;
  parse_url = λ text. some (record {
    scheme = codes "redis";
    hostname = codes "127.0.0.1";
    port = codes "6379";
    password = none;
  });
  parse_time = λ text. none;
}

abbrev started : Process ℕ
started = record {
  snapshots = λ url. none;
  registries = λ url. none;
  keys = λ url. none;
  world = 5;
}

new_in_process-IsSound_example : IsSound silent settings (new_in_process silent settings started)
new_in_process-IsSound_example = new_in_process-IsSound silent settings started (λ u c e. cc)

-- The URL that the key cache of a realm fetches from.
url_of : Option JwksCache → Bytes
url_of none = []
url_of (some c) = c.url

source_in : {A : Type 0} → Bytes → Option (Built GatewayPlugin × (A × Process ℕ)) → Bytes
unfolding url_of
source_in url none = []
source_in url (some (failed e, (client, p))) = []
source_in url (some (built g, (client, p))) = url_of (p.keys url)

-- With Redis down an instance is built, and the realm's cache is there.
acme_source :
    source_in (codes "https://id/acme/certs") (new_in_process silent settings started)
    ≡ codes "https://id/acme/certs"
unfolding new_in_process source_in url_of traefik_plugin.Setup.is_known_mode
    traefik_plugin.Base.to_lower traefik_plugin.Base.trim_space traefik_plugin.Base.trim_left
    traefik_plugin.Base.str_eq traefik_plugin.Base.equal_fold
    traefik_plugin.RateLimit.new_rate_limiter traefik_plugin.Redis.Operations.dial_redis
    traefik_plugin.Redis.Operations.parse_redis_url traefik_plugin.Redis.Operations.contains_text
    traefik_plugin.Base.has_prefix traefik_plugin.Redis.Client.connect
    traefik_plugin.Polling.get_shared traefik_plugin.Polling.start
    traefik_plugin.Polling.registry_polled traefik_plugin.Polling.snapshot_polled
    traefik_plugin.Redis.Client.dial_and_handshake traefik_plugin.Setup.new_configured
    traefik_plugin.Setup.all_bound traefik_plugin.Setup.bind_realms
    traefik_plugin.Setup.lookup_runtime traefik_plugin.Setup.build_keycloak_app_set
    traefik_plugin.Setup.add_apps traefik_plugin.Setup.add_realms traefik_plugin.Setup.insert_realm
    traefik_plugin.Setup.lookup_realm traefik_plugin.Setup.operator_realm_of
    traefik_plugin.Setup.Process.key_source traefik_plugin.Setup.Process.key_sources
    traefik_plugin.Jwks.refresh traefik_plugin.Jwks.fetch_document
    traefik_plugin.Config.parse_duration traefik_plugin.Registry.refresh
    traefik_plugin.Snapshot.refresh
acme_source = refl
