-- ===== src/Config.antt =====
-- config.go: the configuration of the middleware, with the fields of Go's struct in its order.
use traefik_plugin.Base.{
  Bool, true, false, List, [], ◌∷◌, Option, none, some, Bytes, codes, is_empty, if◌then◌else◌,
}
use traefik_plugin.Base.Int.{ℤ, pos}

pub record KeycloakRealm : Type 0 where
  pub app_id : Bytes
  pub issuer : Bytes
  pub jwks_url : Bytes

pub record Config : Type 0 where
  pub jwt_header_key : Bytes
  pub keycloak_apps : List Bytes
  pub keycloak_jwks_url : Bytes
  pub keycloak_issuer : Bytes
  pub keycloak_realms : List KeycloakRealm
  pub operator_realm : KeycloakRealm
  pub authorization_mode : Bytes
  pub keycloak_user_id_claim : Bytes
  pub keycloak_admin_roles : List Bytes
  pub keycloak_clock_skew_seconds : ℤ
  pub jwks_refresh_interval : Bytes
  pub jwks_refetch_cooldown : Bytes
  pub user_uid_header : Bytes
  pub user_email_header : Bytes
  pub session_id_header : Bytes
  pub device_id_header : Bytes
  pub redis_url : Bytes
  pub redis_password : Bytes
  pub redis_db : ℤ
  pub redis_prefix : Bytes
  pub service_service_url : Bytes
  pub snapshot_refresh_interval : Bytes
  pub snapshot_version_poll_interval : Bytes
  pub application_service_url : Bytes
  pub app_snapshot_refresh_interval : Bytes
  pub app_snapshot_version_poll_interval : Bytes
  pub app_id_header : Bytes
  pub app_resolution_mode : Bytes
  pub trust_forwarded_host : Bool
  pub usage_service_url : Bytes
  pub default_rate_limit_requests : ℤ
  pub default_rate_limit_duration_seconds : ℤ
  pub default_plan_name : Bytes
  pub admin_access_level : Bytes
  pub free_access_level : Bytes
  pub admin_permission : Bytes
  pub user_id_header : Bytes
  pub user_plan_header : Bytes
  pub is_admin_header : Bytes
  pub user_roles_header : Bytes
  pub http_timeout : Bytes
  pub log_level : Bytes
  pub disable_rate_limit : Bool
  pub disable_auth : Bool
  pub cors_allowed_origins : List Bytes
  pub cors_allowed_methods : List Bytes
  pub cors_allowed_headers : List Bytes
  pub cors_allow_credentials : Bool
  pub cors_max_age : ℤ

-- A field that CreateConfig does not set has the zero value of its type.
abbrev pub create_config : Config
create_config = record {
  jwt_header_key = codes "Authorization";
  keycloak_apps = [];
  keycloak_jwks_url = [];
  keycloak_issuer = [];
  keycloak_realms = [];
  operator_realm = record { app_id = []; issuer = []; jwks_url = [] };
  authorization_mode = codes "legacy";
  keycloak_user_id_claim = codes "luid";
  keycloak_admin_roles = codes "admin" ∷ codes "owner" ∷ [];
  keycloak_clock_skew_seconds = pos 30;
  jwks_refresh_interval = codes "10m";
  jwks_refetch_cooldown = codes "30s";
  user_uid_header = codes "X-User-Uid";
  user_email_header = [];
  session_id_header = codes "X-Session-Id";
  device_id_header = codes "X-Device-Id";
  redis_url = codes "redis://127.0.0.1:6379/0";
  redis_password = [];
  redis_db = pos 0;
  redis_prefix = codes "gw:rl:";
  service_service_url = codes "http://service-service:8080";
  snapshot_refresh_interval = codes "30s";
  snapshot_version_poll_interval = codes "5s";
  application_service_url = codes "http://application-service:8080";
  app_snapshot_refresh_interval = codes "30s";
  app_snapshot_version_poll_interval = codes "5s";
  app_id_header = codes "X-App-Id";
  app_resolution_mode = codes "enforce";
  trust_forwarded_host = false;
  usage_service_url = codes "http://usage-service:8080";
  default_rate_limit_requests = pos 30;
  default_rate_limit_duration_seconds = pos 60;
  default_plan_name = codes "free";
  admin_access_level = codes "admin";
  free_access_level = codes "free";
  admin_permission = codes "platform.admin";
  user_id_header = codes "X-User-Id";
  user_plan_header = codes "X-User-Plan";
  is_admin_header = codes "X-Is-Admin";
  user_roles_header = codes "X-User-Roles";
  http_timeout = codes "5s";
  log_level = codes "info";
  disable_rate_limit = false;
  disable_auth = false;
  cors_allowed_origins = [];
  cors_allowed_methods =
      codes "GET"
      ∷ codes "POST"
      ∷ codes "PUT"
      ∷ codes "PATCH"
      ∷ codes "DELETE"
      ∷ codes "OPTIONS"
      ∷ [];
  cors_allowed_headers =
      codes "Origin"
      ∷ codes "Content-Type"
      ∷ codes "Accept"
      ∷ codes "Authorization"
      ∷ codes "X-Session-Id"
      ∷ codes "X-Device-Id"
      ∷ codes "X-App-Id"
      ∷ [];
  cors_allow_credentials = true;
  cors_max_age = pos 3600;
}

-- parseDuration over time.ParseDuration, which is none where that returns an error.
unfoldable pub parse_duration : (Bytes → Option ℤ) → Bytes → ℤ → ℤ
parse_duration parse s fallback =
    if is_empty s then fallback else elim (parse s) [ none ↦ fallback | some d ↦ d ]
