-- ===== src/Plugin.antt =====
-- plugin.go and the parts that both engines share. Log lines are not modelled. What a request does
-- to the caches, to Redis and to the clock is the state S behind the operations of Services.
use traefik_plugin.Base.{
  ℕ, ◌^◌, zero, suc, Bool, true, false, ◌&&◌, ◌||◌, not, Option, none, some, List, [], ◌∷◌, ◌++◌,
  Bytes, codes, str_eq, has_prefix, has_suffix, trim_prefix, trim_space, cut, is_empty, any,
  if◌then◌else◌,
}
use traefik_plugin.Base.Int.{ℤ, pos, format_int, quot, floor_div, ◌-ℤ◌}
use traefik_plugin.Config.{Config}
use traefik_plugin.Http.{Headers, Request, get, set, add, del}
use traefik_plugin.Helpers.{or_same}
use traefik_plugin.Jwt.{TokenHeader, Fields, Auth, anonymous, AuthError, parse_keycloak_jwt}
use traefik_plugin.Registry.{AppRegistryCache}
use traefik_plugin.Snapshot.{SnapshotCache, CompiledEndpoint}

-- keycloakRealmRuntime; the key source is named by the URL of its JWKS.
pub record KeycloakRealmRuntime : Type 0 where
  pub issuer : Bytes
  pub jwks : Bytes

pub record GatewayPlugin : Type 0 where
  pub config : Config
  pub snapshot : SnapshotCache
  pub app_registry : Option AppRegistryCache
  pub has_rate_limiter : Bool
  pub keycloak_realms : Bytes → Option KeycloakRealmRuntime
  pub operator_realm : Option KeycloakRealmRuntime
  pub policy_mode : Bool

-- Times are nanoseconds since 1970.
pub record RateLimitResult : Type 0 where
  pub allowed : Bool
  pub remaining : ℤ
  pub limit : ℤ
  pub reset_at : ℤ

-- What the request path asks of the key sources, the plan resolver, the rate limiter and the clock,
-- and of the libraries golang-jwt and encoding/json. A limiter's error is none.
pub record Services (S : Type 0) : Type 1 where
  pub Key : Type 0
  pub key_for_kid : Bytes → Bytes → S → Option Key × S
  pub parse_jwt : Bytes → (TokenHeader → S → Option Key × S) → S → Option Fields × S
  pub decode_iss : Bytes → Option Bytes
  pub resolve_plan : Bytes → Bytes → Bytes → S → Bytes × S
  pub check : Bytes → Bytes → ℤ → ℤ → S → Option RateLimitResult × S
  pub now : S → ℕ
  pub fresh_request_id : S → Bytes × S

-- The bodies that the plugin writes itself: an error code with a message, or an error of the token.
pub data Body : Type 0 where
  no_body : Body
  error : Bytes → Bytes → Body
  auth_error : AuthError → Body
  iam_me :
      (subject user_id home_app : Bytes)
      → (roles policies : List Bytes) → (Bytes → Option (List Bytes))
      → Body

-- The response that the plugin wrote, or the request that the next handler receives together with
-- the response headers that are already set.
pub data Outcome : Type 0 where
  replied : ℕ → Headers → Body → Outcome
  forwarded : Request → Headers → Outcome

abbrev pub set_header : Request → Bytes → Bytes → Request
set_header req k v = record req { headers = set req.headers k v }

abbrev pub del_header : Request → Bytes → Request
del_header req k = record req { headers = del req.headers k }

unfoldable pub write_json : Headers → ℕ → Body → Outcome
write_json rw status body =
    replied status (set rw (codes "Content-Type") (codes "application/json")) body

unfoldable pub keycloak_realm_for : GatewayPlugin → Bytes → Option KeycloakRealmRuntime
keycloak_realm_for p app_id = if is_empty app_id then none else p.keycloak_realms app_id

module _ {S : Type 0} (services : Services S) where
  open services use {key_for_kid, parse_jwt}

  unfoldable pub parse_keycloak_auth : GatewayPlugin → KeycloakRealmRuntime → Bytes → S → Auth × S
  parse_keycloak_auth p realm auth_header s =
      if is_empty auth_header
      then (anonymous, s)
      else parse_keycloak_jwt (key_for_kid realm.jwks) parse_jwt auth_header realm.issuer
          p.config.keycloak_user_id_claim p.config.keycloak_admin_roles s

-- s[n:]
abbrev drop : ℕ → Bytes → Bytes
drop zero s = s
drop (suc n) [] = []
drop (suc n) (c ∷ s) = drop n s

-- "scheme://*.domain" covers the subdomains of domain under that scheme.
abbrev subdomain : Bytes → ℕ → Bytes → Bytes → Bool
subdomain scheme n allowed origin =
    has_prefix allowed (scheme ++ codes "*.")
    && (has_prefix origin scheme && has_suffix origin (drop n allowed))

unfoldable pub origin_matches : Bytes → Bytes → Bool
origin_matches allowed origin =
    str_eq allowed origin
    || subdomain (codes "https://") 9 allowed origin
    || subdomain (codes "http://") 8 allowed origin

abbrev cors_headers : Config → Headers → Bytes → Headers
cors_headers cfg rw origin =
    let allowed = set rw (codes "Access-Control-Allow-Origin") origin in
    let credentials =
      if cfg.cors_allow_credentials
      then set allowed (codes "Access-Control-Allow-Credentials") (codes "true")
      else allowed in
    add
      (set credentials (codes "Access-Control-Expose-Headers")
        (codes "X-RateLimit-Limit, X-RateLimit-Remaining, X-RateLimit-Reset, Retry-After"))
      (codes "Vary") (codes "Origin")

unfoldable pub apply_cors_headers : Config → Headers → Bytes → Headers × Bool
apply_cors_headers cfg rw origin =
    if any (λ allowed. origin_matches allowed origin) cfg.cors_allowed_origins
    then (cors_headers cfg rw origin, true)
    else (rw, false)

abbrev pub request_id_header : Bytes
request_id_header = codes "X-Request-ID"

module _ {S : Type 0} (services : Services S) where
  open services use {fresh_request_id}

  unfoldable pub ensure_request_id : Headers → Request → S → (Headers × Request) × S
  ensure_request_id rw req s =
      let rid = trim_space (get req.headers request_id_header) in
      let (fresh, s') = fresh_request_id s in
      if is_empty rid
      then ((set rw request_id_header fresh, set_header req request_id_header fresh), s')
      else ((set rw request_id_header rid, req), s)

abbrev legacy_api_key_prefix : Bytes
legacy_api_key_prefix = codes "fc_"

abbrev pub legacy_api_key_uid_header : Bytes
legacy_api_key_uid_header = codes "X-Api-Key-Uid"

unfoldable pub has_legacy_api_key : Request → Bytes → Bool
has_legacy_api_key req jwt_header_key =
    has_prefix (trim_space (get req.headers (codes "X-Api-Key"))) legacy_api_key_prefix
    || has_prefix (trim_space (trim_prefix (get req.headers jwt_header_key) (codes "Bearer ")))
        legacy_api_key_prefix

unfoldable pub reject_legacy_api_key : Headers → Outcome
unfolding write_json
reject_legacy_api_key rw = write_json rw 401 (
    error (codes "unauthorized") (
      codes
        "api keys are no longer accepted; authenticate with an access token from the application's login (OAuth 2.1)"))

unfoldable pub resolution_host : Config → Request → Bytes
resolution_host cfg req =
    let h = get req.headers (codes "X-Forwarded-Host") in
    if cfg.trust_forwarded_host && not (is_empty h) then trim_space (cut h b',').0 else req.host

unfoldable pub resolve_rate_limit : Config → CompiledEndpoint → Bytes → ℤ × ℤ
resolve_rate_limit cfg ep plan_name = elim (ep.rate_limits plan_name) [
  | none ↦ (cfg.default_rate_limit_requests, cfg.default_rate_limit_duration_seconds)
  | some rl ↦ (rl.requests, rl.duration_seconds)
]

-- req.URL.Query().Get(name)
unfoldable pub query_value : Bytes → List (Bytes × Bytes) → Bytes
query_value name [] = []
query_value name ((k, v) ∷ q) = let rest = query_value name q in if str_eq k name then v else rest

abbrev pub owner_value :
    CompiledEndpoint → Bytes → List (Bytes × Bytes) → Bytes × Option Bytes → Bytes
owner_value ep path query (kind, none) = []
owner_value ep path query (kind, some name) =
    if is_empty name
    then []
    else if str_eq kind (codes "path")
    then trim_space (or_same (ep.regex.submatch name path) [])
    else if str_eq kind (codes "query")
    then trim_space (query_value name query)
    else []

unfoldable pub extract_owner : CompiledEndpoint → Request → Bytes
extract_owner ep req = owner_value ep req.path req.query (cut ep.owner_param b':')

unfoldable pub owner_matches : Bytes → Bytes → Bytes → Bool
owner_matches owner user_id user_uid =
    not (is_empty owner)
    && (str_eq owner user_id || (not (is_empty user_uid) && str_eq owner user_uid))

-- The three headers of a check's result.
abbrev pub limit_headers : Headers → RateLimitResult → Bytes → Headers
limit_headers rw result remaining =
    set
      (set (set rw (codes "X-RateLimit-Limit") (format_int result.limit))
        (codes "X-RateLimit-Remaining") remaining)
      (codes "X-RateLimit-Reset") (format_int (floor_div result.reset_at (10 ^ 9)))

-- int(d.Seconds()), which rounds towards zero, for d = t - now.
unfoldable pub seconds_until : ℕ → ℤ → ℤ
seconds_until now t = quot (t -ℤ pos now) (10 ^ 9)

unfoldable pub too_many_requests : Headers → RateLimitResult → ℕ → Outcome
unfolding write_json seconds_until
too_many_requests rw result now =
    write_json
      (set (limit_headers rw result (codes "0")) (codes "Retry-After")
        (format_int (seconds_until now result.reset_at)))
      429 (error (codes "rate_limit_exceeded") (codes "too many requests"))

-- The single exit to the next handler.
unfoldable pub forward : Headers → Request → Outcome
forward rw req = forwarded req rw
