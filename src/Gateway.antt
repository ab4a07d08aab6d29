-- ===== src/Gateway.antt =====
-- ServeHTTP of plugin.go: the prelude that both engines share.
pub mod Trust
pub mod Enforce
pub mod Preflight
use traefik_plugin.Base.{
  ℕ, Bool, true, false, ◌&&◌, not, Option, none, some, List, [], Bytes, codes, str_eq, trim_space,
  join, is_empty, if◌then◌else◌,
}
use traefik_plugin.Base.Int.{is_positive, format_int}
use traefik_plugin.Config.{Config}
use traefik_plugin.Http.{Headers, Request, get, set}
use traefik_plugin.Plugin.{
  GatewayPlugin, Services, Outcome, replied, no_body, error, set_header, del_header, write_json,
  apply_cors_headers, ensure_request_id, legacy_api_key_uid_header, resolution_host,
}
use traefik_plugin.Policy.{iam_me_path, serve_policy, serve_iam_me}
use traefik_plugin.Legacy.{serve_legacy}
use traefik_plugin.Registry.{AppRegistryCache, resolve_host, cold_start}

-- Every header that only the gateway may set.
unfoldable pub strip_trust_headers : Config → Request → Request
strip_trust_headers cfg req =
    let ids =
      del_header (del_header (del_header req cfg.app_id_header) cfg.user_id_header)
        cfg.user_plan_header in
    let roles = del_header (del_header ids cfg.is_admin_header) cfg.user_roles_header in
    let uid = del_header (del_header roles legacy_api_key_uid_header) cfg.user_uid_header in
    if not (is_empty cfg.user_email_header) then del_header uid cfg.user_email_header else uid

-- The application of the host and the request with its header, or the response.
pub data Resolution : Type 0 where
  resolved : Bytes → Request → Resolution
  refused : Outcome → Resolution

abbrev is_enforce : Config → Bool
is_enforce cfg = str_eq cfg.app_resolution_mode (codes "enforce")

unfoldable pub host_refused : AppRegistryCache → Headers → Outcome
unfolding write_json
host_refused registry rw =
    if cold_start registry
    then write_json rw 503
        (error (codes "registry_unavailable") (codes "application registry is not ready"))
    else write_json rw 403
        (error (codes "unknown_app") (codes "host is not mapped to an active application"))

abbrev resolve_in : Config → AppRegistryCache → Headers → Request → Resolution
resolve_in cfg registry rw req = elim (resolve_host registry (resolution_host cfg req)) [
  | some id ↦ resolved id (set_header req cfg.app_id_header id)
  | none ↦ if is_enforce cfg then refused (host_refused registry rw) else resolved [] req
]

-- Step 1a.
unfoldable pub resolve_app : GatewayPlugin → Headers → Request → Resolution
resolve_app p rw req =
    if str_eq p.config.app_resolution_mode (codes "disabled")
    then resolved [] req
    else elim p.app_registry [
      | none ↦ resolved [] req
      | some registry ↦ resolve_in p.config registry rw req
    ]

unfoldable pub snapshot_cold : GatewayPlugin → Bool
snapshot_cold p = is_enforce p.config && not p.snapshot.loaded

unfoldable pub snapshot_refused : Headers → Outcome
unfolding write_json
snapshot_refused rw =
    write_json rw 503
      (error (codes "snapshot_unavailable") (codes "registry snapshot is not loaded"))

unfoldable pub preflight : Config → Headers → Outcome
preflight cfg rw =
    let listed =
      set
        (set rw (codes "Access-Control-Allow-Methods") (join cfg.cors_allowed_methods (codes ", ")))
        (codes "Access-Control-Allow-Headers") (join cfg.cors_allowed_headers (codes ", ")) in
    replied 204
      (if is_positive cfg.cors_max_age
        then set listed (codes "Access-Control-Max-Age") (format_int cfg.cors_max_age)
        else listed)
      no_body

unfoldable pub cors_origin : Config → Headers → Request → Headers
cors_origin cfg rw req =
    let origin = get req.headers (codes "Origin") in
    if not (is_empty cfg.cors_allowed_origins) && not (is_empty origin)
    then (apply_cors_headers cfg rw origin).0
    else rw

unfoldable pub is_preflight : Config → Request → Bool
is_preflight cfg req =
    not (is_empty cfg.cors_allowed_origins) && str_eq req.method (codes "OPTIONS")

module _ {S : Type 0} (services : Services S) where
  -- What follows the resolution of the host.
  unfoldable pub serve_resolved : GatewayPlugin → Bytes → Headers → Resolution → S → Outcome × S
  serve_resolved p requested_app rw (refused out) s = (out, s)
  serve_resolved p requested_app rw (resolved app_id req) s =
      if snapshot_cold p
      then (snapshot_refused rw, s)
      else if str_eq req.path iam_me_path
      then serve_iam_me services p app_id rw req s
      else if p.policy_mode
      then serve_policy services p app_id requested_app rw req s
      else serve_legacy services p app_id rw req s

  -- What follows the CORS headers.
  unfoldable pub serve_stripped : GatewayPlugin → Headers → Request → S → Outcome × S
  serve_stripped p rw req s =
      let requested_app = trim_space (get req.headers p.config.app_id_header) in
      serve_resolved p requested_app rw (resolve_app p rw (strip_trust_headers p.config req)) s

  unfoldable pub serve_identified : GatewayPlugin → (Headers × Request) × S → Outcome × S
  serve_identified p ((rw, req), s) =
      let rw' = cors_origin p.config rw req in
      if is_preflight p.config req then (preflight p.config rw', s) else serve_stripped p rw' req s

  unfoldable pub serve_http : GatewayPlugin → Headers → Request → S → Outcome × S
  serve_http p rw req s = serve_identified p (ensure_request_id services rw req s)
