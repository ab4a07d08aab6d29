-- ===== src/Legacy.antt =====
-- serveLegacy of plugin.go, and the authorization view of identity.go that it uses. The shadow
-- verdict of the policy engine is only logged and is not modelled.
pub mod Gate
use traefik_plugin.Base.{
  ℕ, Bool, true, false, ◌&&◌, ◌||◌, not, Option, none, some, List, [], ◌∷◌, ◌++◌, Bytes, codes,
  str_eq, join, is_empty, any, if◌then◌else◌,
}
use traefik_plugin.Base.Int.{is_positive, format_int}
use traefik_plugin.Config.{Config}
use traefik_plugin.Http.{Headers, Request, get}
use traefik_plugin.Jwt.{TokenClaims, Auth, anonymous, authenticated, rejected, issuer_not_accepted}
use traefik_plugin.Plugin.{
  GatewayPlugin, KeycloakRealmRuntime, Services, RateLimitResult, error, auth_error, Outcome,
  set_header, del_header, write_json, keycloak_realm_for, parse_keycloak_auth, has_legacy_api_key,
  reject_legacy_api_key, resolve_rate_limit, extract_owner, owner_matches, limit_headers,
  too_many_requests, forward,
}
use traefik_plugin.Caller.{stamp_anonymous, anonymous_key, user_key}
use traefik_plugin.Snapshot.{CompiledEndpoint, match_endpoint}

pub record UserAuthz : Type 0 where
  pub roles : List Bytes
  pub permissions : List Bytes
  pub is_admin : Bool

unfoldable pub has : UserAuthz → Bytes → Bool
has a permission = any (λ p. str_eq p (codes "*") || str_eq p permission) a.permissions

unfoldable pub authz_from_token_roles : TokenClaims → UserAuthz
authz_from_token_roles claims = record {
  roles = claims.roles;
  permissions = if claims.is_admin then codes "*" ∷ [] else [];
  is_admin = claims.is_admin;
}

unfoldable pub stamp_authz_headers : Config → Request → UserAuthz → Request
stamp_authz_headers cfg req authz =
    let admin = if authz.is_admin then set_header req cfg.is_admin_header (codes "true") else req in
    if not (is_empty authz.roles)
    then set_header admin cfg.user_roles_header (join authz.roles (codes ","))
    else admin

-- Step 3: the admin access level implies the admin permission.
unfoldable pub required_permission_of : Config → CompiledEndpoint → Bytes
required_permission_of cfg ep =
    if is_empty ep.required_permission && str_eq ep.access_level cfg.admin_access_level
    then cfg.admin_permission
    else ep.required_permission

-- Step 4 for an authenticated caller.
unfoldable pub stamp_token : Config → TokenClaims → Bytes → Request → Request
unfolding stamp_authz_headers authz_from_token_roles
stamp_token cfg claims plan_name req =
    let identified =
      set_header (set_header req cfg.user_id_header claims.user_id) cfg.user_plan_header
        plan_name in
    let authorized = stamp_authz_headers cfg identified (authz_from_token_roles claims) in
    let uid = set_header authorized cfg.user_uid_header claims.subject in
    let mailed =
      if not (is_empty cfg.user_email_header) && not (is_empty claims.email)
      then set_header uid cfg.user_email_header claims.email
      else uid in
    del_header mailed cfg.session_id_header

unfoldable pub auth_required : Headers → Outcome
unfolding write_json
auth_required rw =
    write_json rw 401
      (error (codes "unauthorized") (codes "authentication required for this endpoint"))

unfoldable pub permission_denied : Headers → Outcome
unfolding write_json
permission_denied rw =
    write_json rw 403 (error (codes "forbidden") (codes "insufficient permissions"))

unfoldable pub owner_denied : Headers → Outcome
unfolding write_json
owner_denied rw =
    write_json rw 403
      (error (codes "forbidden") (codes "not allowed to access another user's resource"))

unfoldable pub foreign_token : Headers → Outcome
unfolding write_json
foreign_token rw =
    write_json rw 401
      (error (codes "unauthorized") (codes "token was not issued for this application"))

module _ {S : Type 0} (services : Services S) where
  open services use {resolve_plan, check, now}

  -- Step 2: the application's realm, or no bearer token at all.
  unfoldable pub authenticate : GatewayPlugin → Bytes → Bytes → S → Auth × S
  authenticate p app_id auth_header s =
      if p.config.disable_auth then (anonymous, s) else elim (keycloak_realm_for p app_id) [
        | some realm ↦ parse_keycloak_auth services p realm auth_header s
        | none ↦
            if not (is_empty auth_header) then (rejected issuer_not_accepted, s) else (anonymous, s)
      ]

  abbrev limit_outcome : Headers → Request → Option RateLimitResult × S → Outcome × S
  limit_outcome rw req (none, s) = (forward rw req, s)
  limit_outcome rw req (some result, s) =
      if not result.allowed
      then (too_many_requests rw result (now s), s)
      else (forward (limit_headers rw result (format_int result.remaining)) req, s)

  -- Steps 5 and 6.
  unfoldable pub limit_and_forward :
      GatewayPlugin → CompiledEndpoint → Bytes → Bytes → Headers → Request → S → Outcome × S
  limit_and_forward p ep rate_limit_key plan_name rw req s =
      let (limit, window) = resolve_rate_limit p.config ep plan_name in
      if not p.config.disable_rate_limit && p.has_rate_limiter
      then (if is_positive limit
          then limit_outcome rw req (check rate_limit_key ep.uid limit window s)
          else (forward rw req, s))
      else (forward rw req, s)

  -- Steps 3 to 6 for an anonymous caller.
  unfoldable pub serve_anonymous :
      GatewayPlugin → CompiledEndpoint → Bytes → Headers → Request → S → Outcome × S
  serve_anonymous p ep app_id rw req s =
      if not (is_empty (required_permission_of p.config ep))
      then (auth_required rw, s)
      else if not (is_empty ep.owner_param)
      then (auth_required rw, s)
      else limit_and_forward p ep (anonymous_key p.config app_id req) p.config.default_plan_name rw
          (stamp_anonymous p.config req) s

  -- Steps 4 to 6 for a caller whose permission is granted; the owner gate reads the stamped header.
  unfoldable pub serve_granted :
      GatewayPlugin → CompiledEndpoint → Bytes → TokenClaims → Headers → Request → S → Outcome × S
  serve_granted p ep app_id claims rw req s =
      let (plan_name, s') = resolve_plan app_id claims.user_id p.config.default_plan_name s in
      let stamped = stamp_token p.config claims plan_name req in
      if not (is_empty ep.owner_param)
        && (not (str_eq (get stamped.headers p.config.is_admin_header) (codes "true"))
            && not (owner_matches (extract_owner ep stamped) claims.user_id claims.subject))
      then (owner_denied rw, s')
      else limit_and_forward p ep (user_key app_id claims.user_id) plan_name rw stamped s'

  -- Steps 2a and 3 to 6 for an authenticated caller.
  unfoldable pub serve_authenticated :
      GatewayPlugin → CompiledEndpoint → Bytes → TokenClaims → Headers → Request → S → Outcome × S
  serve_authenticated p ep app_id claims rw req s =
      if not (is_empty claims.app_id)
        && (not (is_empty app_id) && not (str_eq claims.app_id app_id))
      then (foreign_token rw, s)
      else if not (is_empty (required_permission_of p.config ep))
          && not (has (authz_from_token_roles claims) (required_permission_of p.config ep))
      then (permission_denied rw, s)
      else serve_granted p ep app_id claims rw req s

  abbrev pub serve_auth :
      GatewayPlugin → CompiledEndpoint → Bytes → Headers → Request → Auth × S → Outcome × S
  serve_auth p ep app_id rw req (anonymous, s) = serve_anonymous p ep app_id rw req s
  serve_auth p ep app_id rw req (authenticated claims, s) =
      serve_authenticated p ep app_id claims rw req s
  serve_auth p ep app_id rw req (rejected e, s) = (write_json rw 401 (auth_error e), s)

  unfoldable pub serve_endpoint :
      GatewayPlugin → CompiledEndpoint → Bytes → Headers → Request → S → Outcome × S
  serve_endpoint p ep app_id rw req s =
      if not p.config.disable_auth && has_legacy_api_key req p.config.jwt_header_key
      then (reject_legacy_api_key rw, s)
      else serve_auth p ep app_id rw req
          (authenticate p app_id (get req.headers p.config.jwt_header_key) s)

  unfoldable pub serve_legacy : GatewayPlugin → Bytes → Headers → Request → S → Outcome × S
  serve_legacy p app_id rw req s = elim (match_endpoint p.snapshot app_id req.method req.path) [
    | none ↦ (forward rw req, s)
    | some ep ↦ serve_endpoint p ep app_id rw req s
  ]
