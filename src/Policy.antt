-- ===== src/Policy.antt =====
-- policy.go: the policy engine.
pub mod Gate
pub mod Admin
pub mod Realm
pub mod Target
pub mod Limit
use traefik_plugin.Base.{
  ℕ, Bool, true, false, ◌&&◌, ◌||◌, not, Option, none, some, List, [], ◌∷◌, ◌++◌, Bytes, codes,
  str_eq, join, is_empty, if◌then◌else◌,
}
use traefik_plugin.Base.Int.{is_positive, format_int}
use traefik_plugin.Authz.{
  Principal, token_issuer, resolve_statements, granted, is_wildcard, permissions_by_app,
}
use traefik_plugin.Caller.{
  choose_realm, principal_for, stamp_claims, stamp_anonymous, anonymous_key, user_key,
}
use traefik_plugin.Config.{Config}
use traefik_plugin.Helpers.{client_ip, anonymous_rate_limit_key}
use traefik_plugin.Http.{Headers, Request, get}
use traefik_plugin.Jwt.{TokenClaims, Auth, anonymous, authenticated, rejected, issuer_not_accepted}
use traefik_plugin.Plugin.{
  GatewayPlugin, KeycloakRealmRuntime, Services, RateLimitResult, Body, error, auth_error, iam_me,
  Outcome, set_header, del_header, write_json, keycloak_realm_for, parse_keycloak_auth,
  has_legacy_api_key, reject_legacy_api_key, resolve_rate_limit, extract_owner, owner_matches,
  limit_headers, too_many_requests, forward,
}
use traefik_plugin.Registry.{AppRegistryCache, is_active_app, active_app_ids}
use traefik_plugin.Snapshot.{CompiledEndpoint, match_endpoint, policy_index}

abbrev pub iam_me_path : Bytes
iam_me_path = codes "/api/_iam/me"

-- deny: the log line is not modelled.
unfoldable pub deny : Headers → ℕ → Bytes → Bytes → Outcome
unfolding write_json
deny rw status code message = write_json rw status (error code message)

-- A request that the rate limit lets pass, with the response headers, or the response.
pub data RateDecision : Type 0 where
  admitted : Headers → RateDecision
  limited : Outcome → RateDecision

unfoldable pub owner_denied : Headers → Outcome
unfolding deny
owner_denied rw =
    deny rw 403 (codes "forbidden") (codes "not allowed to access another user's resource")

unfoldable pub auth_required : Headers → Outcome
unfolding deny
auth_required rw =
    deny rw 401 (codes "unauthorized") (codes "authentication required for this endpoint")

-- Stage 1: the requested application must be an active one.
abbrev pub choose_target : Option AppRegistryCache → Bytes → Bytes → Option Bytes
choose_target none host_app requested_app = some host_app
choose_target (some registry) host_app requested_app =
    if is_empty requested_app
    then some host_app
    else if is_active_app registry requested_app
    then some requested_app
    else none

abbrev active_or_host : Option AppRegistryCache → Bytes → List Bytes
active_or_host registry host_app =
    let active : List Bytes = elim registry [ none ↦ [] | some r ↦ active_app_ids r ] in
    if is_empty active && not (is_empty host_app) then host_app ∷ [] else active

abbrev iam_me_body : GatewayPlugin → Bytes → TokenClaims → Body
iam_me_body p host_app claims =
    let pr = principal_for p claims in
    iam_me pr.subject pr.user_id pr.home_app pr.roles pr.policies
      (permissions_by_app (some pr) (active_or_host p.app_registry host_app))

module _ {S : Type 0} (services : Services S) where
  open services use {decode_iss, resolve_plan, check, now}

  unfoldable pub authenticate : GatewayPlugin → Bytes → Bytes → S → Auth × S
  authenticate p app auth_header s =
      if is_empty auth_header || p.config.disable_auth
      then (anonymous, s)
      else elim (choose_realm p app (token_issuer decode_iss auth_header)) [
        | none ↦ (rejected issuer_not_accepted, s)
        | some realm ↦ parse_keycloak_auth services p realm auth_header s
      ]

  abbrev rate_decision : Headers → Option RateLimitResult × S → RateDecision × S
  rate_decision rw (none, s) = (admitted rw, s)
  rate_decision rw (some result, s) =
      if not result.allowed
      then (limited (too_many_requests rw result (now s)), s)
      else (admitted (limit_headers rw result (format_int result.remaining)), s)

  unfoldable pub apply_rate_limit :
      GatewayPlugin → CompiledEndpoint → Bytes → Bytes → Headers → S → RateDecision × S
  apply_rate_limit p ep rate_limit_key plan_name rw s =
      let (limit, window) = resolve_rate_limit p.config ep plan_name in
      if p.config.disable_rate_limit || not p.has_rate_limiter
      then (admitted rw, s)
      else if not (is_positive limit)
      then (admitted rw, s)
      else rate_decision rw (check rate_limit_key ep.uid limit window s)

  abbrev pub finish : Request → RateDecision × S → Outcome × S
  finish req (admitted rw, s) = (forward rw req, s)
  finish req (limited out, s) = (out, s)

  -- 7b. The rate limit, from which the holders of "*" are exempt, and the next handler.
  unfoldable pub limit_and_forward :
      GatewayPlugin → CompiledEndpoint → Bool → Bytes → Bytes → Headers → Request → S → Outcome × S
  limit_and_forward p ep wildcard rate_limit_key plan_name rw req s =
      if wildcard
      then (forward rw req, s)
      else finish req (apply_rate_limit p ep rate_limit_key plan_name rw s)

  -- Stages 5 to 7 for an anonymous caller.
  unfoldable pub serve_anonymous :
      GatewayPlugin → CompiledEndpoint → Bytes → Headers → Request → S → Outcome × S
  serve_anonymous p ep target rw req s =
      if not (is_empty ep.required_permission)
      then (auth_required rw, s)
      else if not (is_empty ep.owner_param)
      then (auth_required rw, s)
      else limit_and_forward p ep false (anonymous_key p.config target req)
          p.config.default_plan_name rw (stamp_anonymous p.config req) s

  -- Stages 6 and 7 for a caller whose permission is granted.
  unfoldable pub serve_granted :
      GatewayPlugin → CompiledEndpoint → Bytes → TokenClaims → Headers → Request → S → Outcome × S
  serve_granted p ep target claims rw req s =
      let pr = principal_for p claims in
      let wildcard = is_wildcard (some pr) target in
      let (plan_name, s') = resolve_plan target claims.user_id p.config.default_plan_name s in
      let stamped = stamp_claims p.config claims pr wildcard plan_name req in
      if not (is_empty ep.owner_param)
        && (not wildcard
            && not (owner_matches (extract_owner ep stamped) claims.user_id claims.subject))
      then (owner_denied rw, s')
      else limit_and_forward p ep wildcard (user_key target claims.user_id) plan_name rw stamped s'

  -- Stages 5 to 7 for an authenticated caller.
  unfoldable pub serve_authenticated :
      GatewayPlugin → CompiledEndpoint → Bytes → TokenClaims → Headers → Request → S → Outcome × S
  serve_authenticated p ep target claims rw req s =
      if not (is_empty ep.required_permission)
        && not (granted (some (principal_for p claims)) ep.required_permission target)
      then (deny rw 403 (codes "forbidden") (codes "insufficient permissions"), s)
      else serve_granted p ep target claims rw req s

  abbrev pub serve_auth :
      GatewayPlugin → CompiledEndpoint → Bytes → Headers → Request → Auth × S → Outcome × S
  serve_auth p ep target rw req (anonymous, s) = serve_anonymous p ep target rw req s
  serve_auth p ep target rw req (authenticated claims, s) =
      serve_authenticated p ep target claims rw req s
  serve_auth p ep target rw req (rejected e, s) = (write_json rw 401 (auth_error e), s)

  -- Stages 3 to 7 for a matched endpoint.
  unfoldable pub serve_endpoint :
      GatewayPlugin → CompiledEndpoint → Bytes → Headers → Request → S → Outcome × S
  serve_endpoint p ep target rw req s =
      if not p.config.disable_auth && has_legacy_api_key req p.config.jwt_header_key
      then (reject_legacy_api_key rw, s)
      else serve_auth p ep target rw req
          (authenticate p target (get req.headers p.config.jwt_header_key) s)

  -- Stage 2, where the target has no such endpoint: an explicit override that hides an endpoint of
  -- the host's application is refused.
  unfoldable pub serve_unmatched :
      GatewayPlugin → Bytes → Bytes → Headers → Request → S → Outcome × S
  serve_unmatched p host_app target rw req s =
      if not (str_eq target host_app)
      then elim (match_endpoint p.snapshot host_app req.method req.path) [
        | none ↦ (forward rw req, s)
        | some _ ↦ (
          deny rw 403 (codes "forbidden")
              (codes "endpoint is not exposed to the requested application"),
          s,
        )
      ]
      else (forward rw req, s)

  abbrev pub dispatched :
      GatewayPlugin → Bytes → Bytes → Headers → Request → Option CompiledEndpoint → S → Outcome × S
  dispatched p host_app target rw req none s = serve_unmatched p host_app target rw req s
  dispatched p host_app target rw req (some ep) s = serve_endpoint p ep target rw req s

  unfoldable pub serve_target : GatewayPlugin → Bytes → Bytes → Headers → Request → S → Outcome × S
  serve_target p host_app target rw req s =
      let stamped =
        if not (is_empty target) then set_header req p.config.app_id_header target else req in
      dispatched p host_app target rw stamped
        (match_endpoint p.snapshot target stamped.method stamped.path) s

  abbrev pub admitted_to :
      GatewayPlugin → Bytes → Headers → Request → Option Bytes → S → Outcome × S
  admitted_to p host_app rw req none s = (
    deny rw 403 (codes "unknown_app") (codes "requested application is not an active application"),
    s,
  )
  admitted_to p host_app rw req (some target) s = serve_target p host_app target rw req s

  unfoldable pub serve_policy : GatewayPlugin → Bytes → Bytes → Headers → Request → S → Outcome × S
  serve_policy p host_app requested_app rw req s =
      admitted_to p host_app rw req (choose_target p.app_registry host_app requested_app) s

  abbrev serve_me : GatewayPlugin → Bytes → Headers → Auth × S → Outcome × S
  serve_me p host_app rw (anonymous, s) =
      (deny rw 401 (codes "unauthorized") (codes "authentication required"), s)
  serve_me p host_app rw (authenticated claims, s) =
      (write_json rw 200 (iam_me_body p host_app claims), s)
  serve_me p host_app rw (rejected e, s) = (write_json rw 401 (auth_error e), s)

  unfoldable pub serve_iam_me : GatewayPlugin → Bytes → Headers → Request → S → Outcome × S
  serve_iam_me p host_app rw req s =
      if not (str_eq req.method (codes "GET"))
      then (write_json rw 405 (error (codes "method_not_allowed") (codes "GET only")), s)
      else serve_me p host_app rw
          (authenticate p host_app (get req.headers p.config.jwt_header_key) s)
