-- ===== src/Caller.antt =====
-- What policy.go and plugin.go establish of a caller: the realm that a token is validated by, the
-- principal, the trusted headers and the keys of the rate limit.
use traefik_plugin.Base.{
  Bool, ◌&&◌, not, Option, none, some, [], ◌++◌, Bytes, codes, str_eq, join, is_empty,
  if◌then◌else◌,
}
use traefik_plugin.Authz.{Principal, resolve_statements}
use traefik_plugin.Config.{Config}
use traefik_plugin.Helpers.{client_ip, anonymous_rate_limit_key}
use traefik_plugin.Http.{Request, get}
use traefik_plugin.Jwt.{TokenClaims}
use traefik_plugin.Plugin.{
  GatewayPlugin, KeycloakRealmRuntime, set_header, del_header, keycloak_realm_for,
}
use traefik_plugin.Snapshot.{policy_index}

abbrev pub issuer_is : Bytes → Option KeycloakRealmRuntime → Option KeycloakRealmRuntime
issuer_is iss none = none
issuer_is iss (some realm) = if str_eq realm.issuer iss then some realm else none

abbrev pub either_realm :
    Option KeycloakRealmRuntime → Option KeycloakRealmRuntime → Option KeycloakRealmRuntime
either_realm none other = other
either_realm (some realm) other = some realm

-- The application's realm, or else the operators', if its issuer is the token's.
unfoldable pub choose_realm : GatewayPlugin → Bytes → Bytes → Option KeycloakRealmRuntime
choose_realm p app iss =
    either_realm (issuer_is iss (keycloak_realm_for p app)) (issuer_is iss p.operator_realm)

unfoldable pub principal_for : GatewayPlugin → TokenClaims → Principal
principal_for p claims =
    resolve_statements
      (record {
        subject = claims.subject;
        user_id = claims.user_id;
        home_app = claims.app_id;
        email = claims.email;
        roles = claims.qualified_roles;
        statements = [];
        bound_roles = [];
        policies = [];
      })
      (policy_index p.snapshot)

-- 6. The trusted headers of an authenticated caller.
unfoldable pub stamp_claims : Config → TokenClaims → Principal → Bool → Bytes → Request → Request
stamp_claims cfg claims pr wildcard plan_name req =
    let identified =
      set_header (set_header req cfg.user_id_header claims.user_id) cfg.user_plan_header
        plan_name in
    let uid = set_header identified cfg.user_uid_header claims.subject in
    let mailed =
      if not (is_empty cfg.user_email_header) && not (is_empty claims.email)
      then set_header uid cfg.user_email_header claims.email
      else uid in
    let keycloak = if claims.keycloak then mailed else identified in
    let roles =
      if not (is_empty pr.bound_roles)
      then set_header keycloak cfg.user_roles_header (join pr.bound_roles (codes ","))
      else keycloak in
    let admin = if wildcard then set_header roles cfg.is_admin_header (codes "true") else roles in
    del_header admin cfg.session_id_header

-- 6. The client-supplied identity of an anonymous caller is set again, to its first value.
unfoldable pub stamp_anonymous : Config → Request → Request
stamp_anonymous cfg req =
    let session_id = get req.headers cfg.session_id_header in
    let device_id = get req.headers cfg.device_id_header in
    let sessioned =
      if not (is_empty session_id) then set_header req cfg.session_id_header session_id else req in
    if not (is_empty device_id)
    then set_header sessioned cfg.device_id_header device_id
    else sessioned

unfoldable pub anonymous_key : Config → Bytes → Request → Bytes
anonymous_key cfg target req =
    codes "app:"
    ++ (target
        ++ (codes "|"
            ++ anonymous_rate_limit_key (get req.headers cfg.device_id_header)
                (get req.headers cfg.session_id_header) (client_ip (stamp_anonymous cfg req))))

abbrev pub user_key : Bytes → Bytes → Bytes
user_key target user_id = codes "app:" ++ (target ++ (codes "|user:" ++ user_id))
