-- ===== src/Policy/Gate.antt =====
-- What the policy engine has established when it forwards a request for a matched endpoint.
use traefik_plugin.Base.{
  Bool, true, false, ◌&&◌, not, some, [], Bytes, is_empty, cut, ◌≡◌, ◌⊎◌, inl, inr, refl, arith,
  Bool-cases,
}
use traefik_plugin.Config.{Config}
use traefik_plugin.Authz.{Principal, granted, is_wildcard}
use traefik_plugin.Http.{Headers, Request, get}
use traefik_plugin.Jwt.{TokenClaims, Auth, anonymous, authenticated, rejected}
use traefik_plugin.Plugin.{
  GatewayPlugin, Services, forwarded, write_json, forward, owner_value, has_legacy_api_key,
  reject_legacy_api_key, extract_owner, owner_matches, too_many_requests,
}
use traefik_plugin.Caller.{principal_for, stamp_claims, stamp_anonymous, anonymous_key, user_key}
use traefik_plugin.Policy.{
  deny, auth_required, owner_denied, authenticate, apply_rate_limit, limit_and_forward,
  serve_anonymous, serve_granted, serve_authenticated, serve_auth, serve_endpoint,
}
use traefik_plugin.Snapshot.{CompiledEndpoint}

-- The owner of a resource is read from the path and the query, which no stage changes.
pub extract_owner_lem :
    (ep : CompiledEndpoint) (r q : Request)
    → r.path ≡ q.path
    → r.query ≡ q.query
    → extract_owner ep r ≡ extract_owner ep q
unfolding extract_owner
extract_owner_lem ep r q h k = λ i. owner_value ep (h i) (k i) (cut ep.owner_param b':')

stamp_claims-target :
    (cfg : Config) (claims : TokenClaims) (pr : Principal) (wildcard : Bool) (plan : Bytes)
    (req : Request)
    → ((stamp_claims cfg claims pr wildcard plan req).path ≡ req.path)
      × ((stamp_claims cfg claims pr wildcard plan req).query ≡ req.query)
unfolding stamp_claims
stamp_claims-target cfg claims pr wildcard plan req = (ground arith, ground arith)

module _ {S : Type 0} (services : Services S) where
  open services use {resolve_plan}

  limit_and_forward-forwarded :
      (p : GatewayPlugin) (ep : CompiledEndpoint) (wildcard : Bool) (key plan : Bytes)
      (w w' : Headers) (req req' : Request) (s s' : S)
      → limit_and_forward services p ep wildcard key plan w req s ≡ (forwarded req' w', s')
      → req ≡ req'
  unfolding limit_and_forward apply_rate_limit forward too_many_requests
  limit_and_forward-forwarded p ep wildcard key plan w w' req req' s s' h = ground arith

  module _ (p : GatewayPlugin) (ep : CompiledEndpoint) (target : Bytes) (req req' : Request) where
    -- An anonymous caller passes only where no permission is required and no owner is named.
    pub record IsOpen : Type 0 where
      pub no_permission : ep.required_permission ≡ []
      pub no_owner : ep.owner_param ≡ []
      pub stamped : req' ≡ stamp_anonymous p.config req

    -- An authenticated caller passes only with the permission, as the owner or a wildcard holder.
    pub record IsCleared (claims : TokenClaims) : Type 0 where
      pub permitted :
          (ep.required_permission ≡ [])
          ⊎ (granted (some (principal_for p claims)) ep.required_permission target ≡ true)
      pub owned :
          (ep.owner_param ≡ [])
          ⊎ (is_wildcard (some (principal_for p claims)) target ≡ true)
          ⊎ (owner_matches (extract_owner ep req) claims.user_id claims.subject ≡ true)
      pub plan : Bytes
      pub stamped :
          req'
          ≡ stamp_claims p.config claims
              (principal_for p claims)
              (is_wildcard (some (principal_for p claims)) target)
              plan
              req

    serve_anonymous-IsOpen :
        (w w' : Headers) (s s' : S)
        → serve_anonymous services p ep target w req s ≡ (forwarded req' w', s')
        → IsOpen
    unfolding serve_anonymous auth_required
    serve_anonymous-IsOpen w w' s s' h = ground (
      arith,
      limit_and_forward-forwarded p ep false (anonymous_key p.config target req)
          p.config.default_plan_name w w' (stamp_anonymous p.config req) req' s s',
    )

    serve_granted-IsCleared :
        (claims : TokenClaims) (w w' : Headers) (s s' : S)
        → (ep.required_permission ≡ [])
          ⊎ (granted (some (principal_for p claims)) ep.required_permission target ≡ true)
        → serve_granted services p ep target claims w req s ≡ (forwarded req' w', s')
        → IsCleared claims
    unfolding serve_granted owner_denied
    serve_granted-IsCleared claims w w' s s' allowed h =
        let pr = principal_for p claims in
        let wildcard = is_wildcard (some pr) target in
        let planned = resolve_plan target claims.user_id p.config.default_plan_name s in
        let stamped = stamp_claims p.config claims pr wildcard planned.0 req in
        let (path, query) = stamp_claims-target p.config claims pr wildcard planned.0 req in
        let same_owner = extract_owner_lem ep stamped req path query in
        record {
          permitted = allowed;
          owned = ground (arith, same_owner);
          plan = planned.0;
          stamped = ground (
            arith,
            limit_and_forward-forwarded p ep wildcard (user_key target claims.user_id) planned.0 w
                w' stamped req' planned.1 s',
          );
        }

    serve_authenticated-IsCleared :
        (claims : TokenClaims) (w w' : Headers) (s s' : S)
        → serve_authenticated services p ep target claims w req s ≡ (forwarded req' w', s')
        → IsCleared claims
    unfolding serve_authenticated deny
    serve_authenticated-IsCleared claims w w' s s' h =
        let permitted = granted (some (principal_for p claims)) ep.required_permission target in
        elim (Bool-cases (not (is_empty ep.required_permission) && not permitted)) [
          | inl e ↦ ground arith
          | inr e ↦ serve_granted-IsCleared claims w w' s s' (ground arith) (ground arith)
        ]

    -- Either an anonymous caller or an authenticated one.
    abbrev pub Passes : Auth → Type 0
    Passes a =
        ((a ≡ anonymous) × IsOpen)
        ⊎ ((claims : TokenClaims) × (a ≡ authenticated claims) × IsCleared claims)

    serve_auth-Passes :
        (w w' : Headers) (a : Auth × S) (s' : S)
        → serve_auth services p ep target w req a ≡ (forwarded req' w', s')
        → Passes a.0
    serve_auth-Passes w w' (anonymous, s) s' h = inl (refl, serve_anonymous-IsOpen w w' s s' h)
    serve_auth-Passes w w' (authenticated claims, s) s' h =
        inr (claims, refl, serve_authenticated-IsCleared claims w w' s s' h)
    serve_auth-Passes w w' (rejected e, s) s' h = unfold write_json in cc

-- A request for a matched endpoint reaches the backend only without a retired API key (or with
-- authentication switched off), and then either from an anonymous caller at an endpoint that
-- requires no permission and names no owner, or from an authenticated caller who is granted the
-- required permission and is the owner of the resource or a wildcard holder. The backend receives
-- the request with the headers stamped for that caller and nothing else changed.
pub serve_endpoint-Passes :
    {S : Type 0} (services : Services S) (p : GatewayPlugin) (ep : CompiledEndpoint)
    (target : Bytes) (req req' : Request) (w w' : Headers) (s s' : S)
    → serve_endpoint services p ep target w req s ≡ (forwarded req' w', s')
    → ((p.config.disable_auth ≡ true) ⊎ (has_legacy_api_key req p.config.jwt_header_key ≡ false))
      × Passes services p ep target req req'
          (authenticate services p target (get req.headers p.config.jwt_header_key) s).0
unfolding serve_endpoint reject_legacy_api_key
serve_endpoint-Passes services p ep target req req' w w' s s' h =
    elim (Bool-cases
      (not p.config.disable_auth && has_legacy_api_key req p.config.jwt_header_key)) [
        | inl e ↦ ground arith
        | inr e ↦ (
          ground arith,
          serve_auth-Passes services p ep target req req' w w'
              (authenticate services p target (get req.headers p.config.jwt_header_key) s) s'
              (ground arith),
        )
      ]
