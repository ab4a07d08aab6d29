-- ===== src/Legacy/Gate.antt =====
-- What the legacy engine has established when it forwards a request for a matched endpoint.
use traefik_plugin.Base.{
  Bool, true, false, ◌&&◌, not, none, some, [], Bytes, codes, str_eq, str_eq_iff, is_empty, ◌≡◌,
  ◌⊎◌, inl, inr, refl, sym, arith, Bool-cases, Option-cases,
}
use traefik_plugin.Config.{Config}
use traefik_plugin.Http.{Headers, Request, get}
use traefik_plugin.Jwt.{TokenClaims, Auth, anonymous, authenticated, rejected}
use traefik_plugin.Plugin.{
  GatewayPlugin, Services, Outcome, replied, forwarded, write_json, forward, has_legacy_api_key,
  reject_legacy_api_key, extract_owner, owner_matches, too_many_requests,
}
use traefik_plugin.Caller.{stamp_anonymous, anonymous_key, user_key}
use traefik_plugin.Policy.Gate.{extract_owner_lem}
use traefik_plugin.Legacy.{
  has, authz_from_token_roles, stamp_authz_headers, required_permission_of, stamp_token,
  auth_required, permission_denied, owner_denied, foreign_token, authenticate, limit_and_forward,
  serve_anonymous, serve_granted, serve_authenticated, serve_auth, serve_endpoint, serve_legacy,
}
use traefik_plugin.Snapshot.{CompiledEndpoint, match_endpoint}

stamp_token-target :
    (cfg : Config) (claims : TokenClaims) (plan : Bytes) (req : Request)
    → ((stamp_token cfg claims plan req).path ≡ req.path)
      × ((stamp_token cfg claims plan req).query ≡ req.query)
unfolding stamp_token stamp_authz_headers authz_from_token_roles
stamp_token-target cfg claims plan req = (ground arith, ground arith)

-- Only an administrator holds any permission.
has-authz_from_token_roles :
    (claims : TokenClaims) (perm : Bytes)
    → has (authz_from_token_roles claims) perm ≡ claims.is_admin
unfolding has authz_from_token_roles str_eq
has-authz_from_token_roles claims perm = ground arith

module _ {S : Type 0} (services : Services S) where
  open services use {resolve_plan}

  limit_and_forward-forwarded :
      (p : GatewayPlugin) (ep : CompiledEndpoint) (key plan : Bytes) (w w' : Headers)
      (req req' : Request) (s s' : S)
      → limit_and_forward services p ep key plan w req s ≡ (forwarded req' w', s')
      → req ≡ req'
  unfolding limit_and_forward forward too_many_requests
  limit_and_forward-forwarded p ep key plan w w' req req' s s' h = ground arith

  module _ (p : GatewayPlugin) (ep : CompiledEndpoint) (app_id : Bytes) (req req' : Request) where
    -- An anonymous caller passes only where no permission is required and no owner is named.
    pub record IsOpen : Type 0 where
      pub no_permission : required_permission_of p.config ep ≡ []
      pub no_owner : ep.owner_param ≡ []
      pub stamped : req' ≡ stamp_anonymous p.config req

    -- An authenticated caller passes only with a token that names no other application, as an
    -- administrator where a permission is required, and as the owner or an administrator where an
    -- owner is named.
    pub record IsCleared (claims : TokenClaims) : Type 0 where
      pub home : (app_id ≡ []) ⊎ (claims.app_id ≡ []) ⊎ (claims.app_id ≡ app_id)
      pub permitted : (required_permission_of p.config ep ≡ []) ⊎ (claims.is_admin ≡ true)
      pub owned :
          (ep.owner_param ≡ [])
          ⊎ (get req'.headers p.config.is_admin_header ≡ codes "true")
          ⊎ (owner_matches (extract_owner ep req) claims.user_id claims.subject ≡ true)
      pub plan : Bytes
      pub stamped : req' ≡ stamp_token p.config claims plan req

    serve_anonymous-IsOpen :
        (w w' : Headers) (s s' : S)
        → serve_anonymous services p ep app_id w req s ≡ (forwarded req' w', s')
        → IsOpen
    unfolding serve_anonymous auth_required
    serve_anonymous-IsOpen w w' s s' h = ground (
      arith,
      limit_and_forward-forwarded p ep (anonymous_key p.config app_id req)
          p.config.default_plan_name w w' (stamp_anonymous p.config req) req' s s',
    )

    abbrev Granted : TokenClaims → Bytes → Type 0
    Granted claims plan =
        ((ep.owner_param ≡ [])
          ⊎ (get req'.headers p.config.is_admin_header ≡ codes "true")
          ⊎ (owner_matches (extract_owner ep req) claims.user_id claims.subject ≡ true))
        × (stamp_token p.config claims plan req ≡ req')

    serve_granted-Granted :
        (claims : TokenClaims) (w w' : Headers) (s s' : S)
        → serve_granted services p ep app_id claims w req s ≡ (forwarded req' w', s')
        → Granted claims (resolve_plan app_id claims.user_id p.config.default_plan_name s).0
    unfolding serve_granted owner_denied
    serve_granted-Granted claims w w' s s' h =
        let planned = resolve_plan app_id claims.user_id p.config.default_plan_name s in
        let stamped = stamp_token p.config claims planned.0 req in
        let (path, query) = stamp_token-target p.config claims planned.0 req in
        let same_owner = extract_owner_lem ep stamped req path query in
        let same : stamped ≡ req' = ground (
          arith,
          limit_and_forward-forwarded p ep (user_key app_id claims.user_id) planned.0 w w' stamped
              req' planned.1 s',
        ) in
        (
          ground (
            arith,
            same_owner,
            same,
            str_eq_iff (get stamped.headers p.config.is_admin_header) (codes "true"),
          ),
          same,
        )

    abbrev is_foreign : TokenClaims → Bool
    is_foreign claims =
        not (is_empty claims.app_id) && (not (is_empty app_id) && not (str_eq claims.app_id app_id))

    serve_authenticated-IsCleared :
        (claims : TokenClaims) (w w' : Headers) (s s' : S)
        → serve_authenticated services p ep app_id claims w req s ≡ (forwarded req' w', s')
        → IsCleared claims
    unfolding serve_authenticated foreign_token permission_denied
    serve_authenticated-IsCleared claims w w' s s' h =
        let required = required_permission_of p.config ep in
        elim (Bool-cases (is_foreign claims)) [
          | inl foreign ↦ ground arith
          | inr home ↦
              elim (Bool-cases
                (not (is_empty required) && not (has (authz_from_token_roles claims) required))) [
                  | inl denied ↦ ground arith
                  | inr allowed ↦
                      let (owned, same) = serve_granted-Granted claims w w' s s' (ground arith) in
                      record {
                        home = ground (arith, str_eq_iff claims.app_id app_id);
                        permitted = ground (arith, has-authz_from_token_roles claims required);
                        owned = owned;
                        plan = _;
                        stamped = sym same;
                      }
                ]
        ]

    -- Either an anonymous caller or an authenticated one.
    abbrev pub Passes : Auth → Type 0
    Passes a =
        ((a ≡ anonymous) × IsOpen)
        ⊎ ((claims : TokenClaims) × (a ≡ authenticated claims) × IsCleared claims)

    serve_auth-Passes :
        (w w' : Headers) (a : Auth × S) (s' : S)
        → serve_auth services p ep app_id w req a ≡ (forwarded req' w', s')
        → Passes a.0
    serve_auth-Passes w w' (anonymous, s) s' h = inl (refl, serve_anonymous-IsOpen w w' s s' h)
    serve_auth-Passes w w' (authenticated claims, s) s' h =
        inr (claims, refl, serve_authenticated-IsCleared claims w w' s s' h)
    serve_auth-Passes w w' (rejected e, s) s' h = unfold write_json in cc

abbrev pub Gated :
    {S : Type 0}
    → Services S
    → GatewayPlugin
    → CompiledEndpoint
    → Bytes
    → Request
    → Request
    → S
    → Type 0
Gated services p ep app_id req req' s =
    ((p.config.disable_auth ≡ true) ⊎ (has_legacy_api_key req p.config.jwt_header_key ≡ false))
    × Passes services p ep app_id req req'
        (authenticate services p app_id (get req.headers p.config.jwt_header_key) s).0

serve_endpoint-Gated :
    {S : Type 0} (services : Services S) (p : GatewayPlugin) (ep : CompiledEndpoint)
    (app_id : Bytes) (req req' : Request) (w w' : Headers) (s s' : S)
    → serve_endpoint services p ep app_id w req s ≡ (forwarded req' w', s')
    → Gated services p ep app_id req req' s
unfolding serve_endpoint reject_legacy_api_key
serve_endpoint-Gated services p ep app_id req req' w w' s s' h =
    elim (Bool-cases
      (not p.config.disable_auth && has_legacy_api_key req p.config.jwt_header_key)) [
        | inl e ↦ ground arith
        | inr e ↦ (
          ground arith,
          serve_auth-Passes services p ep app_id req req' w w'
              (authenticate services p app_id (get req.headers p.config.jwt_header_key) s) s'
              (ground arith),
        )
      ]

module _ {S : Type 0} (services : Services S) (p : GatewayPlugin) (app_id : Bytes) (w : Headers)
    (req : Request) (s : S) where
  -- What an outcome tells: a request goes on unchanged where it matches no endpoint, and otherwise
  -- behind the gates of its endpoint; the plugin replies only where there is an endpoint.
  abbrev pub IsGuarded : Outcome → Type 0
  IsGuarded (forwarded req' w') =
      ((match_endpoint p.snapshot app_id req.method req.path ≡ none) × (req' ≡ req) × (w' ≡ w))
      ⊎ ((ep : CompiledEndpoint) × (match_endpoint p.snapshot app_id req.method req.path ≡ some ep)
          × Gated services p ep app_id req req' s)
  IsGuarded (replied status h body) =
      (ep : CompiledEndpoint) × (match_endpoint p.snapshot app_id req.method req.path ≡ some ep)

  serve_legacy-outcome :
      (out : Outcome) (s' : S) → serve_legacy services p app_id w req s ≡ (out, s') → IsGuarded out
  unfolding serve_legacy forward
  serve_legacy-outcome (forwarded req' w') s' h =
      elim (Option-cases (match_endpoint p.snapshot app_id req.method req.path)) [
        | inl miss ↦ inl (miss, ground arith, ground arith)
        | inr (ep, hit) ↦
            inr
              (ep, hit, serve_endpoint-Gated services p ep app_id req req' w w' s s' (ground arith))
      ]
  serve_legacy-outcome (replied status h body) s' e =
      elim (Option-cases (match_endpoint p.snapshot app_id req.method req.path)) [
        | inl miss ↦ ground arith
        | inr hit ↦ hit
      ]

-- The legacy engine forwards every request that matches no endpoint of its application unchanged,
-- with the response headers unchanged, and replies itself only to a request that matches one. A
-- request for a matched endpoint it forwards only without a retired API key (or with authentication
-- switched off), and then either from an anonymous caller at an endpoint that requires no permission
-- and names no owner, or from an authenticated caller whose token names no other application, who
-- is an administrator where a permission is required, and who is the owner of the resource, or is
-- marked as an administrator to the backend, where the endpoint names an owner. The backend
-- receives such a request with the headers stamped for that caller.
pub serve_legacy-IsGuarded :
    {S : Type 0} (services : Services S) (p : GatewayPlugin) (app_id : Bytes) (w : Headers)
    (req : Request) (s : S)
    → IsGuarded services p app_id w req s (serve_legacy services p app_id w req s).0
serve_legacy-IsGuarded services p app_id w req s =
    serve_legacy-outcome services p app_id w req s (serve_legacy services p app_id w req s).0
      (serve_legacy services p app_id w req s).1 refl
