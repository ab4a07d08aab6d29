-- ===== src/Policy/Admin.antt =====
-- Who reaches a backend as an administrator under the policy engine.
use traefik_plugin.Base.{
  Bool, true, false, some, [], ◌∷◌, Bytes, codes, str_eq, str_eq_refl, All, if◌then◌else◌, ◌≡◌, ◌≢◌,
  inl, inr, ap, ◌∙◌, arith, Bool-cases,
}
use traefik_plugin.Config.{Config}
use traefik_plugin.Authz.{Principal, is_wildcard}
use traefik_plugin.Http.{Headers, Request, get, set, del, canonical}
use traefik_plugin.Jwt.{TokenClaims, authenticated}
use traefik_plugin.Plugin.{GatewayPlugin, Services, forwarded}
use traefik_plugin.Caller.{principal_for, stamp_claims, stamp_anonymous}
use traefik_plugin.Policy.{authenticate, serve_endpoint}
use traefik_plugin.Policy.Gate.{serve_endpoint-Passes}
use traefik_plugin.Snapshot.{CompiledEndpoint}

-- No other header that the engine sets is the admin header.
abbrev pub AdminIsSeparate : Config → Type 0
AdminIsSeparate cfg =
    All (λ k. str_eq (canonical k) (canonical cfg.is_admin_header) ≡ false)
      (cfg.user_id_header ∷ cfg.user_plan_header ∷ cfg.user_uid_header ∷ cfg.user_email_header
        ∷ cfg.user_roles_header ∷ cfg.session_id_header ∷ cfg.device_id_header ∷ [])

get-stamp_claims :
    (cfg : Config) (claims : TokenClaims) (pr : Principal) (wildcard : Bool) (plan : Bytes)
    (req : Request)
    → AdminIsSeparate cfg
    → get (stamp_claims cfg claims pr wildcard plan req).headers cfg.is_admin_header
      ≡ (if wildcard then codes "true" else get req.headers cfg.is_admin_header)
unfolding stamp_claims get set del
get-stamp_claims cfg claims pr wildcard plan req d =
    ground (arith, str_eq_refl (canonical cfg.is_admin_header))

get-stamp_anonymous :
    (cfg : Config) (req : Request)
    → AdminIsSeparate cfg
    → get (stamp_anonymous cfg req).headers cfg.is_admin_header
      ≡ get req.headers cfg.is_admin_header
unfolding stamp_anonymous get set
get-stamp_anonymous cfg req d = ground arith

-- A request for a matched endpoint carries the admin header to the backend only if it came from an
-- authenticated caller who holds a literal "*" on the target application, given that the inbound
-- header was stripped and that no other header of the engine has its name.
pub serve_endpoint-admin :
    {S : Type 0} (services : Services S) (p : GatewayPlugin) (ep : CompiledEndpoint)
    (target : Bytes) (req req' : Request) (w w' : Headers) (s s' : S)
    → AdminIsSeparate p.config
    → get req.headers p.config.is_admin_header ≡ []
    → serve_endpoint services p ep target w req s ≡ (forwarded req' w', s')
    → get req'.headers p.config.is_admin_header ≢ []
    → (claims : TokenClaims) × ((authenticate services p target
          (get req.headers p.config.jwt_header_key)
          s).0
        ≡ authenticated claims)
      × (is_wildcard (some (principal_for p claims)) target ≡ true)
serve_endpoint-admin services p ep target req req' w w' s s' d blank h admin =
    elim (serve_endpoint-Passes services p ep target req req' w w' s s' h).1 [
      | inl (e, open_) ↦ absurd (
          admin (
            ap (λ r. get r.headers p.config.is_admin_header) open_.stamped
            ∙ get-stamp_anonymous p.config req d
            ∙ blank))
      | inr (claims, e, c) ↦ (
        claims,
        e,
        elim (Bool-cases (is_wildcard (some (principal_for p claims)) target)) [
          | inl holds ↦ holds
          | inr fails ↦ absurd (
              admin (
                ap (λ r. get r.headers p.config.is_admin_header) c.stamped
                ∙ (get-stamp_claims p.config claims (principal_for p claims)
                      (is_wildcard (some (principal_for p claims)) target) c.plan req d
                    ∙ rw (fails, blank))))
        ],
      )
    ]
