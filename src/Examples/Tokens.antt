-- ===== src/Examples/Tokens.antt =====
-- The laws of the token checks at the fixture's token.
use traefik_plugin.Base.{
  ℕ, ◌≤◌, Bool, true, false, some, [], ◌∷◌, Bytes, codes, ◌≡◌, ◌≢◌, ◌⊎◌, refl, str_eq,
}
use traefik_plugin.Authz.{token_issuer}
use traefik_plugin.Jwt.{
  TokenClaims, authenticated, parse_keycloak_jwt, token_claims, accept_claims, key_func,
  is_positive_int, numeric_user_id,
}
use traefik_plugin.Jwt.Accepted.{IsAccepted, parse_keycloak_jwt-IsAccepted}
use traefik_plugin.Jwt.UserId.{numeric_user_id-parse_int}
use traefik_plugin.Base.Int.{pos}
use traefik_plugin.Base.Decimal.{parse_int, max_int64}
use traefik_plugin.Plugin.{KeycloakRealmRuntime, keycloak_realm_for, parse_keycloak_auth}
use traefik_plugin.Caller.{choose_realm}
use traefik_plugin.Policy.{authenticate}
use traefik_plugin.Policy.Realm.{IsRealmOf, authenticate-IsRealmOf}
use traefik_plugin.Examples.Fixtures.{acme, issuer, realm, gateway, services, token_fields}

abbrev header : Bytes
header = codes "Bearer a.e30.c"

abbrev claims : TokenClaims
claims =
    token_claims (token_fields (codes "root")) (codes "luid") (codes "admin" ∷ codes "owner" ∷ [])

parse_keycloak_jwt-IsAccepted_example :
    IsAccepted issuer (codes "admin" ∷ codes "owner" ∷ []) claims
unfolding parse_keycloak_jwt accept_claims key_func str_eq traefik_plugin.Base.trim_prefix
    traefik_plugin.Base.has_prefix traefik_plugin.Jwt.claim
parse_keycloak_jwt-IsAccepted_example =
    parse_keycloak_jwt-IsAccepted (services.key_for_kid realm.jwks) services.parse_jwt header issuer
      (codes "luid") (codes "admin" ∷ codes "owner" ∷ []) 0 claims refl

authenticate-IsRealmOf_example :
    (false ≡ false)
    × ((r : KeycloakRealmRuntime) × IsRealmOf gateway acme
          (token_issuer services.decode_iss header)
          r
        × IsAccepted r.issuer (codes "admin" ∷ codes "owner" ∷ []) claims)
unfolding authenticate choose_realm keycloak_realm_for str_eq token_issuer traefik_plugin.Base.split
    traefik_plugin.Base.trim_prefix traefik_plugin.Base.has_prefix
    traefik_plugin.Base.Base64.decode_raw_url parse_keycloak_auth parse_keycloak_jwt key_func
    accept_claims traefik_plugin.Jwt.claim
authenticate-IsRealmOf_example = authenticate-IsRealmOf services gateway acme header 0 claims refl

numeric_user_id-parse_int_example :
    (n : ℕ) × (parse_int (numeric_user_id (codes "-5") (codes "s-1")) ≡ some (pos n))
    × (1 ≤ n)
    × (n ≤ max_int64)
numeric_user_id-parse_int_example = numeric_user_id-parse_int (codes "-5") (codes "s-1")
