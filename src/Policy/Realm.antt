-- ===== src/Policy/Realm.antt =====
-- Which realm validates a token, and what a validated token is known to hold.
use traefik_plugin.Base.{
  false, ◌||◌, Option, none, some, [], ◌∷◌, Bytes, str_eq, str_eq_iff, is_empty, ◌≡◌, ◌≢◌, ◌⊎◌, inl,
  inr, sym, ap, ◌∙◌, arith, Bool-cases, Option-cases,
}
use mathlib.Core.Option.{some-injective}
use traefik_plugin.Authz.{token_issuer}
use traefik_plugin.Jwt.{TokenClaims, authenticated}
use traefik_plugin.Jwt.Accepted.{IsAccepted, parse_keycloak_jwt-IsAccepted}
use traefik_plugin.Plugin.{
  GatewayPlugin, KeycloakRealmRuntime, Services, keycloak_realm_for, parse_keycloak_auth,
}
use traefik_plugin.Caller.{issuer_is, either_realm, choose_realm}
use traefik_plugin.Policy.{authenticate}

issuer_is-some :
    (iss : Bytes) (o : Option KeycloakRealmRuntime) (realm : KeycloakRealmRuntime)
    → issuer_is iss o ≡ some realm
    → (o ≡ some realm) × (realm.issuer ≡ iss)
issuer_is-some iss none realm h = cc
issuer_is-some iss (some r) realm h = elim (Bool-cases (str_eq r.issuer iss)) [
  | inl e ↦
      let same : ◌≡◌ {A = Option KeycloakRealmRuntime} (some r) (some realm) = ground arith in
      (same, ap (λ x. x.issuer) (sym (some-injective _ _ same)) ∙ (str_eq_iff r.issuer iss).0 e)
  | inr e ↦ ground arith
]

either_realm-cases :
    (o q : Option KeycloakRealmRuntime) (realm : KeycloakRealmRuntime)
    → either_realm o q ≡ some realm
    → (o ≡ some realm) ⊎ (q ≡ some realm)
either_realm-cases none q realm h = inr h
either_realm-cases (some r) q realm h = inl h

abbrev pub IsRealmOf : GatewayPlugin → Bytes → Bytes → KeycloakRealmRuntime → Type 0
IsRealmOf p app iss realm =
    (realm.issuer ≡ iss)
    × (((app ≢ []) × (p.keycloak_realms app ≡ some realm)) ⊎ (p.operator_realm ≡ some realm))

-- The chosen realm has the token's issuer, and is the application's own or the operators'.
choose_realm-IsRealmOf :
    (p : GatewayPlugin) (app iss : Bytes) (realm : KeycloakRealmRuntime)
    → choose_realm p app iss ≡ some realm
    → IsRealmOf p app iss realm
unfolding choose_realm keycloak_realm_for
choose_realm-IsRealmOf p [] iss realm h =
    let (operator, same) = issuer_is-some iss p.operator_realm realm h in (same, inr operator)
choose_realm-IsRealmOf p (c ∷ app) iss realm h = elim (either_realm-cases _ _ realm h) [
  | inl own ↦
      let (bound, same) = issuer_is-some iss (p.keycloak_realms (c ∷ app)) realm own in
      (same, inl ((λ e. cc), bound))
  | inr other ↦
      let (operator, same) = issuer_is-some iss p.operator_realm realm other in (same, inr operator)
]

parse_keycloak_auth-IsAccepted :
    {S : Type 0} (services : Services S) (p : GatewayPlugin) (realm : KeycloakRealmRuntime)
    (h : Bytes) (s : S) (claims : TokenClaims)
    → (parse_keycloak_auth services p realm h s).0 ≡ authenticated claims
    → IsAccepted realm.issuer p.config.keycloak_admin_roles claims
unfolding parse_keycloak_auth
parse_keycloak_auth-IsAccepted services p realm [] s claims e = cc
parse_keycloak_auth-IsAccepted services p realm (b ∷ bs) s claims e =
    parse_keycloak_jwt-IsAccepted _ _ (b ∷ bs) realm.issuer p.config.keycloak_user_id_claim
      p.config.keycloak_admin_roles s claims e

-- A token authenticates only if authentication is on and its own issuer is that of the application's
-- realm or of the operators' realm; its claims are then validated claims of that realm: issued by it,
-- with a subject, an application and a positive int64 as the user id.
pub authenticate-IsRealmOf :
    {S : Type 0} (services : Services S) (p : GatewayPlugin) (app h : Bytes) (s : S)
    (claims : TokenClaims)
    → (authenticate services p app h s).0 ≡ authenticated claims
    → (p.config.disable_auth ≡ false)
      × ((realm : KeycloakRealmRuntime) × IsRealmOf p app (token_issuer services.decode_iss h) realm
          × IsAccepted realm.issuer p.config.keycloak_admin_roles claims)
unfolding authenticate
authenticate-IsRealmOf services p app h s claims e =
    elim (Bool-cases (is_empty h || p.config.disable_auth)) [
      | inl skipped ↦ ground arith
      | inr checked ↦
          elim (Option-cases (choose_realm p app (token_issuer services.decode_iss h))) [
            | inl other ↦ ground arith
            | inr (realm, chosen) ↦ (
              ground arith,
              (
                realm,
                choose_realm-IsRealmOf p app (token_issuer services.decode_iss h) realm chosen,
                parse_keycloak_auth-IsAccepted services p realm h s claims (ground arith),
              ),
            )
          ]
    ]
