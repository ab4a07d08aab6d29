-- ===== src/Jwt/Accepted.antt =====
-- What parse_keycloak_jwt guarantees of the claims that it returns.
use traefik_plugin.Base.{
  true, Option, List, [], ◌∷◌, Bytes, codes, str_eq, str_eq_iff, Some, In, any_iff, any, ◌≡◌, ◌≢◌,
  ◌↔◌, inl, inr, refl, subst, trim_prefix, arith, Bool-cases, Option-cases,
}
use traefik_plugin.Authz.{add_role}
use traefik_plugin.Authz.Qualify.{IsRoleSet, add_role-IsRoleSet, qualify_roles-IsRoleSet}
use traefik_plugin.Jwt.{
  Fields, Items, nil, cons, TokenHeader, TokenClaims, authenticated, parse_keycloak_jwt,
  accept_claims, token_claims, key_func, is_positive_int, claim, as_string, keycloak_roles,
  append_roles, client_role_items, realm_role_items,
}
use traefik_plugin.Jwt.UserId.{numeric_user_id-positive}

-- The issuer is the expected one, the subject and the application are known, the user id is a
-- positive int64, the roles are distinct and not empty, and the caller is an administrator exactly
-- when one of the roles is an admin role.
pub record IsAccepted (issuer : Bytes) (admin_roles : List Bytes) (c : TokenClaims) : Type 0 where
  pub issued : c.issuer ≡ issuer
  pub subject : c.subject ≢ []
  pub application : c.app_id ≢ []
  pub user_id : is_positive_int c.user_id ≡ true
  pub keycloak : c.keycloak ≡ true
  pub roles : IsRoleSet c.roles
  pub qualified_roles : IsRoleSet c.qualified_roles
  pub admin : (c.is_admin ≡ true) ↔ Some (λ r. In r admin_roles) c.roles

append_roles-IsRoleSet :
    (vs : Items) (out : List Bytes) → IsRoleSet out → IsRoleSet (append_roles out vs)
unfolding append_roles
append_roles-IsRoleSet nil out h = h
append_roles-IsRoleSet (cons v vs) out h =
    append_roles-IsRoleSet vs (add_role out (as_string v)) (add_role-IsRoleSet out (as_string v) h)

admin_iff :
    (admin_roles roles : List Bytes)
    → (any (λ r. any (λ a. str_eq r a) admin_roles) roles ≡ true)
      ↔ Some (λ r. In r admin_roles) roles
admin_iff admin_roles roles = any_iff _ (λ r. any_iff _ (λ a. str_eq_iff r a) admin_roles) roles

keycloak_roles-IsRoleSet : (claims : Fields) → IsRoleSet (keycloak_roles claims)
unfolding keycloak_roles
keycloak_roles-IsRoleSet claims =
    append_roles-IsRoleSet (realm_role_items claims) _
      (append_roles-IsRoleSet (client_role_items claims) [] (record { distinct = tt; named = tt }))

-- The three checks after the library's.
abbrev Checked : Bytes → Fields → Type 0
Checked issuer claims =
    (as_string (claim claims (codes "iss")) ≡ issuer)
    × (as_string (claim claims (codes "sub")) ≢ [])
    × (as_string (claim claims (codes "app_id")) ≢ [])

accept_claims-checks :
    (issuer user_id_claim : Bytes) (admin_roles : List Bytes) (claims : Fields) (c : TokenClaims)
    → accept_claims issuer user_id_claim admin_roles claims ≡ authenticated c
    → Checked issuer claims × (token_claims claims user_id_claim admin_roles ≡ c)
unfolding accept_claims
accept_claims-checks issuer user_id_claim admin_roles claims c h =
    ground (arith, str_eq_iff (as_string (claim claims (codes "iss"))) issuer)

token_claims-IsAccepted :
    (issuer user_id_claim : Bytes) (admin_roles : List Bytes) (claims : Fields)
    → Checked issuer claims
    → IsAccepted issuer admin_roles (token_claims claims user_id_claim admin_roles)
unfolding token_claims
token_claims-IsAccepted issuer user_id_claim admin_roles claims (issued, subject, application) =
    record {
      issued = issued;
      subject = subject;
      application = application;
      user_id = numeric_user_id-positive _ _;
      keycloak = refl;
      roles = keycloak_roles-IsRoleSet claims;
      qualified_roles = qualify_roles-IsRoleSet _ _ _;
      admin = admin_iff admin_roles (keycloak_roles claims);
    }

accept_claims-IsAccepted :
    (issuer user_id_claim : Bytes) (admin_roles : List Bytes) (claims : Fields) (c : TokenClaims)
    → accept_claims issuer user_id_claim admin_roles claims ≡ authenticated c
    → IsAccepted issuer admin_roles c
unfolding accept_claims
accept_claims-IsAccepted issuer user_id_claim admin_roles claims c h =
    let (checks, e) = accept_claims-checks issuer user_id_claim admin_roles claims c h in
    subst (IsAccepted issuer admin_roles) e
      (token_claims-IsAccepted issuer user_id_claim admin_roles claims checks)

-- Claims are returned only if their issuer is the expected one and their subject and application are
-- not empty; their user id is then a positive int64 in decimal, their roles are distinct and not
-- empty, and they are marked as an administrator's exactly when one of the roles is an admin role.
pub parse_keycloak_jwt-IsAccepted :
    {S Key : Type 0} (key_for_kid : Bytes → S → Option Key × S)
    (parse_jwt : Bytes → (TokenHeader → S → Option Key × S) → S → Option Fields × S)
    (auth_header issuer user_id_claim : Bytes) (admin_roles : List Bytes) (s : S) (c : TokenClaims)
    → (parse_keycloak_jwt key_for_kid parse_jwt auth_header issuer user_id_claim admin_roles s).0
      ≡ authenticated c
    → IsAccepted issuer admin_roles c
unfolding parse_keycloak_jwt
parse_keycloak_jwt-IsAccepted key_for_kid parse_jwt [] issuer user_id_claim admin_roles s c h = cc
parse_keycloak_jwt-IsAccepted key_for_kid parse_jwt (b ∷ bs) issuer user_id_claim admin_roles s c
      h =
    let token = trim_prefix (b ∷ bs) (codes "Bearer ") in
    elim (Bool-cases (str_eq token (b ∷ bs))) [
      | inl bare ↦ ground arith
      | inr cut ↦ elim (Option-cases (parse_jwt token (key_func key_for_kid) s).0) [
        | inl bad ↦ ground arith
        | inr (claims, e) ↦
            accept_claims-IsAccepted issuer user_id_claim admin_roles claims c (ground arith)
      ]
    ]
