-- ===== src/Jwt.antt =====
-- jwt.go: the validated claims of a Keycloak access token. The library golang-jwt is a parameter.
-- ExpiresAt is only logged and is not carried.
pub mod UserId
pub mod Accepted
use traefik_plugin.Base.{
  ℕ, ◌+◌, ◌-◌, ◌*◌, ◌%◌, ◌^◌, Bool, true, false, ◌&&◌, ◌||◌, not, Option, none, some, List, [], ◌∷◌,
  ◌++◌, Bytes, codes, str_eq, has_prefix, trim_prefix, is_empty, any, length, leb, ltb, ◌==◌,
  if◌then◌else◌,
}
use Prim.Native.Nat.{bit_xor}
use traefik_plugin.Base.Int.{format_nat}
use traefik_plugin.Base.Decimal.{max_int64, is_digit, all, decimal}
use traefik_plugin.Authz.{add_role, qualify_roles}

-- The values of encoding/json; of a number nothing is read here.
mutual
  pub data Json : Type 0 where
    null : Json
    number : Json
    bool : Bool → Json
    str : Bytes → Json
    arr : Items → Json
    obj : Fields → Json

  pub data Items : Type 0 where
    nil : Items
    cons : Json → Items → Items

  pub data Fields : Type 0 where
    end : Fields
    field : Bytes → Json → Fields → Fields

pub record TokenClaims : Type 0 where
  pub user_id : Bytes
  pub issuer : Bytes
  pub app_id : Bytes
  pub keycloak : Bool
  pub is_admin : Bool
  pub roles : List Bytes
  pub qualified_roles : List Bytes
  pub subject : Bytes
  pub email : Bytes

pub data AuthError : Type 0 where
  malformed_header : AuthError
  invalid_token : AuthError
  issuer_mismatch : AuthError
  missing_subject : AuthError
  missing_app_id : AuthError
  issuer_not_accepted : AuthError

-- The results (nil, nil), (claims, nil) and (nil, err).
pub data Auth : Type 0 where
  anonymous : Auth
  authenticated : TokenClaims → Auth
  rejected : AuthError → Auth

-- A lookup in a JSON object; a missing key reads as null.
unfoldable pub claim : Fields → Bytes → Json
claim end key = null
claim (field k v fs) key = let rest = claim fs key in if str_eq k key then v else rest

-- v, _ := x.(string), x.(bool), x.(map[string]interface{}), x.([]interface{})
abbrev pub as_string : Json → Bytes
as_string (str s) = s
as_string _ = []

abbrev pub as_bool : Json → Bool
as_bool (bool b) = b
as_bool _ = false

abbrev pub as_fields : Json → Fields
as_fields (obj fs) = fs
as_fields _ = end

abbrev pub as_items : Json → Items
as_items (arr xs) = xs
as_items _ = nil

-- The closure collect: the strings of an array that are not empty.
unfoldable pub collect : Items → List Bytes
collect nil = []
collect (cons v vs) = if is_empty (as_string v) then collect vs else as_string v ∷ collect vs

unfoldable pub client_role_items : Fields → Items
client_role_items claims =
    let azp = as_string (claim claims (codes "azp")) in
    if is_empty azp
    then nil
    else as_items (
        claim (as_fields (claim (as_fields (claim claims (codes "resource_access"))) azp))
          (codes "roles"))

unfoldable pub realm_role_items : Fields → Items
realm_role_items claims =
    as_items (claim (as_fields (claim claims (codes "realm_access"))) (codes "roles"))

unfoldable pub keycloak_role_sets : Fields → List Bytes × List Bytes
keycloak_role_sets claims = (collect (client_role_items claims), collect (realm_role_items claims))

-- The closure appendRoles; seen holds exactly the names in roles.
unfoldable pub append_roles : List Bytes → Items → List Bytes
append_roles roles nil = roles
append_roles roles (cons v vs) = append_roles (add_role roles (as_string v)) vs

unfoldable pub keycloak_roles : Fields → List Bytes
keycloak_roles claims =
    append_roles (append_roles [] (client_role_items claims)) (realm_role_items claims)

-- strconv.ParseInt returns an error exactly where the digits spell more than max_int64.
unfoldable pub is_positive_int : Bytes → Bool
is_positive_int s =
    if is_empty s || ltb 19 (length s)
    then false
    else if not (all is_digit s)
    then false
    else leb (decimal 0 s) max_int64 && ltb 0 (decimal 0 s)

abbrev offset64 : ℕ
offset64 = 14695981039346656037

abbrev prime64 : ℕ
prime64 = 1099511628211

-- FNV-1a in uint64.
unfoldable pub fnv : ℕ → Bytes → ℕ
fnv h [] = h
fnv h (c ∷ s) = fnv (bit_xor h c * prime64 % 2 ^ 64) s

-- The top bit cleared, and 0 mapped to 1.
unfoldable pub derive_user_id : Bytes → ℕ
derive_user_id sub = let h = fnv offset64 sub % 2 ^ 63 in if h == 0 then 1 else h

unfoldable pub numeric_user_id : Bytes → Bytes → Bytes
numeric_user_id claim_value sub =
    if is_positive_int claim_value then claim_value else format_nat (derive_user_id sub)

-- The value that the X-User-Id header is made from.
abbrev pub user_id_source : Fields → Bytes → Bytes → Bytes
user_id_source claims user_id_claim sub =
    if is_empty user_id_claim
    then sub
    else if is_empty (as_string (claim claims user_id_claim))
    then sub
    else as_string (claim claims user_id_claim)

unfoldable pub token_claims : Fields → Bytes → List Bytes → TokenClaims
token_claims claims user_id_claim admin_roles =
    let sub = as_string (claim claims (codes "sub")) in
    let roles = keycloak_roles claims in
    record {
      user_id = numeric_user_id (user_id_source claims user_id_claim sub) sub;
      issuer = as_string (claim claims (codes "iss"));
      app_id = as_string (claim claims (codes "app_id"));
      keycloak = true;
      is_admin = any (λ r. any (λ a. str_eq r a) admin_roles) roles;
      roles = roles;
      qualified_roles =
          qualify_roles (as_string (claim claims (codes "azp"))) (keycloak_role_sets claims).0
            (keycloak_role_sets claims).1;
      subject = sub;
      email =
          if as_bool (claim claims (codes "email_verified"))
          then as_string (claim claims (codes "email"))
          else [];
    }

-- The checks that follow a successful jwt.Parse.
unfoldable pub accept_claims : Bytes → Bytes → List Bytes → Fields → Auth
accept_claims expected_issuer user_id_claim admin_roles claims =
    if not (str_eq (as_string (claim claims (codes "iss"))) expected_issuer)
    then rejected issuer_mismatch
    else if is_empty (as_string (claim claims (codes "sub")))
    then rejected missing_subject
    else if is_empty (as_string (claim claims (codes "app_id")))
    then rejected missing_app_id
    else authenticated (token_claims claims user_id_claim admin_roles)

-- What the key function reads of a token's header.
pub record TokenHeader : Type 0 where
  pub is_rsa : Bool
  pub kid : Bytes

module _ {S Key : Type 0} (key_for_kid : Bytes → S → Option Key × S) where
  -- The key function: the signing method, the kid, and the key source; none is an error.
  unfoldable pub key_func : TokenHeader → S → Option Key × S
  key_func t s =
      if not t.is_rsa then (none, s) else if is_empty t.kid then (none, s) else key_for_kid t.kid s

  -- parse_jwt is jwt.Parse with the method RS256 and the leeway, none where it returns an error.
  unfoldable pub parse_keycloak_jwt :
      (Bytes → (TokenHeader → S → Option Key × S) → S → Option Fields × S)
      → Bytes
      → Bytes
      → Bytes
      → List Bytes
      → S
      → Auth × S
  parse_keycloak_jwt parse_jwt auth_header expected_issuer user_id_claim admin_roles s =
      let token = trim_prefix auth_header (codes "Bearer ") in
      let parsed = parse_jwt token key_func s in
      if is_empty auth_header
      then (anonymous, s)
      else if str_eq token auth_header
      then (rejected malformed_header, s)
      else elim parsed.0 [
        | none ↦ (rejected invalid_token, parsed.1)
        | some claims ↦ (accept_claims expected_issuer user_id_claim admin_roles claims, parsed.1)
      ]
