-- ===== src/Authz.antt =====
-- authz.go: the access-policy evaluation. A Go map that is only looked up is a function, one that
-- is ranged over is a list of its entries; a nil principal or index is `none`.
pub mod Grants
pub mod Union
pub mod Resolve
pub mod Qualify
pub mod Index
pub mod Expansion
use traefik_plugin.Base.{
  ℕ, Bool, true, false, not, ◌&&◌, ◌||◌, Option, none, some, List, [], ◌∷◌, ◌++◌, Bytes, codes,
  str_eq, has_prefix, has_suffix, drop_last, is_empty, any, if◌then◌else◌, map, split, trim_prefix,
}
use traefik_plugin.Base.Sort.{sort_strings}
use traefik_plugin.Base.Base64.{decode_raw_url}

abbrev pub perm_authenticated : Bytes
perm_authenticated = codes "authenticated"

abbrev pub app_wildcard : Bytes
app_wildcard = codes "*"

abbrev pub app_home : Bytes
app_home = codes "@home"

pub record Statement : Type 0 where
  pub actions : List Bytes
  pub apps : List Bytes

pub record Policy : Type 0 where
  pub name : Bytes
  pub statements : List Statement

pub record Binding : Type 0 where
  pub role : Bytes
  pub policy : Bytes

pub record Principal : Type 0 where
  pub subject : Bytes
  pub user_id : Bytes
  pub home_app : Bytes
  pub email : Bytes
  pub roles : List Bytes
  pub statements : List Statement
  pub bound_roles : List Bytes
  pub policies : List Bytes

pub record PolicyIndex : Type 0 where
  pub policies : Bytes → Option (List Statement)
  pub role_policy : Bytes → Option Bytes

unfoldable pub match_action : Bytes → Bytes → Bool
match_action pattern perm =
    if str_eq pattern (codes "*") || str_eq pattern perm
    then true
    else if str_eq perm perm_authenticated
    then false
    else if has_suffix pattern (codes ".*")
    then has_prefix perm (drop_last pattern)
    else false

unfoldable pub match_app : Bytes → Bytes → Bytes → Bool
match_app entry target home =
    if str_eq entry app_wildcard
    then true
    else if str_eq entry app_home
    then not (is_empty home) && str_eq target home
    else str_eq entry target

unfoldable pub covers_app : Statement → Bytes → Bytes → Bool
covers_app s target home = any (λ e. match_app e target home) s.apps

-- The two loops over the statements: a statement that does not cover the application is skipped.
unfoldable pub some_action : (Bytes → Bool) → List Statement → Bytes → Bytes → Bool
some_action test [] app home = false
some_action test (s ∷ ss) app home =
    let rest = some_action test ss app home in
    if not (covers_app s app home) then rest else if any test s.actions then true else rest

unfoldable pub granted : Option Principal → Bytes → Bytes → Bool
granted none perm app = is_empty perm
granted (some p) perm app =
    if is_empty perm
    then true
    else some_action (λ a. match_action a perm) p.statements app p.home_app

unfoldable pub is_wildcard : Option Principal → Bytes → Bool
is_wildcard none app = false
is_wildcard (some p) app = some_action (λ a. str_eq a (codes "*")) p.statements app p.home_app

abbrev pub contains : List Bytes → Bytes → Bool
contains xs a = any (λ x. str_eq a x) xs

-- seen[a] = true, where the set is the list of its keys.
abbrev pub add_seen : List Bytes → Bytes → List Bytes
add_seen seen a = if contains seen a then seen else a ∷ seen

unfoldable pub add_all : List Bytes → List Bytes → List Bytes
add_all [] seen = seen
add_all (a ∷ l) seen = add_all l (add_seen seen a)

-- The set of action patterns that the statements grant on one application.
unfoldable pub seen_actions : List Statement → Bytes → Bytes → List Bytes → List Bytes
seen_actions [] app home seen = seen
seen_actions (s ∷ ss) app home seen =
    seen_actions ss app home (if not (covers_app s app home) then seen else add_all s.actions seen)

-- out[app] = list
abbrev pub put {ℓ} : {V : Type ℓ} → (Bytes → Option V) → Bytes → V → Bytes → Option V
put m k v = λ j. if str_eq k j then some v else m j

unfoldable pub expand :
    Principal → List Bytes → (Bytes → Option (List Bytes)) → Bytes → Option (List Bytes)
expand p [] out = out
expand p (app ∷ apps) out =
    let seen = seen_actions p.statements app p.home_app [] in
    expand p apps (if is_empty seen then out else put out app (sort_strings seen))

unfoldable pub permissions_by_app : Option Principal → List Bytes → Bytes → Option (List Bytes)
permissions_by_app none active_apps = λ _. none
permissions_by_app (some p) active_apps = expand p active_apps (λ _. none)

-- idx.policies[name], where a missing key reads as no statement.
abbrev pub statements_of : PolicyIndex → Bytes → List Statement
statements_of idx name = elim (idx.policies name) [ none ↦ [] | some stmts ↦ stmts ]

-- One round of the loop over the roles. seenPolicy holds exactly the names in p.policies.
unfoldable pub bind_role : PolicyIndex → Principal → Bytes → Principal
bind_role idx p r = elim (idx.role_policy r) [
  | none ↦ p
  | some name ↦
      let p' : Principal = record p { bound_roles = p.bound_roles ++ r ∷ [] } in
      if contains p.policies name then p' else record p' {
        policies = p.policies ++ name ∷ [];
        statements = p.statements ++ statements_of idx name;
      }
]

unfoldable pub bind_roles : PolicyIndex → List Bytes → Principal → Principal
bind_roles idx [] p = p
bind_roles idx (r ∷ rs) p = bind_roles idx rs (bind_role idx p r)

unfoldable pub resolve_statements : Principal → Option PolicyIndex → Principal
resolve_statements p none = record p { statements = []; bound_roles = []; policies = [] }
resolve_statements p (some idx) =
    bind_roles idx p.roles (record p { statements = []; bound_roles = []; policies = [] })

unfoldable pub add_policies : List Policy → PolicyIndex → PolicyIndex
add_policies [] idx = idx
add_policies (p ∷ ps) idx =
    add_policies ps (record idx { policies = put idx.policies p.name p.statements })

-- A binding to a policy that the snapshot does not hold is skipped.
unfoldable pub add_binding : Binding → PolicyIndex → PolicyIndex
add_binding b idx = elim (idx.policies b.policy) [
  | none ↦ idx
  | some _ ↦ record idx { role_policy = put idx.role_policy b.role b.policy }
]

unfoldable pub add_bindings : List Binding → PolicyIndex → PolicyIndex
add_bindings [] idx = idx
add_bindings (b ∷ bs) idx = add_bindings bs (add_binding b idx)

abbrev pub empty_index : PolicyIndex
empty_index = record { policies = λ _. none; role_policy = λ _. none }

unfoldable pub new_policy_index : List Policy → List Binding → PolicyIndex
new_policy_index policies bindings = add_bindings bindings (add_policies policies empty_index)

-- The closure add; seen holds exactly the names in out.
unfoldable pub add_role : List Bytes → Bytes → List Bytes
add_role out r = if not (is_empty r) && not (contains out r) then out ++ r ∷ [] else out

unfoldable pub add_roles : List Bytes → List Bytes → List Bytes
add_roles out [] = out
add_roles out (r ∷ rs) = add_roles (add_role out r) rs

abbrev pub qualify : Bytes → Bytes → Bytes
qualify azp r = azp ++ (b':' ∷ r)

unfoldable pub qualify_roles : Bytes → List Bytes → List Bytes → List Bytes
qualify_roles azp client_roles realm_roles =
    add_roles (if not (is_empty azp) then add_roles [] (map (qualify azp) client_roles) else [])
      realm_roles

abbrev issuer_of : (Bytes → Option Bytes) → Option Bytes → Bytes
issuer_of decode_iss none = []
issuer_of decode_iss (some raw) = elim (decode_iss raw) [ none ↦ [] | some iss ↦ iss ]

abbrev issuer_in : (Bytes → Option Bytes) → List Bytes → Bytes
issuer_in decode_iss [] = []
issuer_in decode_iss (p ∷ []) = []
issuer_in decode_iss (p ∷ q ∷ ps) = issuer_of decode_iss (decode_raw_url q)

-- The claim `iss` of an unverified token. decode_iss is json.Unmarshal into the struct with the
-- field iss: none where the text is no such object, "" where the field is missing.
unfoldable pub token_issuer : (Bytes → Option Bytes) → Bytes → Bytes
token_issuer decode_iss auth_header =
    issuer_in decode_iss (split (trim_prefix auth_header (codes "Bearer ")) b'.')
