-- ===== src/Authz/Grants.antt =====
-- granted and isWildcard of authz.go, against a description of grants that mentions no loop.
use traefik_plugin.Base.{
  Bool, true, ◌&&◌, some, List, [], ◌∷◌, ◌++◌, append_assoc, Bytes, codes, str_eq_iff, has_prefix,
  has_suffix, has_prefix_iff, has_suffix_iff, drop_last, drop_last-append, any_iff, Some, ◌≡◌, ◌≢◌,
  ◌↔◌, ◌⊎◌, arith, sym, ap, and_parts, ◌∙◌,
}
use traefik_plugin.Authz.{
  Statement, Principal, perm_authenticated, app_wildcard, app_home, match_action, match_app,
  covers_app, some_action, granted, is_wildcard,
}

-- "<res>.*" grants the permissions "<res>.<anything>".
pub record IsUnder (pattern perm : Bytes) : Type 0 where
  pub resource : Bytes
  pub rest : Bytes
  pub shape : pattern ≡ resource ++ codes ".*"
  pub below : perm ≡ resource ++ (codes "." ++ rest)

abbrev pub Allows : Bytes → Bytes → Type 0
Allows pattern perm =
    (pattern ≡ codes "*") ⊎ (pattern ≡ perm) ⊎ ((perm ≢ perm_authenticated) × IsUnder pattern perm)

abbrev pub Reaches : Bytes → Bytes → Bytes → Type 0
Reaches entry target home =
    (entry ≡ app_wildcard)
    ⊎ ((entry ≡ app_home) × (home ≢ []) × (target ≡ home))
    ⊎ ((entry ≢ app_home) × (entry ≡ target))

abbrev pub Covers : Statement → Bytes → Bytes → Type 0
Covers s target home = Some (λ e. Reaches e target home) s.apps

-- Some statement covers the application and holds an action with the property.
abbrev pub Holds : (Bytes → Type 0) → List Statement → Bytes → Bytes → Type 0
Holds P ss app home = Some (λ s. Covers s app home × Some P s.actions) ss

abbrev pub Grants : List Statement → Bytes → Bytes → Bytes → Type 0
Grants ss perm app home = Holds (λ a. Allows a perm) ss app home

drop_last-wildcard : (res : Bytes) → drop_last (res ++ codes ".*") ≡ res ++ codes "."
drop_last-wildcard res =
    ap drop_last (sym (append_assoc res (codes ".") (codes "*")))
    ∙ drop_last-append (res ++ codes ".") b'*'

IsUnder-iff :
    (pattern perm : Bytes)
    → (has_suffix pattern (codes ".*") && has_prefix perm (drop_last pattern) ≡ true)
      ↔ IsUnder pattern perm
IsUnder-iff pattern perm = (to, from)
  where
    to :
        has_suffix pattern (codes ".*") && has_prefix perm (drop_last pattern) ≡ true
        → IsUnder pattern perm
    to h =
        let (suffix, prefix) = and_parts _ _ h in
        let (res, shape) = (has_suffix_iff pattern (codes ".*")).0 suffix in
        let (rest, below) = (has_prefix_iff perm (drop_last pattern)).0 prefix in
        record {
          resource = res;
          rest = rest;
          shape = shape;
          below =
              below
              ∙ ap (λ t. t ++ rest) (ap drop_last shape ∙ drop_last-wildcard res)
              ∙ append_assoc res (codes ".") rest;
        }

    from :
        IsUnder pattern perm
        → has_suffix pattern (codes ".*") && has_prefix perm (drop_last pattern) ≡ true
    from u = rw ((has_suffix_iff pattern (codes ".*")).1 (u.resource, u.shape)) (
        (has_prefix_iff perm (drop_last pattern)).1 (
          u.rest,
          u.below
              ∙ sym (append_assoc u.resource (codes ".") u.rest)
              ∙ ap (λ t. t ++ u.rest) (sym (ap drop_last u.shape ∙ drop_last-wildcard u.resource)),
        ))

match_action_iff : (a perm : Bytes) → (match_action a perm ≡ true) ↔ Allows a perm
unfolding match_action
match_action_iff a perm = ground (
  arith,
  str_eq_iff a (codes "*"),
  str_eq_iff a perm,
  str_eq_iff perm perm_authenticated,
  IsUnder-iff a perm,
)

match_app_iff : (e target home : Bytes) → (match_app e target home ≡ true) ↔ Reaches e target home
unfolding match_app
match_app_iff e target home = ground (
  arith,
  str_eq_iff e app_wildcard,
  str_eq_iff e app_home,
  str_eq_iff target home,
  str_eq_iff e target,
)

pub covers_app_iff :
    (s : Statement) (app home : Bytes) → (covers_app s app home ≡ true) ↔ Covers s app home
unfolding covers_app
covers_app_iff s app home = any_iff _ (λ e. match_app_iff e app home) s.apps

module _ {P : Bytes → Type 0} (test : Bytes → Bool) (h : (a : Bytes) → (test a ≡ true) ↔ P a) where
  pub some_action_iff :
      (ss : List Statement) (app home : Bytes)
      → (some_action test ss app home ≡ true) ↔ Holds P ss app home
  unfolding some_action
  some_action_iff [] app home = ground arith
  some_action_iff (s ∷ ss) app home =
      ground
        (arith, covers_app_iff s app home, any_iff test h s.actions, some_action_iff ss app home)

-- A permission is granted exactly when none is required, or some statement covers the application
-- and holds an action that allows the permission.
pub granted_iff :
    (p : Principal) (perm app : Bytes)
    → (granted (some p) perm app ≡ true) ↔ ((perm ≡ []) ⊎ Grants p.statements perm app p.home_app)
unfolding granted
granted_iff p [] app = ground arith
granted_iff p (c ∷ perm) app =
    ground
      (arith, some_action_iff _ (λ a. match_action_iff a (c ∷ perm)) p.statements app p.home_app)

-- The wildcard test finds exactly a literal "*" action in a statement that covers the application.
pub is_wildcard_iff :
    (p : Principal) (app : Bytes)
    → (is_wildcard (some p) app ≡ true) ↔ Holds (λ a. a ≡ codes "*") p.statements app p.home_app
unfolding is_wildcard
is_wildcard_iff p app =
    some_action_iff _ (λ a. str_eq_iff a (codes "*")) p.statements app p.home_app
