-- ===== src/Authz/Resolve.antt =====
-- resolveStatements of authz.go, against the policies that the index binds to the roles.
use traefik_plugin.Base.{
  true, false, Option, none, some, List, [], ◌∷◌, ◌++◌, Bytes, str_eq_iff, Some, In, ◌≡◌, ◌⊎◌, ◌↔◌,
  inl, inr, refl, arith, subst, sym, ◌∙◌, Bool-cases, Option-cases, append-nil, append_assoc,
}
use traefik_plugin.Authz.{
  Statement, Principal, PolicyIndex, contains, statements_of, bind_role, bind_roles,
  resolve_statements, granted,
}
use traefik_plugin.Authz.Grants.{Holds, Grants, Allows, granted_iff}

-- The roles that are bound, in order.
abbrev pub bound : PolicyIndex → List Bytes → List Bytes
bound idx [] = []
bound idx (r ∷ rs) = elim (idx.role_policy r) [ none ↦ bound idx rs | some _ ↦ r ∷ bound idx rs ]

pub Some-append :
    {A : Type 0} (P : A → Type 0) (xs ys : List A) → Some P (xs ++ ys) ↔ (Some P xs ⊎ Some P ys)
Some-append P [] ys = ground arith
Some-append P (x ∷ xs) ys = ground (arith, Some-append P xs ys)

pub contains_iff : (xs : List Bytes) (a : Bytes) → (contains xs a ≡ true) ↔ In a xs
contains_iff [] a = ground arith
contains_iff (x ∷ xs) a = ground (arith, contains_iff xs a, str_eq_iff a x)

module _ (idx : PolicyIndex) where
  abbrev bound_principal : Principal → Bytes → Principal
  bound_principal p r = record p { bound_roles = p.bound_roles ++ r ∷ [] }

  bind_role-none : (p : Principal) (r : Bytes) → idx.role_policy r ≡ none → bind_role idx p r ≡ p
  unfolding bind_role
  bind_role-none p r e = rw (e, bind_role)

  bind_role-seen :
      (p : Principal) (r name : Bytes)
      → idx.role_policy r ≡ some name
      → contains p.policies name ≡ true
      → bind_role idx p r ≡ bound_principal p r
  unfolding bind_role
  bind_role-seen p r name e seen = rw (e, bind_role, seen)

  bind_role-new :
      (p : Principal) (r name : Bytes)
      → idx.role_policy r ≡ some name
      → contains p.policies name ≡ false
      → bind_role idx p r ≡ record (bound_principal p r) {
        policies = p.policies ++ name ∷ [];
        statements = p.statements ++ statements_of idx name;
      }
  unfolding bind_role
  bind_role-new p r name e fresh = rw (e, bind_role, fresh)

  -- Where the policy of a role is known, and one of its statements has the property.
  abbrev pub Bound : (List Statement → Type 0) → Bytes → Type 0
  Bound H r = (name : Bytes) × (idx.role_policy r ≡ some name) × H (statements_of idx name)

  module _ (H : List Statement → Type 0)
      (H-append : (ss ts : List Statement) → H (ss ++ ts) ↔ (H ss ⊎ H ts)) where
    -- Every policy that was seen has been collected.
    abbrev Collected : Principal → Type 0
    Collected p = (name : Bytes) → In name p.policies → H (statements_of idx name) → H p.statements

    abbrev Binds : Principal → Bytes → Principal → Type 0
    Binds p r q = (H q.statements ↔ (H p.statements ⊎ Bound H r)) × Collected q

    at_name :
        {n m : Bytes}
        → ◌≡◌ {A = Option Bytes} (some n) (some m)
        → H (statements_of idx m)
        → H (statements_of idx n)
    at_name {n} {m} e k = let same : n ≡ m = cc in subst (λ x. H (statements_of idx x)) (sym same) k

    in_new :
        (p : Principal) (name n : Bytes)
        → Collected p
        → In n (p.policies ++ name ∷ [])
        → H (statements_of idx n)
        → H p.statements ⊎ H (statements_of idx name)
    in_new p name n c m k = elim ((Some-append _ p.policies (name ∷ [])).0 m) [
      | inl old ↦ inl (c n old k)
      | inr (inl e) ↦ inr (subst (λ x. H (statements_of idx x)) e k)
      | inr (inr none_left) ↦ absurd none_left
    ]

    bind_role_lem : (p : Principal) (r : Bytes) → Collected p → Binds p r (bind_role idx p r)
    bind_role_lem p r c = elim (Option-cases (idx.role_policy r)) [
      | inl e ↦
          subst (Binds p r) (sym (bind_role-none p r e))
            ((inl, elim [ inl h ↦ h | inr (n, e', k) ↦ cc ]), c)
      | inr (name, e) ↦ elim (Bool-cases (contains p.policies name)) [
        | inl seen ↦ subst (Binds p r) (sym (bind_role-seen p r name e seen)) (
          (
            inl,
            elim [
              | inl h ↦ h
              | inr (n, e', k) ↦
                  c name ((contains_iff p.policies name).0 seen) (at_name (sym e ∙ e') k)
            ],
          ),
          c,
        )
        | inr fresh ↦ subst (Binds p r) (sym (bind_role-new p r name e fresh)) (
          (
            (λ h. elim ((H-append p.statements (statements_of idx name)).0 h) [
              | inl old ↦ inl old
              | inr k ↦ inr (name, e, k)
            ]),
            (λ h.
                (H-append p.statements (statements_of idx name)).1
                  (elim h [ inl old ↦ inl old | inr (n, e', k) ↦ inr (at_name (sym e ∙ e') k) ])),
          ),
          (λ n m k. (H-append p.statements (statements_of idx name)).1 (in_new p name n c m k)),
        )
      ]
    ]

    bind_roles_lem :
        (rs : List Bytes) (p : Principal)
        → Collected p
        → H (bind_roles idx rs p).statements ↔ (H p.statements ⊎ Some (Bound H) rs)
    unfolding bind_roles
    bind_roles_lem [] p c = ground arith
    bind_roles_lem (r ∷ rs) p c =
        let (step, c') = bind_role_lem p r c in
        ground (arith, step, bind_roles_lem rs (bind_role idx p r) c')

  bind_role-bound :
      (r : Bytes) (rs : List Bytes) (p : Principal)
      → (bind_role idx p r).bound_roles ++ bound idx rs ≡ p.bound_roles ++ bound idx (r ∷ rs)
  unfolding bind_role
  bind_role-bound r rs p = ground (arith, append_assoc p.bound_roles (r ∷ []) (bound idx rs))

  bind_roles-bound :
      (rs : List Bytes) (p : Principal)
      → (bind_roles idx rs p).bound_roles ≡ p.bound_roles ++ bound idx rs
  unfolding bind_roles
  bind_roles-bound [] p = sym (append-nil _)
  bind_roles-bound (r ∷ rs) p = bind_roles-bound rs (bind_role idx p r) ∙ bind_role-bound r rs p

  bind_role-home_app : (r : Bytes) (p : Principal) → (bind_role idx p r).home_app ≡ p.home_app
  unfolding bind_role
  bind_role-home_app r p = ground arith

  bind_roles-home_app :
      (rs : List Bytes) (p : Principal) → (bind_roles idx rs p).home_app ≡ p.home_app
  unfolding bind_roles
  bind_roles-home_app [] p = refl
  bind_roles-home_app (r ∷ rs) p =
      bind_roles-home_app rs (bind_role idx p r) ∙ bind_role-home_app r p

module _ (p : Principal) (idx : PolicyIndex) where
  -- The bound roles are the roles that the index knows, in the token's order.
  pub resolve_statements-bound_roles :
      (resolve_statements p (some idx)).bound_roles ≡ bound idx p.roles
  unfolding resolve_statements
  resolve_statements-bound_roles = bind_roles-bound idx p.roles _

  pub resolve_statements-home_app : (resolve_statements p (some idx)).home_app ≡ p.home_app
  unfolding resolve_statements
  resolve_statements-home_app = bind_roles-home_app idx p.roles _

  -- After resolution the principal's statements hold an action with a property on an application
  -- exactly when the policy of one of its roles does: nothing is lost and nothing added, whatever
  -- the order of the roles and however many roles share a policy.
  pub resolve_statements-Holds :
      (P : Bytes → Type 0) (app home : Bytes)
      → Holds P (resolve_statements p (some idx)).statements app home
        ↔ Some (Bound idx (λ ss. Holds P ss app home)) p.roles
  unfolding resolve_statements
  resolve_statements-Holds P app home =
      let (to, from) =
        bind_roles_lem idx (λ ss. Holds P ss app home) (λ ss ts. Some-append _ ss ts) p.roles
          (record p { statements = []; bound_roles = []; policies = [] }) (λ n m. absurd m) in
      ((λ h. elim (to h) [ inl e ↦ absurd e | inr b ↦ b ]), (λ b. from (inr b)))

-- A validated principal is granted a permission exactly when none is required, or the policy that
-- the index binds to one of its roles grants the permission on the application.
pub granted-resolve_statements_iff :
    (p : Principal) (idx : PolicyIndex) (perm app : Bytes)
    → (granted (some (resolve_statements p (some idx))) perm app ≡ true)
      ↔ ((perm ≡ []) ⊎ Some (Bound idx (λ ss. Grants ss perm app p.home_app)) p.roles)
granted-resolve_statements_iff p idx perm app =
    let q = resolve_statements p (some idx) in
    let (to, from) = resolve_statements-Holds p idx (λ a. Allows a perm) app p.home_app in
    let (decide, confirm) =
      subst
        (λ home.
          (granted (some q) perm app ≡ true) ↔ ((perm ≡ []) ⊎ Grants q.statements perm app home))
        (resolve_statements-home_app p idx) (granted_iff q perm app) in
    (
      (λ h. elim (decide h) [ inl e ↦ inl e | inr g ↦ inr (to g) ]),
      (λ h. confirm (elim h [ inl e ↦ inl e | inr b ↦ inr (from b) ])),
    )
