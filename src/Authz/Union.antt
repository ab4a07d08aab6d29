-- ===== src/Authz/Union.antt =====
-- granted and isWildcard of authz.go under reordering, grouping and extension of the statements.
use mathlib.Core.Bool.{Bool-set}
use mathlib.Core.Logic.{∥∥₁_elim}
use mathlib.Core.List.{Perm, Permᴰ}
use traefik_plugin.Base.{
  Some-map, Bool, true, ◌||◌, some, List, [], ◌∷◌, ◌++◌, Bytes, codes, ◌≡◌, ◌⊎◌, ◌↔◌, inl, inr,
  refl, arith, ◌∙◌,
}
use traefik_plugin.Authz.{
  Statement, Principal, match_action, perm_authenticated, some_action, granted, is_wildcard,
}
use traefik_plugin.Authz.Grants.{Allows, Holds, granted_iff, is_wildcard_iff}

module _ (test : Bytes → Bool) (app home : Bytes) where
  pub some_action-append :
      (ss ts : List Statement)
      → some_action test (ss ++ ts) app home
        ≡ (some_action test ss app home || some_action test ts app home)
  unfolding some_action
  some_action-append [] ts = refl
  some_action-append (s ∷ ss) ts = ground (arith, some_action-append ss ts)

  some_action-Permᴰ :
      {ss ts : List Statement}
      → Permᴰ ss ts
      → some_action test ss app home ≡ some_action test ts app home
  unfolding some_action
  some_action-Permᴰ Permᴰ.nil = refl
  some_action-Permᴰ (Permᴰ.cons e p) = ground (arith, some_action-Permᴰ p)
  some_action-Permᴰ (Permᴰ.swap e f) = ground arith
  some_action-Permᴰ (Permᴰ.trans p q) = some_action-Permᴰ p ∙ some_action-Permᴰ q

-- Statements in another order grant the same permissions.
pub granted-Perm :
    (p : Principal) (ss : List Statement) (perm app : Bytes)
    → Perm p.statements ss
    → granted (some (record p { statements = ss })) perm app ≡ granted (some p) perm app
unfolding granted
granted-Perm p ss perm app h =
    ∥∥₁_elim h (Bool-set _ _)
      (λ d. ground (arith, some_action-Permᴰ (λ a. match_action a perm) app p.home_app d))

-- A principal with the statements of two holds exactly the grants of either.
pub granted-append :
    (p : Principal) (ss ts : List Statement) (perm app : Bytes)
    → granted (some (record p { statements = ss ++ ts })) perm app ≡ (
        granted (some (record p { statements = ss })) perm app
        || granted (some (record p { statements = ts })) perm app)
unfolding granted
granted-append p ss ts [] app = refl
granted-append p ss ts (c ∷ perm) app = some_action-append _ app p.home_app ss ts

pub Holds-map :
    {P Q : Bytes → Type 0}
    → ((a : Bytes) → P a → Q a)
    → (ss : List Statement) (app home : Bytes) → Holds P ss app home
    → Holds Q ss app home
Holds-map f ss app home = Some-map (λ s h. (h.0, Some-map f s.actions h.1)) ss

-- The holder of a literal "*" on an application is granted every permission there.
pub is_wildcard-granted :
    (p : Principal) (perm app : Bytes)
    → is_wildcard (some p) app ≡ true
    → granted (some p) perm app ≡ true
is_wildcard-granted p perm app h =
    (granted_iff p perm app).1
      (inr (Holds-map (λ a e. inl e) p.statements app p.home_app ((is_wildcard_iff p app).0 h)))

literal : (a : Bytes) → Allows a perm_authenticated → (a ≡ codes "*") ⊎ (a ≡ perm_authenticated)
literal a (inl e) = inl e
literal a (inr (inl e)) = inr e
literal a (inr (inr (other, _))) = absurd (other refl)

allowed : (a : Bytes) → (a ≡ codes "*") ⊎ (a ≡ perm_authenticated) → Allows a perm_authenticated
allowed a (inl e) = inl e
allowed a (inr e) = inr (inl e)

-- "authenticated" is granted by a literal "*" or a literal "authenticated", and by no prefix.
pub granted-authenticated_iff :
    (p : Principal) (app : Bytes)
    → (granted (some p) perm_authenticated app ≡ true)
      ↔ Holds (λ a. (a ≡ codes "*") ⊎ (a ≡ perm_authenticated)) p.statements app p.home_app
granted-authenticated_iff p app = (
  (λ h. elim ((granted_iff p perm_authenticated app).0 h) [
    | inl e ↦ cc
    | inr g ↦ Holds-map (λ a. literal a) p.statements app p.home_app g
  ]),
  (λ h.
      (granted_iff p perm_authenticated app).1
        (inr (Holds-map (λ a. allowed a) p.statements app p.home_app h))),
)
