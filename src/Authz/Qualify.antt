-- ===== src/Authz/Qualify.antt =====
-- The role names that bindings refer to.
use traefik_plugin.Base.{
  ℕ, List, [], ◌∷◌, ◌++◌, Bytes, map, In, All, ◌≡◌, ◌≢◌, ◌⊎◌, ◌↔◌, inl, inr, arith, Bool-cases, sym,
  subst,
}
use traefik_plugin.Authz.{contains, add_role, add_roles, qualify, qualify_roles}
use traefik_plugin.Authz.Resolve.{contains_iff, Some-append}

-- No two elements are equal.
abbrev pub Distinct : List Bytes → Type 0
Distinct [] = Unit
Distinct (x ∷ xs) = (¬ In x xs) × Distinct xs

Distinct-concat : (xs : List Bytes) (a : Bytes) → Distinct xs → ¬ In a xs → Distinct (xs ++ a ∷ [])
Distinct-concat [] a d h = ((λ e. e), tt)
Distinct-concat (x ∷ xs) a (fresh, d) h = (
  (λ m. elim ((Some-append _ xs (a ∷ [])).0 m) [
    | inl old ↦ fresh old
    | inr (inl e) ↦ h (inl (sym e))
    | inr (inr z) ↦ z
  ]),
  Distinct-concat xs a d (λ m. h (inr m)),
)

All-concat :
    {A : Type 0} (P : A → Type 0) (xs : List A) (a : A) → All P xs → P a → All P (xs ++ a ∷ [])
All-concat P [] a h k = (k, tt)
All-concat P (x ∷ xs) a (p, h) k = (p, All-concat P xs a h k)

-- A list of role names: distinct and not empty.
pub record IsRoleSet (out : List Bytes) : Type 0 where
  pub distinct : Distinct out
  pub named : All (λ r. r ≢ []) out

pub add_role-IsRoleSet : (out : List Bytes) (r : Bytes) → IsRoleSet out → IsRoleSet (add_role out r)
unfolding add_role
add_role-IsRoleSet out [] v = v
add_role-IsRoleSet out (c ∷ r) v = elim (Bool-cases (contains out (c ∷ r))) [
  | inl old ↦ rw old v
  | inr new ↦ rw new (record {
    distinct = Distinct-concat out (c ∷ r) v.distinct (λ m. cc ((contains_iff out (c ∷ r)).1 m));
    named = All-concat _ out (c ∷ r) v.named (cc);
  })
]

add_roles-IsRoleSet : (rs out : List Bytes) → IsRoleSet out → IsRoleSet (add_roles out rs)
unfolding add_roles
add_roles-IsRoleSet [] out v = v
add_roles-IsRoleSet (r ∷ rs) out v =
    add_roles-IsRoleSet rs (add_role out r) (add_role-IsRoleSet out r v)

add_role-In :
    (out : List Bytes) (r a : Bytes) → In a (add_role out r) ↔ (In a out ⊎ ((a ≡ r) × (r ≢ [])))
unfolding add_role
add_role-In out [] a = ground arith
add_role-In out (c ∷ r) a = elim (Bool-cases (contains out (c ∷ r))) [
  | inl old ↦ rw old (
    inl,
    elim [
      | inl m ↦ m
      | inr (e, _) ↦ subst (λ x. In x out) (sym e) ((contains_iff out (c ∷ r)).0 old)
    ],
  )
  | inr new ↦ rw new (ground (arith, Some-append (λ x. a ≡ x) out ((c ∷ r) ∷ [])))
]

add_roles-In :
    (rs out : List Bytes) (a : Bytes) → In a (add_roles out rs) ↔ (In a out ⊎ (In a rs × (a ≢ [])))
unfolding add_roles
add_roles-In [] out a = ground arith
add_roles-In (r ∷ rs) out a =
    ground (arith, add_roles-In rs (add_role out r) a, add_role-In out r a)

map-qualify-ne-nil :
    (c : ℕ) (azp : Bytes) (cs : List Bytes) (a : Bytes) → In a (map (qualify (c ∷ azp)) cs) → a ≢ []
map-qualify-ne-nil c azp [] a m = absurd m
map-qualify-ne-nil c azp (r ∷ cs) a (inl e) = λ z. cc
map-qualify-ne-nil c azp (r ∷ cs) a (inr m) = map-qualify-ne-nil c azp cs a m

-- The role names of a token, qualified by its authorized party, are distinct and not empty.
pub qualify_roles-IsRoleSet :
    (azp : Bytes) (client_roles realm_roles : List Bytes)
    → IsRoleSet (qualify_roles azp client_roles realm_roles)
unfolding qualify_roles
qualify_roles-IsRoleSet [] cs rs = add_roles-IsRoleSet rs [] (record { distinct = tt; named = tt })
qualify_roles-IsRoleSet (c ∷ azp) cs rs =
    add_roles-IsRoleSet rs _
      (add_roles-IsRoleSet (map (qualify (c ∷ azp)) cs) [] (record { distinct = tt; named = tt }))

-- The qualified names are exactly the client roles behind the authorized party, if there is one, and
-- the realm roles that are not empty.
pub qualify_roles-In :
    (azp : Bytes) (client_roles realm_roles : List Bytes) (a : Bytes)
    → In a (qualify_roles azp client_roles realm_roles)
      ↔ (((azp ≢ []) × In a (map (qualify azp) client_roles)) ⊎ (In a realm_roles × (a ≢ [])))
unfolding qualify_roles
qualify_roles-In [] cs rs a = ground (arith, add_roles-In rs [] a)
qualify_roles-In (c ∷ azp) cs rs a = ground (
  arith,
  add_roles-In rs (add_roles [] (map (qualify (c ∷ azp)) cs)) a,
  add_roles-In (map (qualify (c ∷ azp)) cs) [] a,
  map-qualify-ne-nil c azp cs a,
)
