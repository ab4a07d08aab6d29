-- ===== src/Authz/Index.antt =====
-- The compiled index of the snapshot's policies and bindings.
use traefik_plugin.Base.{
  Option, none, some, List, [], ◌∷◌, Bytes, str_eq, str_eq_iff, In, ◌≡◌, ◌≢◌, inl, inr, refl, arith,
  if◌then◌else◌, Option-cases, sym, ◌∙◌, or_else, or_else-none,
}
use traefik_plugin.Authz.{
  Statement, Policy, Binding, PolicyIndex, put, add_policies, add_binding, add_bindings,
  empty_index, new_policy_index,
}

-- The policy that a name denotes: the last of that name.
abbrev pub policy_named : List Policy → Bytes → Option (List Statement)
policy_named [] n = none
policy_named (p ∷ ps) n = elim (policy_named ps n) [
  | none ↦ if str_eq p.name n then some p.statements else none
  | some ss ↦ some ss
]

-- The policy that a role is bound to: that of the last binding of the role to a known policy.
abbrev pub binding_of : List Policy → List Binding → Bytes → Option Bytes
binding_of ps [] r = none
binding_of ps (b ∷ bs) r = elim (binding_of ps bs r) [
  | none ↦ elim (policy_named ps b.policy) [
    | none ↦ none
    | some _ ↦ if str_eq b.role r then some b.policy else none
  ]
  | some n ↦ some n
]

add_policies_lem :
    (ps : List Policy) (idx : PolicyIndex) (n : Bytes)
    → (add_policies ps idx).policies n ≡ or_else (policy_named ps n) (idx.policies n)
unfolding add_policies
add_policies_lem [] idx n = refl
add_policies_lem (p ∷ ps) idx n =
    ground (
      arith,
      add_policies_lem ps (record idx { policies = put idx.policies p.name p.statements }) n,
    )

add_policies-role_policy :
    (ps : List Policy) (idx : PolicyIndex) → (add_policies ps idx).role_policy ≡ idx.role_policy
unfolding add_policies
add_policies-role_policy [] idx = refl
add_policies-role_policy (p ∷ ps) idx = add_policies-role_policy ps _

add_binding-policies :
    (b : Binding) (idx : PolicyIndex) → (add_binding b idx).policies ≡ idx.policies
unfolding add_binding
add_binding-policies b idx = ground arith

add_bindings-policies :
    (bs : List Binding) (idx : PolicyIndex) → (add_bindings bs idx).policies ≡ idx.policies
unfolding add_bindings
add_bindings-policies [] idx = refl
add_bindings-policies (b ∷ bs) idx =
    add_bindings-policies bs (add_binding b idx) ∙ add_binding-policies b idx

add_binding_lem :
    (b : Binding) (idx : PolicyIndex) (r : Bytes)
    → (add_binding b idx).role_policy r ≡ elim (idx.policies b.policy) [
      | none ↦ idx.role_policy r
      | some _ ↦ if str_eq b.role r then some b.policy else idx.role_policy r
    ]
unfolding add_binding
add_binding_lem b idx r = ground arith

module _ (ps : List Policy) where
  add_bindings_lem :
      (bs : List Binding) (idx : PolicyIndex) (r : Bytes)
      → ((n : Bytes) → idx.policies n ≡ policy_named ps n)
      → (add_bindings bs idx).role_policy r ≡ or_else (binding_of ps bs r) (idx.role_policy r)
  unfolding add_bindings
  add_bindings_lem [] idx r h = refl
  add_bindings_lem (b ∷ bs) idx r h = ground (
    arith,
    h b.policy,
    add_binding_lem b idx r,
    add_bindings_lem bs (add_binding b idx) r (λ n. (λ i. add_binding-policies b idx i n) ∙ h n),
  )

module _ (ps : List Policy) (bs : List Binding) where
  -- The index holds the statements of the last policy of each name.
  pub new_policy_index-policies :
      (n : Bytes) → (new_policy_index ps bs).policies n ≡ policy_named ps n
  unfolding new_policy_index
  new_policy_index-policies n =
      (λ i. add_bindings-policies bs (add_policies ps empty_index) i n)
      ∙ add_policies_lem ps empty_index n
      ∙ or_else-none _

  -- The index binds each role to the policy of the last of its bindings that name a policy of the
  -- snapshot, and leaves the other roles unbound.
  pub new_policy_index-role_policy :
      (r : Bytes) → (new_policy_index ps bs).role_policy r ≡ binding_of ps bs r
  unfolding new_policy_index
  new_policy_index-role_policy r =
      add_bindings_lem ps bs (add_policies ps empty_index) r
        (λ n. add_policies_lem ps empty_index n ∙ or_else-none _)
      ∙ rw (add_policies-role_policy ps empty_index) (or_else-none _)

binding_of-known :
    (ps : List Policy) (bs : List Binding) (r n : Bytes)
    → binding_of ps bs r ≡ some n
    → (policy_named ps n ≢ none) × In (record { role = r; policy = n }) bs
binding_of-known ps [] r n h = cc
binding_of-known ps (b ∷ bs) r n h = elim (Option-cases (binding_of ps bs r)) [
  | inl e ↦ ground (arith, str_eq_iff b.role r)
  | inr (m, e) ↦ ground (arith, binding_of-known ps bs r n)
]

-- A role is bound only by a binding of the snapshot, and only to a policy that the snapshot
-- holds: a dangling binding contributes nothing.
pub new_policy_index-known :
    (ps : List Policy) (bs : List Binding) (r n : Bytes)
    → (new_policy_index ps bs).role_policy r ≡ some n
    → ((new_policy_index ps bs).policies n ≢ none) × In (record { role = r; policy = n }) bs
new_policy_index-known ps bs r n h =
    rw (new_policy_index-policies ps bs n)
      (binding_of-known ps bs r n (sym (new_policy_index-role_policy ps bs r) ∙ h))
