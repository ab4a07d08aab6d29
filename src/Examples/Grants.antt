-- ===== src/Examples/Grants.antt =====
-- The laws of the evaluator at the fixture's principals and policies.
use traefik_plugin.Base.{
  Bool, true, false, ◌||◌, some, none, List, [], ◌∷◌, Bytes, codes, ◌≡◌, ◌≢◌, ◌↔◌, ◌⊎◌, inl, inr,
  refl, Some, In, map, arith, str_eq,
}
use traefik_plugin.Authz.{
  Statement, granted, is_wildcard, some_action, covers_app, match_action, match_app,
  resolve_statements, new_policy_index, add_policies, add_binding, add_bindings, qualify_roles,
  qualify, permissions_by_app, perm_authenticated, PolicyIndex,
}
use traefik_plugin.Authz.Grants.{Grants, granted_iff}
use traefik_plugin.Authz.Resolve.{Bound, granted-resolve_statements_iff}
use traefik_plugin.Authz.Index.{new_policy_index-role_policy, binding_of}
use traefik_plugin.Authz.Expansion.{IsListing, permissions_by_app-IsListing}
use traefik_plugin.Examples.Fixtures.{acme, buyer, orders, policies, bindings}

abbrev index : PolicyIndex
index = new_policy_index policies bindings

granted_iff_example :
    (granted (some buyer) (codes "order.read") acme ≡ true)
    ↔ ((codes "order.read" ≡ []) ⊎ Grants (orders ∷ []) (codes "order.read") acme acme)
granted_iff_example = granted_iff buyer (codes "order.read") acme

granted-resolve_statements_iff_example :
    (granted (some (resolve_statements buyer (some index))) (codes "order.read") acme ≡ true) ↔ (
      (codes "order.read" ≡ [])
      ⊎ Some
          (Bound index (λ ss. Grants ss (codes "order.read") acme acme))
          (codes "web:buyer" ∷ []))
granted-resolve_statements_iff_example =
    granted-resolve_statements_iff buyer index (codes "order.read") acme

new_policy_index-role_policy_example :
    index.role_policy (codes "web:ghost") ≡ binding_of policies bindings (codes "web:ghost")
new_policy_index-role_policy_example =
    new_policy_index-role_policy policies bindings (codes "web:ghost")

permissions_by_app-IsListing_example :
    In acme (codes "other" ∷ acme ∷ [])
    × IsListing buyer acme (codes "authenticated" ∷ codes "order.*" ∷ [])
unfolding permissions_by_app traefik_plugin.Authz.expand traefik_plugin.Authz.seen_actions
    covers_app match_app str_eq traefik_plugin.Authz.add_all traefik_plugin.Base.Sort.sort_strings
permissions_by_app-IsListing_example =
    permissions_by_app-IsListing buyer (codes "other" ∷ acme ∷ []) acme
      (codes "authenticated" ∷ codes "order.*" ∷ []) refl
