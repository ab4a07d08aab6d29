-- ===== src/Policy/Target.antt =====
-- Which application the policy engine serves a request for.
use traefik_plugin.Base.{
  true, not, Option, none, some, [], ◌∷◌, Bytes, codes, str_eq, str_eq_iff, is_empty, if◌then◌else◌,
  ◌≡◌, ◌≢◌, ◌⊎◌, inl, inr, refl, sym, ap, subst, arith, Bool-cases, Option-cases,
}
use mathlib.Core.Option.{some-injective}
use traefik_plugin.Http.{Headers, Request}
use traefik_plugin.Plugin.{GatewayPlugin, Services, forwarded, forward, set_header, write_json}
use traefik_plugin.Policy.{
  deny, choose_target, serve_endpoint, serve_unmatched, serve_target, serve_policy, dispatched,
  admitted_to,
}
use traefik_plugin.Registry.{AppRegistryCache, is_active_app}
use traefik_plugin.Snapshot.{CompiledEndpoint, match_endpoint}

-- The application of the host, or the one asked for where the registry lists it as active.
abbrev pub IsAllowed : Option AppRegistryCache → Bytes → Bytes → Bytes → Type 0
IsAllowed registry host_app requested_app target =
    (target ≡ host_app)
    ⊎ ((r : AppRegistryCache) × (registry ≡ some r)
        × (target ≡ requested_app)
        × (is_active_app r requested_app ≡ true))

choose_target-IsAllowed :
    (registry : Option AppRegistryCache) (host_app requested_app target : Bytes)
    → choose_target registry host_app requested_app ≡ some target
    → IsAllowed registry host_app requested_app target
choose_target-IsAllowed none host_app requested_app target h = inl (sym (some-injective _ _ h))
choose_target-IsAllowed (some r) host_app [] target h = inl (sym (some-injective _ _ h))
choose_target-IsAllowed (some r) host_app (c ∷ cs) target h =
    elim (Bool-cases (is_active_app r (c ∷ cs))) [
      | inl active ↦ inr (
        r,
        refl,
        sym (
            some-injective _ _ (
              subst (λ b. ◌≡◌ {A = Option Bytes} (if b then some (c ∷ cs) else none) (some target))
                active h)),
        active,
      )
      | inr idle ↦ ground arith
    ]

abbrev pub aimed : GatewayPlugin → Bytes → Request → Request
aimed p target req =
    if not (is_empty target) then set_header req p.config.app_id_header target else req

module _ {S : Type 0} (services : Services S) (p : GatewayPlugin) (host_app requested_app : Bytes)
    (w w' : Headers) (req req' : Request) (s s' : S) where
  -- A forwarded request is one for an allowed application. It has passed the gates of the endpoint
  -- that it matches there, or it matches no endpoint there and none of the host's application.
  pub record IsRouted : Type 0 where
    pub target : Bytes
    pub allowed : IsAllowed p.app_registry host_app requested_app target
    pub gated :
        ((ep : CompiledEndpoint) × (match_endpoint p.snapshot target
              (aimed p target req).method
              (aimed p target req).path
            ≡ some ep)
          × (serve_endpoint services p ep target w (aimed p target req) s
              ≡ (forwarded req' w', s')))
        ⊎ ((match_endpoint p.snapshot target (aimed p target req).method (aimed p target req).path
              ≡ none)
            × (match_endpoint p.snapshot host_app
                  (aimed p target req).method
                  (aimed p target req).path
                ≡ none)
            × (req' ≡ aimed p target req))

  serve_unmatched-forwarded :
      (target : Bytes) (r : Request)
      → match_endpoint p.snapshot target r.method r.path ≡ none
      → serve_unmatched services p host_app target w r s ≡ (forwarded req' w', s')
      → (match_endpoint p.snapshot host_app r.method r.path ≡ none) × (req' ≡ r)
  unfolding serve_unmatched deny write_json forward
  serve_unmatched-forwarded target r miss h = elim (Bool-cases (str_eq target host_app)) [
    | inl same ↦ (
      subst (λ a. match_endpoint p.snapshot a r.method r.path ≡ none)
          ((str_eq_iff target host_app).0 same) miss,
      ground arith,
    )
    | inr differ ↦ elim (Option-cases (match_endpoint p.snapshot host_app r.method r.path)) [
      | inl none_here ↦ (none_here, ground arith)
      | inr (ep, hidden) ↦ ground arith
    ]
  ]

  serve_target-IsRouted :
      (target : Bytes)
      → IsAllowed p.app_registry host_app requested_app target
      → serve_target services p host_app target w req s ≡ (forwarded req' w', s')
      → IsRouted
  unfolding serve_target
  serve_target-IsRouted target allowed h =
      let r = aimed p target req in
      elim (Option-cases (match_endpoint p.snapshot target r.method r.path)) [
        | inl miss ↦
            let (none_here, same) = serve_unmatched-forwarded target r miss (
              subst (λ m. dispatched services p host_app target w r m s ≡ (forwarded req' w', s'))
                miss h) in
            record { target = target; allowed = allowed; gated = inr (miss, none_here, same) }
        | inr (ep, hit) ↦ record {
          target = target;
          allowed = allowed;
          gated = inl (
            ep,
            hit,
            subst (λ m. dispatched services p host_app target w r m s ≡ (forwarded req' w', s')) hit
                h,
          );
        }
      ]

  denied :
      deny w 403 (codes "unknown_app") (codes "requested application is not an active application")
      ≢ forwarded req' w'
  unfolding deny write_json
  denied = ground arith

  -- The policy engine forwards a request only for the application of the host, or for a requested
  -- one that the registry lists as active; and then only if the request passes the gates of the
  -- endpoint that it matches there, or matches no endpoint there and none of the host's application,
  -- in which case it is forwarded unchanged but for the application header.
  pub serve_policy-IsRouted :
      serve_policy services p host_app requested_app w req s ≡ (forwarded req' w', s') → IsRouted
  unfolding serve_policy
  serve_policy-IsRouted h =
      elim (Option-cases (choose_target p.app_registry host_app requested_app)) [
        | inl refused ↦ absurd (
            denied (
              ap (λ r. r.0)
                (subst (λ m. admitted_to services p host_app w req m s ≡ (forwarded req' w', s'))
                  refused h)))
        | inr (target, chosen) ↦
            serve_target-IsRouted target
              (choose_target-IsAllowed p.app_registry host_app requested_app target chosen)
              (subst (λ m. admitted_to services p host_app w req m s ≡ (forwarded req' w', s'))
                chosen h)
      ]
