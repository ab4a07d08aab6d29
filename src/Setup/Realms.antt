-- ===== src/Setup/Realms.antt =====
-- Which realm an application is bound to by New.
use mathlib.Core.Option.{some-injective}
use traefik_plugin.Base.{
  Some-intro, Bool, ◌&&◌, not, Option, none, some, List, [], ◌∷◌, Bytes, str_eq, All, In, ◌≡◌, inl,
  inr, refl, sym, ap, ◌∙◌, Bool-cases,
}
use traefik_plugin.Config.{Config, KeycloakRealm}
use traefik_plugin.Plugin.{GatewayPlugin, KeycloakRealmRuntime}
use traefik_plugin.Registry.{AppRegistryCache}
use traefik_plugin.Snapshot.{SnapshotCache}
use traefik_plugin.Setup.{
  Built, built, failed, lookup_realm, add_apps, add_realms, then_realms, build_keycloak_app_set,
  runtime, runtime_of, bind_realms, lookup_runtime, all_bound, with_operator, with_realms,
  new_configured, is_known_mode, wrong_jwks_cache, unknown_authorization_mode, redis_init_failed,
}
use traefik_plugin.Setup.Entries.{
  IsBinding, Everywhere, lookup_realm-Everywhere, add_apps-Everywhere, add_realms-Everywhere,
}

-- What each entry of a list satisfies that every member satisfies.
All-intro : {A : Type 0} (P : A → Type 0) (xs : List A) → ((a : A) → In a xs → P a) → All P xs
All-intro P [] f = tt
All-intro P (x ∷ xs) f = (f x (inl refl), All-intro P xs (λ a m. f a (inr m)))

then_realms-built :
    (rs : List KeycloakRealm) (x : Built (List (Bytes × KeycloakRealm)))
    (out : List (Bytes × KeycloakRealm))
    → then_realms rs x ≡ built out
    → (m : List (Bytes × KeycloakRealm)) × (x ≡ built m) × (add_realms rs m ≡ built out)
then_realms-built rs (failed e) out h = cc
then_realms-built rs (built m) out h = (m, refl, h)

build_keycloak_app_set-IsBinding :
    (cfg : Config) (out : List (Bytes × KeycloakRealm))
    → build_keycloak_app_set cfg ≡ built out
    → Everywhere (IsBinding cfg) out
unfolding build_keycloak_app_set
build_keycloak_app_set-IsBinding cfg out h =
    let (m, first, second) =
      then_realms-built cfg.keycloak_realms (add_apps cfg cfg.keycloak_apps []) out h in
    add_realms-Everywhere (IsBinding cfg) cfg.keycloak_realms m out
      (All-intro _ cfg.keycloak_realms (λ q i named issuer jwks. record {
        named = named;
        has_issuer = issuer;
        has_jwks = jwks;
        origin = inr (Some-intro _ cfg.keycloak_realms q i (refl, refl));
      }))
      (add_apps-Everywhere (IsBinding cfg) cfg cfg.keycloak_apps [] m
        (λ a i named issuer jwks. record {
          named = named;
          has_issuer = issuer;
          has_jwks = jwks;
          origin = inl (i, refl);
        })
        tt first)
      second

pub build_keycloak_app_set-lookup_realm :
    (cfg : Config) (realms : List (Bytes × KeycloakRealm)) (app : Bytes) (r : KeycloakRealm)
    → build_keycloak_app_set cfg ≡ built realms
    → lookup_realm app realms ≡ some r
    → IsBinding cfg app r
build_keycloak_app_set-lookup_realm cfg realms app r set listed =
    lookup_realm-Everywhere (IsBinding cfg) app r realms
      (build_keycloak_app_set-IsBinding cfg realms set) listed

abbrev pub Bound : GatewayPlugin → List (Bytes × KeycloakRealm) → Type 0
Bound p realms = (app : Bytes) → p.keycloak_realms app ≡ runtime_of (lookup_realm app realms)

pub lookup_runtime-bind_realms :
    (realms : List (Bytes × KeycloakRealm)) (app : Bytes)
    → lookup_runtime app (bind_realms realms) ≡ runtime_of (lookup_realm app realms)
unfolding lookup_runtime bind_realms lookup_realm
lookup_runtime-bind_realms [] app = refl
lookup_runtime-bind_realms ((a, r) ∷ realms) app = elim (Bool-cases (str_eq a app)) [
  | inl same ↦ rw same refl
  | inr other ↦ rw other (lookup_runtime-bind_realms realms app)
]

module _ (snapshot : SnapshotCache) (registry : AppRegistryCache) (redis_ok : Bool)
    (cache_url : Bytes → Option Bytes) (cfg : Config) where
  with_operator-Bound :
      (realms : List (Bytes × KeycloakRealm)) (o : Built (Option KeycloakRealmRuntime))
      (p : GatewayPlugin)
      → with_operator snapshot registry redis_ok cache_url cfg (bind_realms realms) o ≡ built p
      → Bound p realms
  with_operator-Bound realms (failed e) p h app = cc
  with_operator-Bound realms (built operator) p h app =
      sym (ap (λ x. realms_in x app) h) ∙ lookup_runtime-bind_realms realms app
    where
      realms_in : Built GatewayPlugin → Bytes → Option KeycloakRealmRuntime
      realms_in (built q) a = q.keycloak_realms a
      realms_in (failed e) a = none

  pub with_realms-Bound :
      (x : Built (List (Bytes × KeycloakRealm))) (p : GatewayPlugin)
      → with_realms snapshot registry redis_ok cache_url cfg x ≡ built p
      → (realms : List (Bytes × KeycloakRealm)) × (x ≡ built realms) × Bound p realms
  with_realms-Bound (failed e) p h = cc
  with_realms-Bound (built realms) p h =
      elim (Bool-cases (all_bound cache_url (bind_realms realms) realms)) [
        | inl right ↦ (realms, refl, with_operator-Bound realms _ p (rw right at h))
        | inr wrong ↦
            let never : ◌≡◌ {A = Built GatewayPlugin} (failed wrong_jwks_cache) (built p) =
              rw wrong at h in
            cc never
      ]

  pub runtime_of-some :
      (o : Option KeycloakRealm) (realm : KeycloakRealmRuntime)
      → runtime_of o ≡ some realm
      → (r : KeycloakRealm) × (o ≡ some r) × (realm ≡ runtime r)
  runtime_of-some none realm h = cc
  runtime_of-some (some r) realm h = (r, refl, sym (some-injective _ _ h))

  pub new_configured-realms :
      (p : GatewayPlugin)
      → new_configured snapshot registry redis_ok cache_url cfg ≡ built p
      → with_realms snapshot registry redis_ok cache_url cfg (build_keycloak_app_set cfg) ≡ built p
  unfolding new_configured
  new_configured-realms p h = elim (Bool-cases (not (is_known_mode cfg.authorization_mode))) [
    | inl bad ↦
        let never : ◌≡◌ {A = Built GatewayPlugin}
            (failed (unknown_authorization_mode cfg.authorization_mode)) (built p) =
          rw bad at h in
        cc never
    | inr good ↦ elim (Bool-cases (not cfg.disable_rate_limit && not redis_ok)) [
      | inl down ↦
          let never : ◌≡◌ {A = Built GatewayPlugin} (failed redis_init_failed) (built p) =
            rw (good, down) at h in
          cc never
      | inr up ↦ rw (good, up) at h
    ]
  ]

  -- A plugin that New builds binds an application only to a complete realm: to the realm of an entry
  -- of keycloakRealms for that very application, or to the scalar realm if the application is one of
  -- keycloakApps.
  pub new_configured-IsBinding :
      (p : GatewayPlugin) (app : Bytes) (realm : KeycloakRealmRuntime)
      → new_configured snapshot registry redis_ok cache_url cfg ≡ built p
      → p.keycloak_realms app ≡ some realm
      → (r : KeycloakRealm) × (realm ≡ runtime r) × IsBinding cfg app r
  new_configured-IsBinding p app realm h e =
      let (realms, set, bound) =
        with_realms-Bound (build_keycloak_app_set cfg) p (new_configured-realms p h) in
      let (r, listed, same) =
        runtime_of-some (lookup_realm app realms) realm (sym (bound app) ∙ e) in
      (r, same, build_keycloak_app_set-lookup_realm cfg realms app r set listed)
