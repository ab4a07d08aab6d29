-- ===== src/Setup/Entries.antt =====
-- What the loops of buildKeycloakAppSet keep of the entries that they add.
use mathlib.Core.Option.{some-injective}
use traefik_plugin.Base.{
  some, List, [], ◌∷◌, Bytes, str_eq, str_eq_iff, trim_space, All, Some, In, ◌≡◌, ◌≢◌, ◌⊎◌, inl,
  inr, refl, subst, arith, Bool-cases, map,
}
use traefik_plugin.Config.{Config, KeycloakRealm}
use traefik_plugin.Setup.{
  built, insert_realm, lookup_realm, add_apps, add_realms, scalar_realm, named_realm,
}

-- The realm of an application is complete, and is the scalar one for an application of keycloakApps,
-- or that of an entry of keycloakRealms for the application.
pub record IsBinding (cfg : Config) (app : Bytes) (r : KeycloakRealm) : Type 0 where
  pub named : app ≢ []
  pub has_issuer : r.issuer ≢ []
  pub has_jwks : r.jwks_url ≢ []
  pub origin :
      (In app (map trim_space cfg.keycloak_apps) × (r ≡ scalar_realm cfg app))
      ⊎ Some (λ q. (app ≡ trim_space q.app_id) × (r ≡ named_realm q)) cfg.keycloak_realms

-- One round of each loop that goes on.
add_realms-step :
    (q : KeycloakRealm) (rs : List KeycloakRealm) (m out : List (Bytes × KeycloakRealm))
    → add_realms (q ∷ rs) m ≡ built out
    → ((trim_space q.app_id ≢ []) × (q.issuer ≢ []) × (q.jwks_url ≢ []))
      × (add_realms rs (insert_realm (trim_space q.app_id) (named_realm q) m) ≡ built out)
unfolding add_realms
add_realms-step q rs m out e = ground arith

add_apps-step :
    (cfg : Config) (a : Bytes) (apps : List Bytes) (m out : List (Bytes × KeycloakRealm))
    → add_apps cfg (a ∷ apps) m ≡ built out
    → (add_apps cfg apps m ≡ built out)
      ⊎ (((trim_space a ≢ []) × (cfg.keycloak_issuer ≢ []) × (cfg.keycloak_jwks_url ≢ []))
          × (add_apps cfg apps (insert_realm (trim_space a) (scalar_realm cfg (trim_space a)) m)
              ≡ built out))
unfolding add_apps
add_apps-step cfg a apps m out e = ground arith

module _ (P : Bytes → KeycloakRealm → Type 0) where
  abbrev pub Everywhere : List (Bytes × KeycloakRealm) → Type 0
  Everywhere m = All (λ e. P e.0 e.1) m

  pub insert_realm-Everywhere :
      (app : Bytes) (r : KeycloakRealm) (m : List (Bytes × KeycloakRealm))
      → P app r
      → Everywhere m
      → Everywhere (insert_realm app r m)
  unfolding insert_realm
  insert_realm-Everywhere app r [] p h = (p, tt)
  insert_realm-Everywhere app r ((a, q) ∷ m) p (k, h) = elim (Bool-cases (str_eq a app)) [
    | inl same ↦ rw same (p, h)
    | inr other ↦ rw other (k, insert_realm-Everywhere app r m p h)
  ]

  pub lookup_realm-Everywhere :
      (app : Bytes) (r : KeycloakRealm) (m : List (Bytes × KeycloakRealm))
      → Everywhere m
      → lookup_realm app m ≡ some r
      → P app r
  unfolding lookup_realm
  lookup_realm-Everywhere app r [] h e = cc
  lookup_realm-Everywhere app r ((a, q) ∷ m) (k, h) e = elim (Bool-cases (str_eq a app)) [
    | inl same ↦
        subst (λ x. P x r) ((str_eq_iff a app).0 same)
          (subst (λ x. P a x) (some-injective _ _ (rw same at e)) k)
    | inr other ↦ lookup_realm-Everywhere app r m h (rw other at e)
  ]

  -- The loops keep what holds of every binding.
  pub add_apps-Everywhere :
      (cfg : Config) (apps : List Bytes) (m out : List (Bytes × KeycloakRealm))
      → ((a : Bytes)
          → In a (map trim_space apps)
          → a ≢ []
          → cfg.keycloak_issuer ≢ []
          → cfg.keycloak_jwks_url ≢ []
          → P a (scalar_realm cfg a))
      → Everywhere m
      → add_apps cfg apps m ≡ built out
      → Everywhere out
  unfolding add_apps
  add_apps-Everywhere cfg [] m out f h e = let same : m ≡ out = cc in subst Everywhere same h
  add_apps-Everywhere cfg (a ∷ apps) m out f h e = elim (add_apps-step cfg a apps m out e) [
    | inl skipped ↦ add_apps-Everywhere cfg apps m out (λ x i. f x (inr i)) h skipped
    | inr ((named, issuer, jwks), added) ↦
        add_apps-Everywhere cfg apps _ out (λ x i. f x (inr i))
          (insert_realm-Everywhere _ _ m (f (trim_space a) (inl refl) named issuer jwks) h) added
  ]

  pub add_realms-Everywhere :
      (rs : List KeycloakRealm) (m out : List (Bytes × KeycloakRealm))
      → All
          (λ q.
            (trim_space q.app_id ≢ []
              → q.issuer ≢ []
              → q.jwks_url ≢ []
              → P (trim_space q.app_id) (named_realm q)))
          rs
      → Everywhere m
      → add_realms rs m ≡ built out
      → Everywhere out
  unfolding add_realms
  add_realms-Everywhere [] m out f h e = let same : m ≡ out = cc in subst Everywhere same h
  add_realms-Everywhere (q ∷ rs) m out (p, f) h e =
      let ((named, issuer, jwks), rest) = add_realms-step q rs m out e in
      add_realms-Everywhere rs _ out f (insert_realm-Everywhere _ _ m (p named issuer jwks) h) rest
