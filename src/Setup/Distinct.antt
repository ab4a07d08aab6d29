-- ===== src/Setup/Distinct.antt =====
-- buildKeycloakAppSet of plugin.go: the list that stands for its map has each application once.
use traefik_plugin.Base.{
  false, some, List, [], ◌∷◌, Bytes, str_eq, str_eq_iff, trim_space, is_empty, ◌||◌, All, ◌≡◌, ◌≢◌,
  inl, inr, refl, subst, Bool-cases,
}
use traefik_plugin.Config.{Config, KeycloakRealm}
use traefik_plugin.Setup.{
  Built, built, failed, insert_realm, lookup_realm, add_apps, add_realms, then_realms,
  build_keycloak_app_set, wrong_jwks_cache, scalar_realm, named_realm,
}
use traefik_plugin.Setup.Entries.{insert_realm-Everywhere}

-- No entry is for the application.
abbrev IsFresh : Bytes → List (Bytes × KeycloakRealm) → Type 0
IsFresh app m = All (λ e. str_eq app e.0 ≡ false) m

-- No two entries are for the same application.
abbrev pub IsMap : List (Bytes × KeycloakRealm) → Type 0
IsMap [] = Unit {0}
IsMap ((app, r) ∷ m) = IsFresh app m × IsMap m

abbrev pub WhenBuilt : Built (List (Bytes × KeycloakRealm)) → Type 0
WhenBuilt (built m) = IsMap m
WhenBuilt (failed e) = e ≢ wrong_jwks_cache

insert_realm-IsMap :
    (app : Bytes) (r : KeycloakRealm) (m : List (Bytes × KeycloakRealm))
    → IsMap m
    → IsMap (insert_realm app r m)
unfolding insert_realm
insert_realm-IsMap app r [] h = (tt, tt)
insert_realm-IsMap app r ((a, q) ∷ m) (fresh, h) = elim (Bool-cases (str_eq a app)) [
  | inl same ↦ rw same (subst (λ x. IsFresh x m) ((str_eq_iff a app).0 same) fresh, h)
  | inr other ↦ rw other (
    insert_realm-Everywhere (λ k v. str_eq a k ≡ false) app r m other fresh,
    insert_realm-IsMap app r m h,
  )
]

add_apps-IsMap :
    (cfg : Config) (apps : List Bytes) (m : List (Bytes × KeycloakRealm))
    → IsMap m
    → WhenBuilt (add_apps cfg apps m)
unfolding add_apps
add_apps-IsMap cfg [] m h = h
add_apps-IsMap cfg (a ∷ apps) m h =
    let app = trim_space a in
    elim (Bool-cases (is_empty app)) [
      | inl skipped ↦ rw skipped (add_apps-IsMap cfg apps m h)
      | inr named ↦ elim (Bool-cases (is_empty cfg.keycloak_jwks_url)) [
        | inl no_url ↦ rw (named, no_url) (λ e. cc)
        | inr url ↦ elim (Bool-cases (is_empty cfg.keycloak_issuer)) [
          | inl none_given ↦ rw (named, url, none_given) (λ e. cc)
          | inr issuer ↦
              rw (named, url, issuer)
                (add_apps-IsMap cfg apps _ (insert_realm-IsMap app (scalar_realm cfg app) m h))
        ]
      ]
    ]

add_realms-IsMap :
    (rs : List KeycloakRealm) (m : List (Bytes × KeycloakRealm))
    → IsMap m
    → WhenBuilt (add_realms rs m)
unfolding add_realms
add_realms-IsMap [] m h = h
add_realms-IsMap (r ∷ rs) m h =
    let app = trim_space r.app_id in
    elim (Bool-cases (is_empty app || is_empty r.issuer || is_empty r.jwks_url)) [
      | inl incomplete ↦ rw incomplete (λ e. cc)
      | inr complete ↦
          rw complete (add_realms-IsMap rs _ (insert_realm-IsMap app (named_realm r) m h))
    ]

then_realms-IsMap :
    (rs : List KeycloakRealm) (x : Built (List (Bytes × KeycloakRealm)))
    → WhenBuilt x
    → WhenBuilt (then_realms rs x)
then_realms-IsMap rs (built m) h = add_realms-IsMap rs m h
then_realms-IsMap rs (failed e) h = h

pub build_keycloak_app_set-WhenBuilt : (cfg : Config) → WhenBuilt (build_keycloak_app_set cfg)
unfolding build_keycloak_app_set
build_keycloak_app_set-WhenBuilt cfg =
    then_realms-IsMap cfg.keycloak_realms _ (add_apps-IsMap cfg cfg.keycloak_apps [] tt)

-- What each entry of such a list is found by.
All-found :
    (a : Bytes) (q : KeycloakRealm) (m xs : List (Bytes × KeycloakRealm))
    → IsFresh a xs
    → All (λ e. lookup_realm e.0 m ≡ some e.1) xs
    → All (λ e. lookup_realm e.0 ((a, q) ∷ m) ≡ some e.1) xs
unfolding lookup_realm
All-found a q m [] fresh h = tt
All-found a q m (x ∷ xs) (other, fresh) (here, h) = (rw other here, All-found a q m xs fresh h)

pub lookup_realm-IsMap :
    (m : List (Bytes × KeycloakRealm)) → IsMap m → All (λ e. lookup_realm e.0 m ≡ some e.1) m
unfolding lookup_realm
lookup_realm-IsMap [] h = tt
lookup_realm-IsMap ((a, q) ∷ m) (fresh, h) =
    (rw ((str_eq_iff a a).1 refl) refl, All-found a q m m fresh (lookup_realm-IsMap m h))
