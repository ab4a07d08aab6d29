-- ===== src/Setup/Process/Sources.antt =====
-- The key sources that New of plugin.go asks for: what the shared key caches hold afterwards.
use traefik_plugin.Base.{
  Option, none, some, List, [], ◌∷◌, Bytes, str_eq, str_eq_iff, ◌≡◌, inl, inr, refl, ap, ◌∙◌, subst,
  Bool-cases,
}
use mathlib.Core.Option.{some-injective}
use traefik_plugin.Config.{Config, KeycloakRealm}
use traefik_plugin.Jwks.{JwksCache, new_jwks_cache, refresh}
use traefik_plugin.Jwks.Cooldown.{refresh-next_keys}
use traefik_plugin.Plugin.{KeycloakRealmRuntime}
use traefik_plugin.Polling.{Caches, put, from_entry, get_shared}
use traefik_plugin.Polling.Shared.{from_entry-IsThere, from_entry-own}
use traefik_plugin.Setup.{
  Built, built, lookup_realm, runtime, runtime_of, new_configured, is_known_mode,
  build_keycloak_app_set, operator_realm_of,
}
use traefik_plugin.Setup
use traefik_plugin.Setup.Process.{
  World, Process, key_source, key_sources, operator_source, jwks_cooldown,
}

-- Every key cache fetches from the URL that it is stored under.
abbrev pub IsNamed : Caches JwksCache → Type 0
IsNamed caches = (u : Bytes) (c : JwksCache) → caches u ≡ some c → c.url ≡ u

-- There is a key cache for the URL.
abbrev pub HasCache : Bytes → Caches JwksCache → Type 0
HasCache u caches = (c : JwksCache) × (caches u ≡ some c)

put-IsNamed :
    (caches : Caches JwksCache) (url : Bytes) (c : JwksCache)
    → c.url ≡ url
    → IsNamed caches
    → IsNamed (put caches url c)
put-IsNamed caches url c same h u d e = elim (Bool-cases (str_eq url u)) [
  | inl here ↦
      let stored : ◌≡◌ {A = Option JwksCache} (some c) (some d) = rw here at e in
      subst (λ x. x.url ≡ u) (some-injective _ _ stored) (same ∙ (str_eq_iff url u).0 here)
  | inr there ↦ h u d (rw there at e)
]

module _ {S : Type 0} (w : World S) (cfg : Config) where
  -- How a key cache starts.
  abbrev started : Bytes → S → JwksCache × S
  started url s =
      (refresh w.fetch w.decode_keys w.net.now (new_jwks_cache url (jwks_cooldown w cfg)) s).1

  from_entry-IsNamed :
      (caches : Caches JwksCache) (url : Bytes) (s : S) (o : Option JwksCache)
      → IsNamed caches
      → IsNamed ((from_entry started caches url s o).1.0)
  from_entry-IsNamed caches url s (some c) h = h
  from_entry-IsNamed caches url s none h =
      put-IsNamed caches url _
        (ap (λ c. c.url)
          (refresh-next_keys w.fetch w.decode_keys w.net.now
            (new_jwks_cache url (jwks_cooldown w cfg)) s))
        h

  key_source-IsNamed :
      (url : Bytes) (p : Process S) → IsNamed p.keys → IsNamed ((key_source w cfg url p).keys)
  unfolding key_source get_shared
  key_source-IsNamed url p h = from_entry-IsNamed p.keys url p.world (p.keys url) h

  key_source-own : (url : Bytes) (p : Process S) → HasCache url ((key_source w cfg url p).keys)
  unfolding key_source get_shared
  key_source-own url p = from_entry-own started p.keys url p.world (p.keys url) refl

  key_source-HasCache :
      (url u : Bytes) (p : Process S)
      → HasCache u p.keys
      → HasCache u ((key_source w cfg url p).keys)
  unfolding key_source get_shared
  key_source-HasCache url u p h = from_entry-IsThere started p.keys url u p.world (p.keys url) h

  pub key_sources-IsNamed :
      (realms : List (Bytes × KeycloakRealm)) (p : Process S)
      → IsNamed p.keys
      → IsNamed ((key_sources w cfg realms p).keys)
  unfolding key_sources
  key_sources-IsNamed [] p h = h
  key_sources-IsNamed ((app, r) ∷ realms) p h =
      key_sources-IsNamed realms _ (key_source-IsNamed r.jwks_url p h)

  key_sources-HasCache :
      (realms : List (Bytes × KeycloakRealm)) (u : Bytes) (p : Process S)
      → HasCache u p.keys
      → HasCache u ((key_sources w cfg realms p).keys)
  unfolding key_sources
  key_sources-HasCache [] u p h = h
  key_sources-HasCache ((app, r) ∷ realms) u p h =
      key_sources-HasCache realms u _ (key_source-HasCache r.jwks_url u p h)

  -- Every realm that is looked up has its cache afterwards.
  pub key_sources-lookup_realm :
      (realms : List (Bytes × KeycloakRealm)) (app : Bytes) (r : KeycloakRealm) (p : Process S)
      → lookup_realm app realms ≡ some r
      → HasCache r.jwks_url ((key_sources w cfg realms p).keys)
  unfolding key_sources lookup_realm
  key_sources-lookup_realm [] app r p h = cc
  key_sources-lookup_realm ((a, q) ∷ realms) app r p h = elim (Bool-cases (str_eq a app)) [
    | inl here ↦
        let found : ◌≡◌ {A = Option KeycloakRealm} (some q) (some r) = rw here at h in
        subst
          (λ x.
            HasCache x.jwks_url ((key_sources w cfg realms (key_source w cfg q.jwks_url p)).keys))
          (some-injective _ _ found)
          (key_sources-HasCache realms q.jwks_url _ (key_source-own q.jwks_url p))
    | inr there ↦ key_sources-lookup_realm realms app r _ (rw there at h)
  ]

  pub operator_source-IsNamed :
      (o : Built (Option KeycloakRealmRuntime)) (p : Process S)
      → IsNamed p.keys
      → IsNamed ((operator_source w cfg o p).keys)
  operator_source-IsNamed (Setup.failed e) p h = h
  operator_source-IsNamed (built none) p h = h
  operator_source-IsNamed (built (some r)) p h = key_source-IsNamed r.jwks p h

  pub operator_source-HasCache :
      (o : Built (Option KeycloakRealmRuntime)) (u : Bytes) (p : Process S)
      → HasCache u p.keys
      → HasCache u ((operator_source w cfg o p).keys)
  operator_source-HasCache (Setup.failed e) u p h = h
  operator_source-HasCache (built none) u p h = h
  operator_source-HasCache (built (some r)) u p h = key_source-HasCache r.jwks u p h
