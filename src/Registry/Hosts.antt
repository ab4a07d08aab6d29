-- ===== src/Registry/Hosts.antt =====
-- refresh and resolveHost of registry.go: the host tables and the set of active applications.
use traefik_plugin.Base.{
  Option, List, [], ◌∷◌, Bytes, Some, In, ◌≡◌, ◌⊎◌, ◌↔◌, inl, inr, refl, arith, Bool-cases,
  Option-cases, ◌==◌,
}
use traefik_plugin.Authz.{add_seen}
use traefik_plugin.Authz.Expansion.{add_seen-In}
use traefik_plugin.Registry.{
  AppRegistryCache, AppRegistryDto, AppEntryDto, WildcardHostEntry, Fetch, no_response, response,
  refresh, check_version, load, active_apps, active_hosts, active_wildcards, new_app_registry_cache,
}

active_apps-In :
    (apps : List AppEntryDto) (active : List Bytes) (a : Bytes)
    → In a active
    → In a (active_apps apps active)
unfolding active_apps
active_apps-In [] active a m = m
active_apps-In (x ∷ apps) active a m = ground (
  arith,
  active_apps-In apps active a,
  active_apps-In apps (add_seen active x.app_id) a,
  add_seen-In active x.app_id a,
)

active_hosts-In :
    (hs : List (Bytes × Bytes)) (active : List Bytes) (a : Bytes)
    → In a (active_hosts hs active) ↔ (Some (λ h. a ≡ h.1) hs ⊎ In a active)
unfolding active_hosts
active_hosts-In [] active a = ground arith
active_hosts-In ((h, id) ∷ hs) active a =
    ground (arith, active_hosts-In hs (add_seen active id) a, add_seen-In active id a)

active_wildcards-In :
    (ws : List WildcardHostEntry) (active : List Bytes) (a : Bytes)
    → In a (active_wildcards ws active) ↔ (Some (λ w. a ≡ w.app_id) ws ⊎ In a active)
unfolding active_wildcards
active_wildcards-In [] active a = ground arith
active_wildcards-In (w ∷ ws) active a =
    ground
      (arith, active_wildcards-In ws (add_seen active w.app_id) a, add_seen-In active w.app_id a)

-- Every application that a host leads to is active.
pub record IsConsistent (c : AppRegistryCache) : Type 0 where
  pub hosts : (a : Bytes) → Some (λ h. a ≡ h.1) c.by_host → In a c.active
  pub wildcards : (a : Bytes) → Some (λ w. a ≡ w.app_id) c.wildcards → In a c.active

load-IsConsistent : (snap : AppRegistryDto) → IsConsistent (load snap)
unfolding load
load-IsConsistent snap = record {
  hosts = λ a m. (active_wildcards-In _ _ a).1 (inr ((active_hosts-In _ _ a).1 (inl m)));
  wildcards = λ a m. (active_wildcards-In _ _ a).1 (inl m);
}

pub new_app_registry_cache-IsConsistent : IsConsistent new_app_registry_cache
new_app_registry_cache-IsConsistent = record { hosts = λ a m. m; wildcards = λ a m. m }

module _ (decode_snapshot : Bytes → Option AppRegistryDto) where
  -- A refresh, whatever comes of its request, keeps the registry consistent: every application that
  -- one of its hosts or wildcard hosts leads to is in its set of active applications.
  pub refresh-IsConsistent :
      (f : Fetch) (c : AppRegistryCache)
      → IsConsistent c
      → IsConsistent (refresh decode_snapshot f c)
  unfolding refresh
  refresh-IsConsistent no_response c v = v
  refresh-IsConsistent (response status body) c v = elim (Bool-cases (status == 200)) [
    | inr bad ↦ rw bad v
    | inl good ↦ rw good (elim (Option-cases (decode_snapshot body)) [
      | inl e ↦ rw e v
      | inr (snap, e) ↦ rw e (load-IsConsistent snap)
    ])
  ]

  check_version-refresh :
      (decode_version : Bytes → Option Bytes) (f g : Fetch) (c : AppRegistryCache)
      → (check_version decode_snapshot decode_version f g c ≡ c)
        ⊎ (check_version decode_snapshot decode_version f g c ≡ refresh decode_snapshot g c)
  unfolding check_version
  check_version-refresh decode_version no_response g c = inl refl
  check_version-refresh decode_version (response status body) g c = ground arith
