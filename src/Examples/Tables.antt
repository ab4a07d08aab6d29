-- ===== src/Examples/Tables.antt =====
-- The laws of the two caches at the fixture's tables.
use traefik_plugin.Base.{
  ℕ, Bool, true, false, Option, none, some, List, [], ◌∷◌, Bytes, codes, is_empty, if◌then◌else◌,
  or_else, find, ◌≡◌, ◌≢◌, refl, inl, inr,
}
use traefik_plugin.Helpers.{normalize_host}
use traefik_plugin.Registry.{
  AppRegistryCache, AppRegistryDto, load, refresh, response, resolve_host, is_active_app,
  drop_first, new_app_registry_cache,
}
use traefik_plugin.Registry.Hosts.{
  IsConsistent, new_app_registry_cache-IsConsistent, refresh-IsConsistent,
}
use traefik_plugin.Registry.Entries.{IsNamedBy, resolve_host-IsNamedBy}
use traefik_plugin.Registry.Order.{active_host, resolve_host-order}
use traefik_plugin.Snapshot.{match_endpoint}
use traefik_plugin.Snapshot.Matching.{
  is_exact, is_shared_candidate, is_candidate, match_endpoint_lem,
}
use traefik_plugin.Examples.Fixtures.{acme, snapshot, registry_dto}

match_endpoint_lem_example :
    match_endpoint snapshot acme (codes "GET") (codes "/b")
    ≡ or_else (find (is_exact acme (codes "GET") (codes "/b")) snapshot.compiled) (
        or_else (find (is_shared_candidate acme (codes "GET") (codes "/b")) snapshot.compiled) (
          if is_empty acme
          then find (is_candidate acme (codes "GET") (codes "/b")) snapshot.compiled
          else none))
match_endpoint_lem_example = match_endpoint_lem snapshot acme (codes "GET") (codes "/b")

abbrev decode : Bytes → Option AppRegistryDto
decode body = if is_empty body then none else some registry_dto

refresh-IsConsistent_example :
    IsConsistent (refresh decode (response 200 (codes "{}")) new_app_registry_cache)
refresh-IsConsistent_example =
    refresh-IsConsistent decode (response 200 (codes "{}")) new_app_registry_cache
      new_app_registry_cache-IsConsistent

resolve_host-IsNamedBy_example : IsNamedBy registry_dto.hosts (codes "shop.example:443") acme
unfolding resolve_host traefik_plugin.Registry.lookup_host load traefik_plugin.Registry.place_hosts
    traefik_plugin.Registry.place_host traefik_plugin.Base.equal_fold
    traefik_plugin.Registry.place_normalized traefik_plugin.Base.has_prefix normalize_host
    traefik_plugin.Base.has_suffix traefik_plugin.Helpers.split_host_port
    traefik_plugin.Base.trim_space traefik_plugin.Base.cut traefik_plugin.Registry.insert_host
resolve_host-IsNamedBy_example =
    resolve_host-IsNamedBy registry_dto (codes "shop.example:443") acme refl

resolve_host-order_example :
    (resolve_host
        (load (record {
          version = [];
          hosts =
              (codes "*.shop", active_host acme)
              ∷ (codes "*.b.shop", active_host (codes "other"))
              ∷ [];
          apps = [];
        }))
        (codes "a.b.shop")
      ≡ some acme)
    × (resolve_host
          (load (record {
            version = [];
            hosts =
                (codes "*.b.shop", active_host (codes "other"))
                ∷ (codes "*.shop", active_host acme)
                ∷ [];
            apps = [];
          }))
          (codes "a.b.shop")
        ≡ some (codes "other"))
unfolding normalize_host traefik_plugin.Base.has_prefix traefik_plugin.Base.has_suffix
    traefik_plugin.Base.to_lower traefik_plugin.Helpers.split_host_port
    traefik_plugin.Base.trim_space traefik_plugin.Base.cut
resolve_host-order_example =
    resolve_host-order [] [] (codes "*.shop") (codes "*.b.shop") (codes "a.b.shop") acme
      (codes "other") refl refl refl refl
