-- ===== src/Registry/Order.antt =====
-- resolveHost of registry.go on wildcard hosts that overlap.
use traefik_plugin.Base.{
  true, some, List, [], ◌∷◌, Bytes, codes, has_suffix, has_prefix, ◌≡◌, equal_fold, refl,
}
use traefik_plugin.Helpers.{normalize_host}
use traefik_plugin.Registry.{
  AppHostDto, AppEntryDto, load, resolve_host, match_wildcard, drop_first, place_hosts, place_host,
  place_normalized, lookup_host,
}

abbrev pub active_host : Bytes → AppHostDto
active_host id = record { app_id = id; status = codes "active" }

active_status : equal_fold (codes "active") (codes "active") ≡ true
unfolding equal_fold
active_status = refl

-- In a snapshot whose only hosts are two active wildcard hosts that both cover a host name, the one
-- that the loop over the map of hosts visits first decides the application: the other order resolves
-- the same name to the other application.
pub resolve_host-order :
    (version : Bytes) (apps : List AppEntryDto) (h k host a b : Bytes)
    → has_prefix (normalize_host h) (codes "*.") ≡ true
    → has_prefix (normalize_host k) (codes "*.") ≡ true
    → has_suffix (normalize_host host) (drop_first (normalize_host h)) ≡ true
    → has_suffix (normalize_host host) (drop_first (normalize_host k)) ≡ true
    → (resolve_host
          (load (record {
            version = version;
            hosts = (h, active_host a) ∷ (k, active_host b) ∷ [];
            apps = apps;
          }))
          host
        ≡ some a)
      × (resolve_host
            (load (record {
              version = version;
              hosts = (k, active_host b) ∷ (h, active_host a) ∷ [];
              apps = apps;
            }))
            host
          ≡ some b)
unfolding load resolve_host place_hosts place_host place_normalized match_wildcard lookup_host
resolve_host-order version apps h k host a b wild_h wild_k covers_h covers_k =
    (rw (active_status, wild_h, wild_k, covers_h), rw (active_status, wild_h, wild_k, covers_k))
