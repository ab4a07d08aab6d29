-- ===== src/Registry.antt =====
-- registry.go: the cache of application-service's host registry. The JSON objects that Go holds in
-- a map are the list of their entries in the order in which one range over the map visits them.
pub mod Hosts
pub mod Order
pub mod Entries
use traefik_plugin.Base.{
  ℕ, Bool, true, false, ◌&&◌, not, ◌||◌, Option, none, some, List, [], ◌∷◌, ◌++◌, Bytes, codes,
  str_eq, has_prefix, has_suffix, drop_last, trim_space, to_lower, equal_fold, is_empty, any, cut,
  ◌==◌, if◌then◌else◌,
}
use traefik_plugin.Base.Sort.{sort_strings}
use traefik_plugin.Authz.{contains, add_seen}
use traefik_plugin.Helpers.{normalize_host}

pub record AppHostDto : Type 0 where
  pub app_id : Bytes
  pub status : Bytes

pub record AppEntryDto : Type 0 where
  pub app_id : Bytes
  pub status : Bytes

pub record AppRegistryDto : Type 0 where
  pub version : Bytes
  pub hosts : List (Bytes × AppHostDto)
  pub apps : List AppEntryDto

pub record WildcardHostEntry : Type 0 where
  pub suffix : Bytes
  pub app_id : Bytes

pub record AppRegistryCache : Type 0 where
  pub by_host : List (Bytes × Bytes)
  pub wildcards : List WildcardHostEntry
  pub active : List Bytes
  pub version : Bytes
  pub loaded : Bool

-- The outcome of one GET: an error of the request, the transport or the body, or a status and body.
pub data Fetch : Type 0 where
  no_response : Fetch
  response : ℕ → Bytes → Fetch

abbrev pub new_app_registry_cache : AppRegistryCache
new_app_registry_cache = record {
  by_host = [];
  wildcards = [];
  active = [];
  version = [];
  loaded = false;
}

unfoldable pub lookup_host : Bytes → List (Bytes × Bytes) → Option Bytes
lookup_host k [] = none
lookup_host k ((j, v) ∷ m) = let rest = lookup_host k m in if str_eq j k then some v else rest

-- byHost[k] = v
unfoldable pub insert_host : Bytes → Bytes → List (Bytes × Bytes) → List (Bytes × Bytes)
insert_host k v [] = (k, v) ∷ []
insert_host k v ((j, w) ∷ m) =
    let rest = insert_host k v m in if str_eq j k then (k, v) ∷ m else (j, w) ∷ rest

-- nh[1:]
abbrev pub drop_first : Bytes → Bytes
drop_first [] = []
drop_first (c ∷ s) = s

unfoldable pub place_normalized : Bytes → Bytes → AppRegistryCache → AppRegistryCache
place_normalized nh id c =
    if has_prefix nh (codes "*.")
    then record c { wildcards = c.wildcards ++ record { suffix = drop_first nh; app_id = id } ∷ [] }
    else record c { by_host = insert_host nh id c.by_host }

-- One round of the loop over the hosts; only the two host tables change.
unfoldable pub place_host : Bytes × AppHostDto → AppRegistryCache → AppRegistryCache
place_host (host, entry) c =
    if not (equal_fold entry.status (codes "active"))
    then c
    else place_normalized (normalize_host host) entry.app_id c

unfoldable pub place_hosts : List (Bytes × AppHostDto) → AppRegistryCache → AppRegistryCache
place_hosts [] c = c
place_hosts (h ∷ hs) c = place_hosts hs (place_host h c)

unfoldable pub active_apps : List AppEntryDto → List Bytes → List Bytes
active_apps [] active = active
active_apps (a ∷ apps) active = active_apps apps (
    if equal_fold a.status (codes "active") && not (is_empty a.app_id)
    then add_seen active a.app_id
    else active)

unfoldable pub active_hosts : List (Bytes × Bytes) → List Bytes → List Bytes
active_hosts [] active = active
active_hosts ((host, id) ∷ hs) active = active_hosts hs (add_seen active id)

unfoldable pub active_wildcards : List WildcardHostEntry → List Bytes → List Bytes
active_wildcards [] active = active
active_wildcards (w ∷ ws) active = active_wildcards ws (add_seen active w.app_id)

-- The tables that a decoded snapshot gives, from empty ones.
unfoldable pub load : AppRegistryDto → AppRegistryCache
load snap =
    let tables = place_hosts snap.hosts new_app_registry_cache in
    record {
      by_host = tables.by_host;
      wildcards = tables.wildcards;
      active =
          active_wildcards tables.wildcards
            (active_hosts tables.by_host (active_apps snap.apps []));
      version = snap.version;
      loaded = true;
    }

module _ (decode_snapshot : Bytes → Option AppRegistryDto) where
  -- refresh, by the outcome of its request. decode_snapshot is json.Unmarshal.
  unfoldable pub refresh : Fetch → AppRegistryCache → AppRegistryCache
  refresh no_response c = c
  refresh (response status body) c =
      if not (status == 200)
      then c
      else elim (decode_snapshot body) [ none ↦ c | some snap ↦ load snap ]

  -- checkVersion, by the outcomes of the version request and of the refresh that may follow.
  unfoldable pub check_version :
      (Bytes → Option Bytes) → Fetch → Fetch → AppRegistryCache → AppRegistryCache
  check_version decode_version no_response snapshot c = c
  check_version decode_version (response status body) snapshot c =
      if not (status == 200) then c else elim (decode_version body) [
        | none ↦ c
        | some v ↦ if not (str_eq v c.version) then refresh snapshot c else c
      ]

unfoldable pub is_active_app : AppRegistryCache → Bytes → Bool
is_active_app c app_id = contains c.active app_id

unfoldable pub active_app_ids : AppRegistryCache → List Bytes
active_app_ids c = sort_strings c.active

unfoldable pub match_wildcard : Bytes → List WildcardHostEntry → Option Bytes
match_wildcard nh [] = none
match_wildcard nh (w ∷ ws) =
    let rest = match_wildcard nh ws in if has_suffix nh w.suffix then some w.app_id else rest

-- resolveHost: (appID, true) is `some`, ("", false) is `none`.
unfoldable pub resolve_host : AppRegistryCache → Bytes → Option Bytes
resolve_host c host =
    let nh = normalize_host host in
    elim (lookup_host nh c.by_host) [ some id ↦ some id | none ↦ match_wildcard nh c.wildcards ]

unfoldable pub cold_start : AppRegistryCache → Bool
cold_start c = not c.loaded
