-- ===== src/Snapshot.antt =====
-- snapshot.go: the cache of service-service's endpoint and policy registry. A compiled regular
-- expression is what the plugin asks of it; the named groups of a match are one function.
pub mod Matching
use traefik_plugin.Base.{
  ℕ, Bool, true, false, ◌&&◌, ◌||◌, not, Option, none, some, List, [], ◌∷◌, ◌++◌, Bytes, codes,
  str_eq, is_empty, ◌==◌, if◌then◌else◌, or_else,
}
use traefik_plugin.Base.Int.{ℤ}
use traefik_plugin.Authz.{Policy, Binding, PolicyIndex, new_policy_index}
use traefik_plugin.Registry.{Fetch, no_response, response}

pub record RateLimitValue : Type 0 where
  pub requests : ℤ
  pub duration_seconds : ℤ

pub record SnapshotEndpointDto : Type 0 where
  pub uid : Bytes
  pub method : Bytes
  pub path : Bytes
  pub full_path : Bytes
  pub path_regex : Bytes
  pub access_level : Bytes
  pub required_permission : Bytes
  pub owner_param : Bytes
  pub tags : List Bytes
  pub rate_limits : Bytes → Option RateLimitValue

pub record SnapshotServiceDto : Type 0 where
  pub uid : Bytes
  pub slug : Bytes
  pub base_path : Bytes
  pub endpoints : List SnapshotEndpointDto

pub record SnapshotAppDto : Type 0 where
  pub app_id : Bytes
  pub services : List SnapshotServiceDto

pub record SnapshotDto : Type 0 where
  pub version : Bytes
  pub apps : List SnapshotAppDto
  pub policies : List Policy
  pub bindings : List Binding

-- MatchString, and SubexpIndex with FindStringSubmatch: the text of a named group in a match.
pub record Regex : Type 0 where
  pub matches : Bytes → Bool
  pub submatch : Bytes → Bytes → Option Bytes

pub record CompiledEndpoint : Type 0 where
  pub endpoint : SnapshotEndpointDto
  pub open endpoint use *
  pub app_id : Bytes
  pub regex : Regex

pub record SnapshotCache : Type 0 where
  pub loaded : Bool
  pub compiled : List CompiledEndpoint
  pub policies : Option PolicyIndex
  pub version : Bytes

abbrev pub new_snapshot_cache : SnapshotCache
new_snapshot_cache = record { loaded = false; compiled = []; policies = none; version = [] }

-- ^text$ with the text quoted.
abbrev pub literal_regex : Bytes → Regex
literal_regex text = record { matches = λ path. str_eq path text; submatch = λ name path. none }

module _ (compile : Bytes → Option Regex) where
  unfoldable pub compile_regex : Bytes → Bytes → Regex
  compile_regex path_regex full_path = elim (compile path_regex) [
    | none ↦ literal_regex full_path
    | some re ↦ re
  ]

  unfoldable pub compile_endpoints : Bytes → List SnapshotEndpointDto → List CompiledEndpoint
  compile_endpoints app [] = []
  compile_endpoints app (ep ∷ eps) =
      record { endpoint = ep; app_id = app; regex = compile_regex ep.path_regex ep.full_path }
      ∷ compile_endpoints app eps

  unfoldable pub compile_services : Bytes → List SnapshotServiceDto → List CompiledEndpoint
  compile_services app [] = []
  compile_services app (svc ∷ svcs) =
      compile_endpoints app svc.endpoints ++ compile_services app svcs

  unfoldable pub compile_apps : List SnapshotAppDto → List CompiledEndpoint
  compile_apps [] = []
  compile_apps (app ∷ apps) = compile_services app.app_id app.services ++ compile_apps apps

  module _ (decode_snapshot : Bytes → Option SnapshotDto) where
    -- refresh, by the outcome of its request.
    unfoldable pub refresh : Fetch → SnapshotCache → SnapshotCache
    refresh no_response sc = sc
    refresh (response status body) sc =
        if not (status == 200) then sc else elim (decode_snapshot body) [
          | none ↦ sc
          | some snap ↦ record {
            loaded = true;
            compiled = compile_apps snap.apps;
            policies = some (new_policy_index snap.policies snap.bindings);
            version = snap.version;
          }
        ]

    -- checkVersion, by the outcomes of the version request and of the refresh that may follow.
    unfoldable pub check_version :
        (Bytes → Option Bytes) → Fetch → Fetch → SnapshotCache → SnapshotCache
    check_version decode_version no_response snapshot sc = sc
    check_version decode_version (response status body) snapshot sc =
        if not (status == 200) then sc else elim (decode_version body) [
          | none ↦ sc
          | some v ↦ if not (str_eq v sc.version) then refresh snapshot sc else sc
        ]

abbrev pub is_shared : CompiledEndpoint → Bool
is_shared ep = is_empty ep.app_id || str_eq ep.app_id (codes "*")

-- if x == nil { x = ep }
abbrev first_match : Option CompiledEndpoint → CompiledEndpoint → Option CompiledEndpoint
first_match m ep = or_else m (some ep)

module _ (app_id method path : Bytes) where
  -- The loop of matchEndpoint, over its variables sharedMatch and anyMatch.
  unfoldable pub scan :
      List CompiledEndpoint
      → Option CompiledEndpoint
      → Option CompiledEndpoint
      → Option CompiledEndpoint
  scan [] shared other = or_else shared (if is_empty app_id then other else none)
  scan (ep ∷ eps) shared other =
      let skipped = scan eps shared other in
      let kept =
        scan eps (if is_shared ep then first_match shared ep else shared) (first_match other ep) in
      if not (str_eq ep.method method)
      then skipped
      else if not (ep.regex.matches path)
      then skipped
      else if not (is_empty app_id) && str_eq ep.app_id app_id
      then some ep
      else kept

unfoldable pub match_endpoint : SnapshotCache → Bytes → Bytes → Bytes → Option CompiledEndpoint
match_endpoint sc app_id method path = scan app_id method path sc.compiled none none

abbrev pub policy_index : SnapshotCache → Option PolicyIndex
policy_index sc = sc.policies
