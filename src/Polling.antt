-- ===== src/Polling.antt =====
-- The polling of registry.go and snapshot.go, and the sharing of the caches of these two files and of
-- jwks.go between the instances of the middleware. The HTTP client is an operation on a state S.
pub mod Loop
pub mod Shared
use traefik_plugin.Base.{
  ℕ, Bool, true, false, not, ◌&&◌, Option, none, some, List, [], ◌∷◌, ◌++◌, Bytes, codes, str_eq,
  ◌==◌, if◌then◌else◌,
}
use traefik_plugin.Base.Int.{ℤ, is_positive}
use traefik_plugin.Registry.{
  Fetch, no_response, response, AppRegistryDto, AppRegistryCache, new_app_registry_cache,
}
use traefik_plugin.Registry
use traefik_plugin.Snapshot.{Regex, SnapshotDto, SnapshotCache, new_snapshot_cache}
use traefik_plugin.Snapshot
use traefik_plugin.Jwks.{JwksDocument, JwksCache, new_jwks_cache, refresh}

-- What a loop waits for: the end of its context or stop, a tick of the poll ticker, a tick of the
-- refresh ticker.
pub data PollEvent : Type 0 where
  stopping : PollEvent
  poll : PollEvent
  full_refresh : PollEvent

-- A cache and the operations that its loop calls.
pub record Polled (C S : Type 0) : Type 0 where
  pub refresh_now : C × S → C × S
  pub check_now : C × S → C × S

module _ {C S : Type 0} (p : Polled C S) where
  open p use {refresh_now, check_now}

  unfoldable pub run_loop : List PollEvent → C × S → C × S
  run_loop [] state = state
  run_loop (stopping ∷ events) state = state
  run_loop (poll ∷ events) state = run_loop events (check_now state)
  run_loop (full_refresh ∷ events) state = run_loop events (refresh_now state)

  -- loop; time.NewTicker panics at an interval that is not positive, which is none.
  unfoldable pub loop : ℤ → ℤ → List PollEvent → C × S → Option (C × S)
  loop poll_interval refresh_interval events state =
      if is_positive poll_interval && is_positive refresh_interval
      then some (run_loop events state)
      else none

  -- start, without the loop that goes on beside it.
  unfoldable pub start : C → S → C × S
  start c s = refresh_now (c, s)

abbrev version_path : Bytes
version_path = codes "/v1/registry/version"

abbrev snapshot_path : Bytes
snapshot_path = codes "/v1/registry/snapshot"

-- Whether a version poll leads to a refresh.
abbrev pub is_changed : (Bytes → Option Bytes) → Fetch → Bytes → Bool
is_changed decode_version no_response current = false
is_changed decode_version (response status body) current =
    if not (status == 200)
    then false
    else elim (decode_version body) [ none ↦ false | some v ↦ not (str_eq v current) ]

module _ {S : Type 0} (fetch : Bytes → S → Fetch × S) (decode_version : Bytes → Option Bytes)
    (base_url : Bytes) where
  module _ {C : Type 0} (version : C → Bytes) (refreshed : Fetch → C → C) where
    -- refresh and checkVersion over the HTTP client, given the version of the cache and what refresh
    -- makes of an outcome.
    abbrev pub on_snapshot : C → Fetch × S → C × S
    on_snapshot c (f, s) = (refreshed f c, s)

    abbrev pub refresh_over : C × S → C × S
    refresh_over (c, s) = on_snapshot c (fetch (base_url ++ snapshot_path) s)

    abbrev pub on_version : C → Fetch × S → C × S
    on_version c (f, s) =
        if is_changed decode_version f (version c) then refresh_over (c, s) else (c, s)

    abbrev pub check_over : C × S → C × S
    check_over (c, s) = on_version c (fetch (base_url ++ version_path) s)

    abbrev pub polled : Polled C S
    polled = record { refresh_now = refresh_over; check_now = check_over }

  unfoldable pub registry_polled : (Bytes → Option AppRegistryDto) → Polled AppRegistryCache S
  registry_polled decode = polled (λ c. c.version) (Registry.refresh decode)

  unfoldable pub snapshot_polled :
      (Bytes → Option Regex) → (Bytes → Option SnapshotDto) → Polled SnapshotCache S
  snapshot_polled compile decode = polled (λ c. c.version) (Snapshot.refresh compile decode)

-- The caches of the process, by URL.
abbrev pub Caches : Type 0 → Type 0
Caches C = Bytes → Option C

abbrev pub put : {C : Type 0} → Caches C → Bytes → C → Caches C
put caches url c = λ u. if str_eq url u then some c else caches u

module _ {C S : Type 0} (started : Bytes → S → C × S) where
  abbrev pub stored : Caches C → Bytes → C × S → C × (Caches C × S)
  stored caches url (c, s) = (c, (put caches url c, s))

  abbrev pub from_entry : Caches C → Bytes → S → Option C → C × (Caches C × S)
  from_entry caches url s none = stored caches url (started url s)
  from_entry caches url s (some c) = (c, (caches, s))

  -- The cache of a URL, which is made and started when it is first asked for.
  unfoldable pub get_shared : Bytes → Caches C × S → C × (Caches C × S)
  get_shared url (caches, s) = from_entry caches url s (caches url)

module _ {S : Type 0} (fetch : Bytes → S → Fetch × S) (decode_version : Bytes → Option Bytes) where
  abbrev pub get_shared_app_registry_cache :
      (Bytes → Option AppRegistryDto)
      → Bytes
      → Caches AppRegistryCache × S
      → AppRegistryCache × (Caches AppRegistryCache × S)
  get_shared_app_registry_cache decode =
      get_shared
        (λ url. start (registry_polled fetch decode_version url decode) new_app_registry_cache)

  module _ (compile : Bytes → Option Regex) (decode : Bytes → Option SnapshotDto)
      (base_url : Bytes) where
    -- start and loop of the endpoint snapshot.
    abbrev pub start_snapshot : SnapshotCache → S → SnapshotCache × S
    start_snapshot = start (snapshot_polled fetch decode_version base_url compile decode)

    abbrev pub loop_snapshot :
        ℤ → ℤ → List PollEvent → SnapshotCache × S → Option (SnapshotCache × S)
    loop_snapshot = loop (snapshot_polled fetch decode_version base_url compile decode)

  abbrev pub get_shared_snapshot_cache :
      (Bytes → Option Regex)
      → (Bytes → Option SnapshotDto)
      → Bytes
      → Caches SnapshotCache × S
      → SnapshotCache × (Caches SnapshotCache × S)
  get_shared_snapshot_cache compile decode =
      get_shared (λ url. start_snapshot compile decode url new_snapshot_cache)

-- getSharedJWKSCache; the outcome of the first fetch is only logged.
abbrev pub get_shared_jwks_cache :
    {S : Type 0}
    → (Bytes → S → Fetch × S)
    → (Bytes → Option JwksDocument)
    → (S → ℕ)
    → ℤ
    → Bytes
    → Caches JwksCache × S
    → JwksCache × (Caches JwksCache × S)
get_shared_jwks_cache fetch decode now cooldown =
    get_shared (λ url s. (refresh fetch decode now (new_jwks_cache url cooldown) s).1)
