-- ===== src/Polling/Loop.antt =====
-- The loops of registry.go and snapshot.go: what holds of the caches while they are polled.
use traefik_plugin.Base.{
  Bool, true, false, Option, some, List, [], ◌∷◌, Bytes, if◌then◌else◌, ◌≡◌, inl, inr, refl,
  Bool-cases, ◌==◌, Option-cases,
}
use traefik_plugin.Registry.{Fetch, no_response, response, AppRegistryDto, AppRegistryCache, load}
use traefik_plugin.Registry
use traefik_plugin.Snapshot.{Regex, SnapshotDto, SnapshotCache, compile_apps}
use traefik_plugin.Authz.{new_policy_index}
use traefik_plugin.Snapshot
use traefik_plugin.Polling.{
  PollEvent, stopping, poll, full_refresh, run_loop, polled, check_over, snapshot_polled,
}

module _ {S C : Type 0} (fetch : Bytes → S → Fetch × S) (decode_version : Bytes → Option Bytes)
    (base_url : Bytes) (version : C → Bytes) (refreshed : Fetch → C → C) (P : C → Type 0)
    (kept : (f : Fetch) (c : C) → P c → P (refreshed f c)) where
  either : (b : Bool) (m m' : C × S) → P (m.0) → P (m'.0) → P ((if b then m else m').0)
  either true m m' h h' = h
  either false m m' h h' = h'

  check_over-kept :
      (state : C × S)
      → P (state.0)
      → P ((check_over fetch decode_version base_url version refreshed state).0)
  check_over-kept (c, s) h = either _ _ _ (kept _ c h) h

  -- What every refresh keeps, the loop keeps.
  run_loop-kept :
      (events : List PollEvent) (state : C × S)
      → P (state.0)
      → P ((run_loop (polled fetch decode_version base_url version refreshed) events state).0)
  unfolding run_loop
  run_loop-kept [] state h = h
  run_loop-kept (stopping ∷ events) state h = h
  run_loop-kept (poll ∷ events) state h = run_loop-kept events _ (check_over-kept state h)
  run_loop-kept (full_refresh ∷ events) (c, s) h = run_loop-kept events _ (kept _ c h)

-- The registry is a snapshot that a server sent, as a whole.
abbrev pub IsLoaded : AppRegistryCache → Type 0
IsLoaded c = (snap : AppRegistryDto) × (c ≡ load snap)

-- The endpoints and the policies of one snapshot.
abbrev pub compiled_from : (Bytes → Option Regex) → SnapshotDto → SnapshotCache
compiled_from compile snap = record {
  loaded = true;
  compiled = compile_apps compile snap.apps;
  policies = some (new_policy_index snap.policies snap.bindings);
  version = snap.version;
}

abbrev pub IsCompiled : (Bytes → Option Regex) → SnapshotCache → Type 0
IsCompiled compile sc = (snap : SnapshotDto) × (sc ≡ compiled_from compile snap)

refresh-IsCompiled :
    (compile : Bytes → Option Regex) (decode : Bytes → Option SnapshotDto) (f : Fetch)
    (sc : SnapshotCache)
    → IsCompiled compile sc
    → IsCompiled compile (Snapshot.refresh compile decode f sc)
unfolding Snapshot.refresh
refresh-IsCompiled compile decode no_response sc h = h
refresh-IsCompiled compile decode (response status body) sc h = elim (Bool-cases (status == 200)) [
  | inr bad ↦ rw bad h
  | inl good ↦
      rw good
        (elim (Option-cases (decode body)) [ inl e ↦ rw e h | inr (snap, e) ↦ rw e (snap, refl) ])
]

-- Once the endpoint snapshot is loaded, every state that its loop leads to, whatever the servers
-- answer, holds the endpoints and the policies of one and the same snapshot.
pub snapshot_loop-IsCompiled :
    {S : Type 0} (fetch : Bytes → S → Fetch × S) (decode_version : Bytes → Option Bytes)
    (base_url : Bytes) (compile : Bytes → Option Regex) (decode : Bytes → Option SnapshotDto)
    (events : List PollEvent) (sc : SnapshotCache) (s : S)
    → IsCompiled compile sc
    → IsCompiled compile
        ((run_loop (snapshot_polled fetch decode_version base_url compile decode) events (sc, s)).0)
unfolding snapshot_polled
snapshot_loop-IsCompiled fetch decode_version base_url compile decode events sc s =
    run_loop-kept fetch decode_version base_url (λ c. c.version) (Snapshot.refresh compile decode)
      (IsCompiled compile) (refresh-IsCompiled compile decode) events (sc, s)
