-- ===== src/Polling/Shared.antt =====
-- getSharedSnapshotCache, getSharedAppRegistryCache and getSharedJWKSCache: one cache for each URL.
use traefik_plugin.Base.{
  Option, none, some, List, [], ◌∷◌, Bytes, str_eq, str_eq_refl, ◌≡◌, inl, inr, refl, ap,
  Bool-cases,
}
use traefik_plugin.Polling.{Caches, put, get_shared, from_entry}

-- What happens to the caches of the process: one is asked for, or the loop of one changes it.
pub data CacheEvent (C : Type 0) : Type 0 where
  asked : Bytes → CacheEvent C
  changed : Bytes → C → CacheEvent C

-- The loop of a URL, which runs where there is a cache.
abbrev pub replaced : {C : Type 0} → Caches C → Bytes → C → Option C → Caches C
replaced caches url c none = caches
replaced caches url c (some d) = put caches url c

module _ {C S : Type 0} (started : Bytes → S → C × S) where
  unfoldable pub run_events : List (CacheEvent C) → Caches C × S → Caches C × S
  run_events [] state = state
  run_events (asked url ∷ events) state = run_events events (get_shared started url state).1
  run_events (changed url c ∷ events) (caches, s) =
      run_events events (replaced caches url c (caches url), s)

  -- There is a cache for this URL.
  abbrev pub IsThere : Bytes → Caches C → Type 0
  IsThere u caches = (c : C) × (caches u ≡ some c)

  put-IsThere :
      (caches : Caches C) (url u : Bytes) (d : C) → IsThere u caches → IsThere u (put caches url d)
  put-IsThere caches url u d (c, h) = elim (Bool-cases (str_eq url u)) [
    | inl e ↦ (d, rw e refl)
    | inr e ↦ (c, rw e h)
  ]

  pub from_entry-IsThere :
      (caches : Caches C) (url u : Bytes) (s : S) (o : Option C)
      → IsThere u caches
      → IsThere u ((from_entry started caches url s o).1.0)
  from_entry-IsThere caches url u s none h = put-IsThere caches url u (started url s).0 h
  from_entry-IsThere caches url u s (some c) h = h

  replaced-IsThere :
      (caches : Caches C) (url u : Bytes) (c : C) (o : Option C)
      → IsThere u caches
      → IsThere u (replaced caches url c o)
  replaced-IsThere caches url u c none h = h
  replaced-IsThere caches url u c (some d) h = put-IsThere caches url u c h

  pub from_entry-own :
      (caches : Caches C) (url : Bytes) (s : S) (o : Option C)
      → caches url ≡ o
      → IsThere url ((from_entry started caches url s o).1.0)
  from_entry-own caches url s none e = ((started url s).0, rw (str_eq_refl url) refl)
  from_entry-own caches url s (some c) e = (c, e)

  run_events-IsThere :
      (events : List (CacheEvent C)) (u : Bytes) (state : Caches C × S)
      → IsThere u (state.0)
      → IsThere u ((run_events events state).0)
  unfolding run_events get_shared
  run_events-IsThere [] u state h = h
  run_events-IsThere (asked url ∷ events) u (caches, s) h =
      run_events-IsThere events u _ (from_entry-IsThere caches url u s (caches url) h)
  run_events-IsThere (changed url c ∷ events) u (caches, s) h =
      run_events-IsThere events u _ (replaced-IsThere caches url u c (caches url) h)

  -- A cache that was asked for once is there for good: whatever is asked for and however the loops
  -- change the caches in between, asking again returns the cache that is stored, starts nothing and
  -- sends nothing.
  pub get_shared-again :
      (url : Bytes) (events : List (CacheEvent C)) (state : Caches C × S)
      → let after = run_events events (get_shared started url state).1 in
        (c : C) × (((after.0) url ≡ some c) × (get_shared started url after ≡ (c, after)))
  unfolding get_shared
  get_shared-again url events (caches, s) =
      let after = run_events events (from_entry started caches url s (caches url)).1 in
      let (c, h) =
        run_events-IsThere events url _ (from_entry-own caches url s (caches url) refl) in
      (c, (h, ap (from_entry started (after.0) url (after.1)) h))
