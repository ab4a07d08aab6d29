-- ===== src/Registry/Entries.antt =====
-- refresh and resolveHost of registry.go: the entry of the snapshot behind a resolved host.
use traefik_plugin.Base.{
  Bool, true, false, some, List, [], ◌∷◌, ◌++◌, Bytes, codes, str_eq, str_eq_iff, has_prefix,
  has_suffix, equal_fold, All, Some, In, ◌≡◌, ◌⊎◌, inl, inr, refl, sym, ap₂, ◌∙◌, Some-map,
  Some-intro, subst, arith, Bool-cases, Option-cases,
}
use mathlib.Core.Option.{some-injective}
use traefik_plugin.Helpers.{normalize_host}
use traefik_plugin.Registry.{
  AppHostDto, AppRegistryDto, AppRegistryCache, WildcardHostEntry, new_app_registry_cache,
  lookup_host, insert_host, drop_first, place_normalized, place_host, place_hosts, load,
  match_wildcard, resolve_host,
}

abbrev HostEntry : Type 0
HostEntry = Bytes × AppHostDto

abbrev is_wildcard_name : Bytes → Bool
is_wildcard_name nh = has_prefix nh (codes "*.")

-- The entry is active, for this application.
abbrev IsActiveFor : Bytes → HostEntry → Type 0
IsActiveFor app (host, entry) =
    (equal_fold entry.status (codes "active") ≡ true) × (entry.app_id ≡ app)

-- The name of an entry covers a host name: it is that name, or a wildcard whose part behind the star
-- ends that name.
abbrev pub Covers : Bytes → Bytes → Type 0
Covers nh name =
    ((has_prefix nh (codes "*.") ≡ false) × (nh ≡ name))
    ⊎ ((has_prefix nh (codes "*.") ≡ true) × (has_suffix name (drop_first nh) ≡ true))

-- An active entry for the application covers the host.
abbrev pub IsNamedBy : List (Bytes × AppHostDto) → Bytes → Bytes → Type 0
IsNamedBy hosts host app =
    Some
      (λ e.
        (equal_fold e.1.status (codes "active") ≡ true)
        × (e.1.app_id ≡ app)
        × Covers (normalize_host e.0) (normalize_host host))
      hosts

All-append :
    {A : Type 0} (P : A → Type 0) (xs : List A) (a : A) → All P xs → P a → All P (xs ++ a ∷ [])
All-append P [] a h k = (k, tt)
All-append P (x ∷ xs) a (here, h) k = (here, All-append P xs a h k)

module _ (hosts : List (Bytes × AppHostDto)) where
  -- Where a row of the table of hosts comes from, and where a wildcard does.
  abbrev IsRow : Bytes × Bytes → Type 0
  IsRow (name, app) =
      Some
        (λ e.
          IsActiveFor app e
          × (is_wildcard_name (normalize_host e.0) ≡ false)
          × (normalize_host e.0 ≡ name))
        hosts

  abbrev IsWildcard : WildcardHostEntry → Type 0
  IsWildcard w =
      Some
        (λ e.
          IsActiveFor w.app_id e
          × (is_wildcard_name (normalize_host e.0) ≡ true)
          × (drop_first (normalize_host e.0) ≡ w.suffix))
        hosts

  abbrev IsSourced : AppRegistryCache → Type 0
  IsSourced c = All IsRow c.by_host × All IsWildcard c.wildcards

  insert_host-IsRow :
      (name app : Bytes) (m : List (Bytes × Bytes))
      → IsRow (name, app)
      → All IsRow m
      → All IsRow (insert_host name app m)
  unfolding insert_host
  insert_host-IsRow name app [] row h = (row, tt)
  insert_host-IsRow name app ((j, w) ∷ m) row (here, h) = elim (Bool-cases (str_eq j name)) [
    | inl same ↦ rw same (row, h)
    | inr other ↦ rw other (here, insert_host-IsRow name app m row h)
  ]

  place_host-IsSourced :
      (e : HostEntry) (c : AppRegistryCache) → In e hosts → IsSourced c → IsSourced (place_host e c)
  unfolding place_host place_normalized
  place_host-IsSourced (host, entry) c m (rows, wildcards) =
      elim (Bool-cases (equal_fold entry.status (codes "active"))) [
        | inr inactive ↦ rw inactive (rows, wildcards)
        | inl active ↦ rw active (elim (Bool-cases (is_wildcard_name (normalize_host host))) [
          | inl star ↦ rw star (
            rows,
            All-append IsWildcard _ _ wildcards
                (Some-intro _ hosts (host, entry) m ((active, refl), star, refl)),
          )
          | inr plain ↦ rw plain (
            insert_host-IsRow _ _ _
                (Some-intro _ hosts (host, entry) m ((active, refl), plain, refl)) rows,
            wildcards,
          )
        ])
      ]

  place_hosts-IsSourced :
      (hs : List HostEntry) (c : AppRegistryCache)
      → ((e : HostEntry) → In e hs → In e hosts)
      → IsSourced c
      → IsSourced (place_hosts hs c)
  unfolding place_hosts
  place_hosts-IsSourced [] c within h = h
  place_hosts-IsSourced (e ∷ hs) c within h =
      place_hosts-IsSourced hs (place_host e c) (λ a m. within a (inr m))
        (place_host-IsSourced e c (within e (inl refl)) h)

  lookup_host-IsRow :
      (name app : Bytes) (m : List (Bytes × Bytes))
      → All IsRow m
      → lookup_host name m ≡ some app
      → IsRow (name, app)
  unfolding lookup_host
  lookup_host-IsRow name app [] h found = cc
  lookup_host-IsRow name app ((j, w) ∷ m) (here, h) found = elim (Bool-cases (str_eq j name)) [
    | inl same ↦
        subst IsRow
          (ap₂ (λ k v. (k, v)) ((str_eq_iff j name).0 same) (some-injective _ _ (rw same at found)))
          here
    | inr other ↦ lookup_host-IsRow name app m h (rw other at found)
  ]

  match_wildcard-IsWildcard :
      (name app : Bytes) (ws : List WildcardHostEntry)
      → All IsWildcard ws
      → match_wildcard name ws ≡ some app
      → (w : WildcardHostEntry) × IsWildcard w
        × (w.app_id ≡ app)
        × (has_suffix name w.suffix ≡ true)
  unfolding match_wildcard
  match_wildcard-IsWildcard name app [] h found = cc
  match_wildcard-IsWildcard name app (w ∷ ws) (here, h) found =
      elim (Bool-cases (has_suffix name w.suffix)) [
        | inl covers ↦ (w, here, some-injective _ _ (rw covers at found), covers)
        | inr other ↦ match_wildcard-IsWildcard name app ws h (rw other at found)
      ]

  IsNamedBy-row : (host app : Bytes) → IsRow (normalize_host host, app) → IsNamedBy hosts host app
  IsNamedBy-row host app row =
      Some-map (λ e (own, plain, name). (own.0, own.1, inl (plain, name))) hosts row

  IsNamedBy-wildcard :
      (host app : Bytes) (w : WildcardHostEntry)
      → IsWildcard w
      → w.app_id ≡ app
      → has_suffix (normalize_host host) w.suffix ≡ true
      → IsNamedBy hosts host app
  IsNamedBy-wildcard host app w from same covers =
      Some-map
        (λ e (own, star, suffix). (
          own.0,
          own.1 ∙ same,
          inr (star, subst (λ x. has_suffix (normalize_host host) x ≡ true) (sym suffix) covers),
        ))
        hosts from

-- A host is resolved only by an active entry of the snapshot that covers it, to the application of
-- that entry.
pub resolve_host-IsNamedBy :
    (snap : AppRegistryDto) (host app : Bytes)
    → resolve_host (load snap) host ≡ some app
    → IsNamedBy snap.hosts host app
unfolding resolve_host load
resolve_host-IsNamedBy snap host app h =
    let (rows, wildcards) =
      place_hosts-IsSourced snap.hosts snap.hosts new_app_registry_cache (λ e m. m) (tt, tt) in
    let tables = place_hosts snap.hosts new_app_registry_cache in
    elim (Option-cases (lookup_host (normalize_host host) tables.by_host)) [
      | inr (id, e) ↦ IsNamedBy-row snap.hosts host app (
          lookup_host-IsRow snap.hosts (normalize_host host) app tables.by_host rows
            (ground (arith, e, h)))
      | inl e ↦
          let (w, from, same, covers) =
            match_wildcard-IsWildcard snap.hosts (normalize_host host) app tables.wildcards
              wildcards (ground (arith, e, h)) in
          IsNamedBy-wildcard snap.hosts host app w from same covers
    ]
