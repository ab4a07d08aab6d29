-- ===== src/Plans/Cache.antt =====
-- The cache of PlanResolver in identity.go.
use traefik_plugin.Base.{
  ℕ, ◌+◌, ◌<◌, Option, none, some, [], ◌∷◌, Bytes, str_eq, str_eq_iff, str_eq_refl, subst, In, ◌≡◌,
  ◌≢◌, ◌⊎◌, inl, inr, refl, sym, ap, arith, Bool-cases, Option-cases,
}
use traefik_plugin.Registry.{Fetch}
use traefik_plugin.Plans.{
  PlanCache, PlanCacheEntry, plan_cache_ttl, cache_key, plan_url, store, live_entry, fetched_plan,
  keep_plan, resolve_from, resolve,
}

-- Keys of applications without a zero byte are equal only for one application and one user.
cache_key-injective :
    (a b u v : Bytes) → ¬ In 0 a → ¬ In 0 b → cache_key a u ≡ cache_key b v → (a ≡ b) × (u ≡ v)
unfolding cache_key
cache_key-injective [] [] u v h k e = (refl, cc)
cache_key-injective [] (c ∷ b) u v h k e = absurd (k (inl cc))
cache_key-injective (c ∷ a) [] u v h k e = absurd (h (inl cc))
cache_key-injective (c ∷ a) (d ∷ b) u v h k e =
    let (same, rest) = cache_key-injective a b u v (λ m. h (inr m)) (λ m. k (inr m)) cc in
    (cc, rest)

apart : (a u b v : Bytes) → ¬ In 0 a → ¬ In 0 b → (a ≢ b) ⊎ (u ≢ v) → cache_key a u ≢ cache_key b v
apart a u b v h k (inl differ) e = differ (cache_key-injective a b u v h k e).0
apart a u b v h k (inr differ) e = differ (cache_key-injective a b u v h k e).1

live_entry-some :
    (cache : PlanCache) (key : Bytes) (entry : PlanCacheEntry) (now : ℕ)
    → cache key ≡ some entry
    → now < entry.expires_at
    → live_entry cache key now ≡ some entry.plan
unfolding live_entry
live_entry-some cache key entry now e h = simp (e, live_entry) (ground arith)

live_entry-store :
    (cache : PlanCache) (key plan : Bytes) (expires now : ℕ)
    → now < expires
    → live_entry (store cache key (record { plan = plan; expires_at = expires })) key now
      ≡ some plan
live_entry-store cache key plan expires now h =
    live_entry-some (store cache key (record { plan = plan; expires_at = expires })) key _ now
      (rw (str_eq_refl key)) h

module _ {S : Type 0} (base_url : Bytes) (fetch : Bytes × Option Bytes → S → Fetch × S)
    (decode : Bytes → Option Bytes) (now : S → ℕ) where
  abbrev pub resolved : Bytes → Bytes → Bytes → PlanCache × S → Bytes × (PlanCache × S)
  resolved = resolve base_url fetch decode now

  abbrev pub answer : Bytes → Bytes → S → Option Bytes × S
  answer app_id user_id s = (
    fetched_plan decode (fetch (plan_url base_url app_id user_id) s).0,
    (fetch (plan_url base_url app_id user_id) s).1,
  )

  -- Resolving a plan never changes what the cache holds for another customer, of this or of another
  -- application, as long as the names of the two applications hold no zero byte.
  pub resolve-others :
      (a u b v default_plan : Bytes) (cache : PlanCache) (s : S)
      → ¬ In 0 a
      → ¬ In 0 b
      → (a ≢ b) ⊎ (u ≢ v)
      → (resolved a u default_plan (cache, s)).1.0 (cache_key b v) ≡ cache (cache_key b v)
  unfolding resolve resolve_from keep_plan
  resolve-others a u b v default_plan cache s h k differ =
      elim (Option-cases (live_entry cache (cache_key a u) (now s))) [
        | inr (plan, e) ↦ rw e
        | inl e ↦ elim (Option-cases (answer a u s).0) [
          | inl f ↦ rw (e, f)
          | inr (plan, f) ↦
              rw (e, f)
                (elim (Bool-cases (str_eq (cache_key a u) (cache_key b v))) [
                  | inl same ↦ absurd (
                      apart a u b v h k differ
                        ((str_eq_iff (cache_key a u) (cache_key b v)).0 same))
                  | inr other ↦ rw other
                ])
        ]
      ]

  resolve-miss :
      (a u default_plan plan : Bytes) (cache : PlanCache) (s : S)
      → live_entry cache (cache_key a u) (now s) ≡ none
      → (answer a u s).0 ≡ some plan
      → resolved a u default_plan (cache, s) ≡ (
        plan,
        (
          store cache
              (cache_key a u)
              (record { plan = plan; expires_at = now (answer a u s).1 + plan_cache_ttl }),
          (answer a u s).1,
        ),
      )
  unfolding resolve resolve_from keep_plan
  resolve-miss a u default_plan plan cache s cold given = rw (cold, given)

  resolve-hit :
      (a u default_plan plan : Bytes) (cache : PlanCache) (s : S)
      → live_entry cache (cache_key a u) (now s) ≡ some plan
      → resolved a u default_plan (cache, s) ≡ (plan, (cache, s))
  unfolding resolve resolve_from
  resolve-hit a u default_plan plan cache s hit = rw hit

  -- A plan that service-service has answered is given again, without another request and with the
  -- cache unchanged, until 30 seconds after it was stored.
  pub resolve-cached :
      (a u default_plan other_default plan : Bytes) (cache : PlanCache) (s t : S)
      → live_entry cache (cache_key a u) (now s) ≡ none
      → (answer a u s).0 ≡ some plan
      → now t < now (answer a u s).1 + plan_cache_ttl
      → resolved a u other_default ((resolved a u default_plan (cache, s)).1.0, t)
        ≡ (plan, ((resolved a u default_plan (cache, s)).1.0, t))
  resolve-cached a u default_plan other_default plan cache s t cold given soon =
      subst (λ c. resolved a u other_default (c, t) ≡ (plan, (c, t)))
        (sym (ap (λ r. r.1.0) (resolve-miss a u default_plan plan cache s cold given)))
        (resolve-hit a u other_default plan _ t (
          live_entry-store cache (cache_key a u) plan (now (answer a u s).1 + plan_cache_ttl)
            (now t) soon))
