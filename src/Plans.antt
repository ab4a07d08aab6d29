-- ===== src/Plans.antt =====
-- PlanResolver of identity.go: the plan of a customer, from a cache whose entries live for 30
-- seconds, or else from service-service. The HTTP client, the JSON decoder and the clock are
-- parameters; the state is the cache together with theirs.
pub mod Cache
use traefik_plugin.Base.{
  ℕ, ◌+◌, ◌*◌, ◌^◌, Bool, not, ◌||◌, Option, none, some, List, [], ◌∷◌, ◌++◌, Bytes, codes, str_eq,
  is_empty, ltb, ◌==◌, if◌then◌else◌,
}
use traefik_plugin.Registry.{Fetch, no_response, response}

pub record PlanCacheEntry : Type 0 where
  pub plan : Bytes
  pub expires_at : ℕ

abbrev pub PlanCache : Type 0
PlanCache = Bytes → Option PlanCacheEntry

abbrev pub plan_cache_ttl : ℕ
plan_cache_ttl = 30 * 10 ^ 9

-- appID + "\x00" + userID
unfoldable pub cache_key : Bytes → Bytes → Bytes
cache_key app_id user_id = app_id ++ (0 ∷ user_id)

-- The request: its URL and its application header.
unfoldable pub plan_url : Bytes → Bytes → Bytes → Bytes × Option Bytes
plan_url base_url app_id user_id =
    if not (is_empty app_id)
    then (
      base_url
          ++ (codes "/v1/apps/"
              ++ (app_id ++ (codes "/customers/" ++ (user_id ++ codes "/rate-tier")))),
      some app_id,
    )
    else (base_url ++ (codes "/v1/customers/" ++ (user_id ++ codes "/rate-tier")), none)

abbrev pub store : PlanCache → Bytes → PlanCacheEntry → PlanCache
store cache key entry = λ k. if str_eq key k then some entry else cache k

-- An entry that has not expired.
unfoldable pub live_entry : PlanCache → Bytes → ℕ → Option Bytes
live_entry cache key now = elim (cache key) [
  | none ↦ none
  | some entry ↦ if ltb now entry.expires_at then some entry.plan else none
]

-- The field plan_name of a response; the decoder returns none where json.Unmarshal returns an error.
unfoldable pub fetched_plan : (Bytes → Option Bytes) → Fetch → Option Bytes
fetched_plan decode no_response = none
fetched_plan decode (response status body) =
    if not (status == 200)
    then none
    else elim (decode body) [ none ↦ none | some plan ↦ if is_empty plan then none else some plan ]

module _ {S : Type 0} (base_url : Bytes) (fetch : Bytes × Option Bytes → S → Fetch × S)
    (decode : Bytes → Option Bytes) (now : S → ℕ) where
  -- What follows the response.
  unfoldable pub keep_plan : Bytes → Bytes → Option Bytes → PlanCache × S → Bytes × (PlanCache × S)
  keep_plan key default_plan none (cache, s) = (default_plan, (cache, s))
  keep_plan key default_plan (some plan) (cache, s) =
      (plan, (store cache key (record { plan = plan; expires_at = now s + plan_cache_ttl }), s))

  -- What follows the lookup.
  unfoldable pub resolve_from :
      Bytes → Bytes → Bytes → Option Bytes → PlanCache × S → Bytes × (PlanCache × S)
  resolve_from app_id user_id default_plan (some plan) state = (plan, state)
  resolve_from app_id user_id default_plan none (cache, s) =
      let (answer, s') = fetch (plan_url base_url app_id user_id) s in
      keep_plan (cache_key app_id user_id) default_plan (fetched_plan decode answer) (cache, s')

  unfoldable pub resolve : Bytes → Bytes → Bytes → PlanCache × S → Bytes × (PlanCache × S)
  resolve app_id user_id default_plan (cache, s) =
      resolve_from app_id user_id default_plan (live_entry cache (cache_key app_id user_id) (now s))
        (cache, s)
