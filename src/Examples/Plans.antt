-- ===== src/Examples/Plans.antt =====
-- The laws of the plan resolver, at a service that answers "pro"; the state is the clock.
use traefik_plugin.Base.{ℕ, ◌+◌, ◌^◌, Option, some, none, Bytes, codes, ◌≡◌, ◌≢◌, inr, refl, arith}
use traefik_plugin.Registry.{Fetch, response}
use traefik_plugin.Plans.{PlanCache, cache_key, live_entry, fetched_plan}
use traefik_plugin.Plans.Cache.{resolved, resolve-others, resolve-cached}
use traefik_plugin.Examples.Fixtures.{acme}

abbrev base_url : Bytes
base_url = codes "http://service-service:8080"

abbrev fetch : Bytes × Option Bytes → ℕ → Fetch × ℕ
fetch url s = (response 200 (codes "pro"), s + 10 ^ 6)

abbrev decode : Bytes → Option Bytes
decode body = some body

abbrev clock : ℕ → ℕ
clock s = s

abbrev no_plans : PlanCache
no_plans = λ key. none

one_two : codes "1" ≢ codes "2"
one_two e = ground arith

resolve-others_example :
    (resolved base_url fetch decode clock acme (codes "1") (codes "free") (no_plans, 5)).1.0
      (cache_key acme (codes "2"))
    ≡ none
resolve-others_example =
    resolve-others base_url fetch decode clock acme (codes "1") acme (codes "2") (codes "free")
      no_plans 5 (λ m. ground arith) (λ m. ground arith) (inr one_two)

resolve-cached_example :
    resolved base_url fetch decode clock acme (codes "1") (codes "basic") (
      (resolved base_url fetch decode clock acme (codes "1") (codes "free") (no_plans, 5)).1.0,
      10 ^ 9,
    )
    ≡ (
      codes "pro",
      (
        (resolved base_url fetch decode clock acme (codes "1") (codes "free") (no_plans, 5)).1.0,
        10 ^ 9,
      ),
    )
unfolding live_entry fetched_plan
resolve-cached_example =
    resolve-cached base_url fetch decode clock acme (codes "1") (codes "free") (codes "basic")
      (codes "pro") no_plans 5 (10 ^ 9) refl refl (omega arith)
