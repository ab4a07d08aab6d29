-- ===== src/Examples/Polls.antt =====
-- The laws of the polling loops and of the shared caches, at a server without applications.
use traefik_plugin.Base.{ℕ, suc, Option, none, some, List, [], ◌∷◌, Bytes, codes, ◌≡◌}
use traefik_plugin.Registry.{Fetch, no_response, AppRegistryDto, AppRegistryCache, load}
use traefik_plugin.Polling.{poll, full_refresh, run_loop, registry_polled, Caches, get_shared}
use traefik_plugin.Polling.Shared.{CacheEvent, asked, changed, run_events, get_shared-again}

abbrev fetch : Bytes → ℕ → Fetch × ℕ
fetch url n = (no_response, suc n)

abbrev snap : AppRegistryDto
snap = record { version = codes "v1"; hosts = []; apps = [] }

abbrev decode : Bytes → Option AppRegistryDto
decode body = none

abbrev polled_states : AppRegistryCache
polled_states =
    (run_loop (registry_polled fetch (λ body. none) (codes "http://apps") decode)
      (poll ∷ full_refresh ∷ []) (load snap, 0)).0

-- A cache is the number of caches that were started before it.
abbrev started : Bytes → ℕ → ℕ × ℕ
started url n = (n, suc n)

abbrev no_caches : Caches ℕ
no_caches url = none

abbrev events : List (CacheEvent ℕ)
events = asked (codes "b") ∷ changed (codes "a") 7 ∷ []

abbrev later : Caches ℕ × ℕ
later = run_events started events (get_shared started (codes "a") (no_caches, 0)).1

get_shared-again_example :
    (c : ℕ) × (((later.0) (codes "a") ≡ some c)
      × (get_shared started (codes "a") later ≡ (c, later)))
get_shared-again_example = get_shared-again started (codes "a") events (no_caches, 0)
