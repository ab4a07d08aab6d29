-- ===== src/RateLimit.antt =====
-- ratelimit.go: the fixed-window limiter. Times are nanoseconds since 1970; the clock of T is never
-- before. What the limiter asks of Redis is the record Counters over a state T; the instance that the
-- plugin uses is redis_counters. Debug lines are not modelled.
pub mod Window
pub mod Admission
pub mod Wire
use traefik_plugin.Base.{
  ℕ, ◌+◌, ◌*◌, ◌%◌, ◌^◌, Bool, true, false, not, Option, none, some, ◌++◌, ◌∷◌, Bytes, codes, ◌==◌,
  if◌then◌else◌,
}
use traefik_plugin.Base.Int.{
  ℤ, pos, negsuc, neg, sub_ℕ, is_positive, pos_part, format_int, ◌+ℤ◌, ◌-ℤ◌, scale, quot, floor_div,
  leb_ℤ, wrap,
}
use traefik_plugin.Plugin.{RateLimitResult}
use traefik_plugin.Redis.Client.{Network, RespRedis}
use traefik_plugin.Redis.Operations.{
  Url, Answer, answered, failed, crashed, dial_redis, incr, expire, close,
}

-- Nanoseconds of a second, and from year 1, where Truncate counts from, to 1970.
abbrev pub second : ℕ
second = 10 ^ 9

abbrev pub epoch : ℕ
epoch = 62135596800 * second

-- time.Time{}
abbrev pub zero_time : ℤ
zero_time = neg epoch

pub record Counters (T : Type 0) : Type 0 where
  pub now : T → ℕ
  pub incr_key : Bytes → T → Answer ℤ × T
  pub expire_key : Bytes → ℤ → T → Answer {0} (Unit {0}) × T

abbrev pub redis_counters : {S : Type 0} → Network S → Counters (RespRedis × S)
redis_counters net = record {
  now = λ t. net.now (t.1);
  incr_key = incr net;
  expire_key = expire net;
}

-- The client in it is never nil.
pub record RateLimiter (T : Type 0) : Type 0 where
  pub client : Counters T
  pub prefix : Bytes

-- newRateLimiter, with the state of the client after the first attempt to connect.
unfoldable pub new_rate_limiter :
    {S : Type 0}
    → Network S
    → (Bytes → Option Url)
    → Bytes
    → Bytes
    → Bytes
    → ℤ
    → S
    → Answer (RateLimiter (RespRedis × S) × (RespRedis × S))
new_rate_limiter net parse_url redis_url password prefix db s =
    elim (dial_redis net parse_url redis_url password db s) [
      | answered state ↦ answered (record { client = redis_counters net; prefix = prefix }, state)
      | failed ↦ failed
      | crashed ↦ crashed
    ]

-- time.Duration(windowSeconds) * time.Second
unfoldable pub window_of : ℤ → ℤ
window_of seconds = wrap (scale seconds second)

-- now.Truncate(window)
unfoldable pub window_start : ℕ → ℤ → ℤ
window_start now window =
    if is_positive window then sub_ℕ now ((now + epoch) % pos_part window) else pos now

unfoldable pub window_key : Bytes → Bytes → Bytes → ℤ → Bytes
window_key prefix key endpoint_uid start =
    prefix
    ++ (key ++ (codes ":" ++ (endpoint_uid ++ (codes ":" ++ format_int (floor_div start second)))))

abbrev pub at_least_one : ℤ → ℤ
at_least_one n = if is_positive n then n else pos 1

-- int((window + time.Second).Seconds()), at least 1. The float64 in between is taken to be exact.
unfoldable pub ttl_seconds : ℤ → ℤ
ttl_seconds window = at_least_one (quot (wrap (window +ℤ pos second)) second)

abbrev at_least_zero : ℤ → ℤ
at_least_zero n = pos (pos_part n)

unfoldable pub result_of : ℤ → ℤ → ℤ → RateLimitResult
result_of limit reset_at count = record {
  allowed = leb_ℤ count limit;
  remaining = at_least_zero (wrap (limit -ℤ count));
  limit = limit;
  reset_at = reset_at;
}

abbrev pub is_one : ℤ → Bool
is_one (pos n) = n == 1
is_one (negsuc n) = false

abbrev pub limited_to_zero : RateLimitResult
limited_to_zero = record { allowed = false; remaining = pos 0; limit = pos 0; reset_at = zero_time }

module _ {T : Type 0} (rl : RateLimiter T) where
  -- The result, unless the first count of a window could not be given its time to live.
  abbrev pub expired : RateLimitResult → Answer {0} (Unit {0}) × T → Answer RateLimitResult × T
  expired result (answered u, t) = (answered result, t)
  expired result (failed, t) = (failed, t)
  expired result (crashed, t) = (crashed, t)

  abbrev pub counted : Bytes → ℤ → (ℤ → RateLimitResult) → Answer ℤ × T → Answer RateLimitResult × T
  counted redis_key ttl result (answered count, t) =
      if is_one count
      then expired (result count) (rl.client.expire_key redis_key ttl t)
      else (answered (result count), t)
  counted redis_key ttl result (failed, t) = (failed, t)
  counted redis_key ttl result (crashed, t) = (crashed, t)

  unfoldable pub check : Bytes → Bytes → ℤ → ℤ → T → Answer RateLimitResult × T
  check key endpoint_uid limit window_seconds t =
      if not (is_positive limit)
      then (answered limited_to_zero, t)
      else (let window = window_of window_seconds in
          let start = window_start (rl.client.now t) window in
          let redis_key = window_key rl.prefix key endpoint_uid start in
          counted redis_key (ttl_seconds window) (result_of limit (start +ℤ window))
            (rl.client.incr_key redis_key t))

-- RateLimiter.Close
unfoldable pub close_limiter : {S : Type 0} → RespRedis × S → RespRedis × S
close_limiter (r, s) = (close r, s)
