-- ===== src/Examples/Limits.antt =====
-- The laws of the rate limiter at a map of counters and at concrete windows.
use traefik_plugin.Base.{
  List, some, ◌%◌, [], ◌∷◌, false, ℕ, suc, ◌+◌, ◌*◌, ◌≤◌, ◌<◌, Bytes, codes, str_eq, str_eq_refl,
  if◌then◌else◌, ◌≡◌, ◌↔◌, refl, ap, arith,
}
use traefik_plugin.Base.Int.{ℤ, pos, scale, ◌+ℤ◌}
use traefik_plugin.Plugin.{RateLimitResult}
use traefik_plugin.Redis.Operations.{Answer, answered}
use traefik_plugin.RateLimit.{
  Counters, RateLimiter, second, window_of, window_start, ttl_seconds, check,
}
use traefik_plugin.RateLimit.{result_of}
use traefik_plugin.RateLimit.Wire.{limiter_over, check-direct_check}
use traefik_plugin.Redis.Client.{RespRedis}
use traefik_plugin.Redis.Resp.Replies.{ServerReply, number}
use traefik_plugin.RateLimit.Admission.{IsCounting, begun, checked, admissions, Run-limit}
use traefik_plugin.RateLimit.Window.{
  window_index, key_at, window_key-window_index_iff, window_start-ends,
}

abbrev raised : Bytes → (Bytes → ℕ) → Bytes → ℕ
raised k t j = if str_eq k j then suc (t k) else t j

abbrev counters : Counters (Bytes → ℕ)
counters = record {
  now = λ t. 90 * second;
  incr_key = λ k t. (answered (pos (suc (t k))), raised k t);
  expire_key = λ k n t. (answered tt, t);
}

raised-own : (k : Bytes) (t : Bytes → ℕ) → suc (t k) ≡ raised k t k
raised-own k t = rw (str_eq_refl k) refl

abbrev limiter : RateLimiter (Bytes → ℕ)
limiter = record { client = counters; prefix = codes "rl:" }

counters-IsCounting : IsCounting counters (λ k t. t k)
counters-IsCounting = record {
  rises = λ k t. (ap pos (raised-own k t), omega (arith, raised-own k t));
  stays = λ k n t. omega arith;
}

abbrev minute : ℤ
minute = window_start (90 * second) (window_of (pos 60))

abbrev first : Answer RateLimitResult × (Bytes → ℕ)
first = check limiter (codes "u1") (codes "e1") (pos 1) (pos 60) (λ k. 0)

Run-limit_example :
    0
      + admissions (first.0)
      + admissions ((check limiter (codes "u1") (codes "e1") (pos 1) (pos 60) (first.1)).0)
    ≤ 1
Run-limit_example =
    Run-limit limiter (λ k t. t k) counters-IsCounting (codes "u1") (codes "e1") (pos 1) (pos 60)
      minute (λ k. 0) _ _ (checked (first.1) (checked (λ k. 0) begun refl) refl)

window_key-window_index_iff_example :
    (key_at (codes "rl:") (codes "u1") (codes "e1") 60 (90 * second)
      ≡ key_at (codes "rl:") (codes "u1") (codes "e1") 60 (119 * second))
    ↔ (window_index (90 * second) (60 * second) ≡ window_index (119 * second) (60 * second))
window_key-window_index_iff_example =
    window_key-window_index_iff (codes "rl:") (codes "u1") (codes "e1") 60 (90 * second)
      (119 * second) (omega arith) (omega arith) (omega arith) (omega arith)

window_start-ends_example :
    (left : ℕ) × (window_start (90 * second) (window_of (pos 60)) +ℤ window_of (pos 60)
      ≡ pos (90 * second + left))
    × (0 < left)
    × (left ≤ 60 * second)
    × (scale (ttl_seconds (window_of (pos 60))) second ≡ pos (60 * second + second))
window_start-ends_example = window_start-ends (90 * second) 60 (omega arith) (omega arith)

-- A server that answers each command with the number of commands so far, modulo 100.
abbrev numbering : List Bytes → ℕ → ServerReply × ℕ
numbering args n = (number (pos (suc n % 100)), suc n)

abbrev client : RespRedis
client = record {
  addr = codes "redis:6379";
  use_tls = false;
  pwd = [];
  db = pos 0;
  conn = some [];
  retry_at = 0;
}

check-direct_check_example :
    check
      (limiter_over (λ n. 90 * second) numbering (codes "rl:"))
      (codes "u1")
      (codes "e1")
      (pos 5)
      (pos 60)
      (client, (3, []))
    ≡ (answered (result_of (pos 5) (pos (120 * second)) (pos 4)), (client, (4, [])))
unfolding traefik_plugin.RateLimit.window_key traefik_plugin.Base.Int.format_int window_start
    window_of traefik_plugin.Base.Int.wrap ttl_seconds
check-direct_check_example =
    check-direct_check (λ n. 90 * second) numbering client (codes "rl:") refl
      (λ args n. omega arith) (codes "u1") (codes "e1") (pos 5) (pos 60) 3
      (omega arith, (omega arith, (omega arith, tt)))
      (omega arith, (omega arith, (omega arith, (omega arith, tt))))
