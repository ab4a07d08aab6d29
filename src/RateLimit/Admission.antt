-- ===== src/RateLimit/Admission.antt =====
-- RateLimiter.Check of ratelimit.go over a counter: how many checks a window admits.
use traefik_plugin.Base.{
  ℕ, zero, suc, ◌+◌, ◌≤◌, ◌<◌, not, Bool, true, false, Bytes, if◌then◌else◌, ◌≡◌, ◌⊎◌, inl, inr,
  refl, arith,
}
use traefik_plugin.Base.Int.{is_positive, quot, wrap, ℤ, pos, negsuc, pos_part, ◌+ℤ◌}
use traefik_plugin.Plugin.{RateLimitResult}
use traefik_plugin.Redis.Operations.{Answer, answered, failed, crashed}
use traefik_plugin.RateLimit.{
  Counters, RateLimiter, window_of, window_start, window_key, ttl_seconds, result_of,
  limited_to_zero, is_one, second, at_least_one, check, counted, expired,
}

-- What INCR does to a counter: an answer is its new value, and greater than the old one; without an
-- answer it may have risen all the same.
abbrev pub IsRisen : ℕ → Answer ℤ → ℕ → Type 0
IsRisen before (answered n) after = (n ≡ pos after) × (before < after)
IsRisen before failed after = before ≤ after
IsRisen before crashed after = before ≤ after

-- The documented behaviour of INCR and of EXPIRE with a positive time, on the values of the counters,
-- 0 where there is none.
pub record IsCounting {T : Type 0} (c : Counters T) (value_at : Bytes → T → ℕ) : Type 0 where
  pub rises :
      (k : Bytes) (t : T)
      → IsRisen (value_at k t) (c.incr_key k t).0 (value_at k (c.incr_key k t).1)
  pub stays :
      (k : Bytes) (n : ℕ) (t : T) → value_at k t ≤ value_at k (c.expire_key k (pos (suc n)) t).1

-- 1 for a check that is allowed.
abbrev pub admissions : Answer RateLimitResult → ℕ
admissions (answered result) = if result.allowed then 1 else 0
admissions failed = 0
admissions crashed = 0

module _ {T : Type 0} (rl : RateLimiter T) (value_at : Bytes → T → ℕ) (key uid : Bytes) (limit : ℤ)
    (seconds start : ℤ) where
  abbrev pub window_counter : T → ℕ
  window_counter t = value_at (window_key rl.prefix key uid start) t

  -- What happens while a window lasts, with the number of checks that were allowed: other clients and
  -- the clock, which do not lower the counter, and checks that fall in the window.
  pub data Run (t : T) : ℕ → T → Type 0 where
    begun : Run t 0 t
    passed : {n : ℕ} → (u v : T) → Run t n u → window_counter u ≤ window_counter v → Run t n v
    checked :
        {n : ℕ}
        → (u : T) → Run t n u
        → window_start (rl.client.now u) (window_of seconds) ≡ start
        → Run t
            (n + admissions (check rl key uid limit seconds u).0)
            (check rl key uid limit seconds u).1

-- A check that is allowed raises the counter, and found it below the limit.
abbrev IsStep : ℤ → ℕ → ℕ → ℕ → Type 0
IsStep limit before admitted after =
    ((admitted ≡ 0) × (before ≤ after))
    ⊎ ((admitted ≡ 1) × (before < after) × (before < pos_part limit))

at_least_one_positive : (z : ℤ) → (n : ℕ) × (at_least_one z ≡ pos (suc n))
at_least_one_positive (pos zero) = (0, refl)
at_least_one_positive (pos (suc n)) = (n, ground arith)
at_least_one_positive (negsuc n) = (0, refl)

ttl_seconds-positive : (window : ℤ) → (n : ℕ) × (ttl_seconds window ≡ pos (suc n))
unfolding ttl_seconds
ttl_seconds-positive window = at_least_one_positive (quot (wrap (window +ℤ pos second)) second)

result_of-IsStep :
    (limit reset_at : ℤ) (before after : ℕ)
    → before < after
    → IsStep limit before (admissions (answered (result_of limit reset_at (pos after)))) after
unfolding result_of
result_of-IsStep limit reset_at before after h = ground arith

module _ {T : Type 0} (rl : RateLimiter T) (value_at : Bytes → T → ℕ)
    (counting : IsCounting rl.client value_at) where
  open counting use {rises, stays}

  -- A check with this outcome.
  abbrev Steps : ℤ → Bytes → ℕ → Answer RateLimitResult × T → Type 0
  Steps limit k before m = IsStep limit before (admissions (m.0)) (value_at k (m.1))

  expired_step :
      (limit reset_at : ℤ) (k : Bytes) (before : ℕ) (t : T) (m : Answer {0} (Unit {0}) × T)
      → before < value_at k t
      → value_at k t ≤ value_at k (m.1)
      → Steps limit k before (expired rl (result_of limit reset_at (pos (value_at k t))) m)
  expired_step limit reset_at k before t (answered u, t') h kept =
      ground (arith, result_of-IsStep limit reset_at before (value_at k t) h)
  expired_step limit reset_at k before t (failed, t') h kept = inl (refl, omega (arith, h, kept))
  expired_step limit reset_at k before t (crashed, t') h kept = inl (refl, omega (arith, h, kept))

  either :
      (limit : ℤ) (k : Bytes) (before : ℕ) (b : Bool) (m m' : Answer RateLimitResult × T)
      → Steps limit k before m
      → Steps limit k before m'
      → Steps limit k before (if b then m else m')
  either limit k before true m m' h h' = h
  either limit k before false m m' h h' = h'

  counted_step :
      (limit reset_at : ℤ) (k : Bytes) (n before : ℕ) (m : Answer ℤ × T)
      → IsRisen before (m.0) (value_at k (m.1))
      → Steps limit k before (counted rl k (pos (suc n)) (result_of limit reset_at) m)
  counted_step limit reset_at k n before (answered count, t) (e, h) =
      let raised =
        expired_step limit reset_at k before t (rl.client.expire_key k (pos (suc n)) t) h
          (stays k n t) in
      rw e (
        either limit k before (is_one (pos (value_at k t))) _
          (answered (result_of limit reset_at (pos (value_at k t))), t) raised
          (result_of-IsStep limit reset_at before (value_at k t) h))
  counted_step limit reset_at k n before (failed, t) h = inl (refl, h)
  counted_step limit reset_at k n before (crashed, t) h = inl (refl, h)

  check_step :
      (key uid : Bytes) (limit seconds start : ℤ) (t : T)
      → window_start (rl.client.now t) (window_of seconds) ≡ start
      → let k = window_key rl.prefix key uid start in
        Steps limit k (value_at k t) (check rl key uid limit seconds t)
  unfolding check
  check_step key uid limit seconds start t h =
      let k = window_key rl.prefix key uid start in
      let (n, ttl) = ttl_seconds-positive (window_of seconds) in
      rw (h, ttl)
        (either limit k (value_at k t) (not (is_positive limit)) (answered limited_to_zero, t) _
          (inl (refl, omega arith))
          (counted_step limit (start +ℤ window_of seconds) k n (value_at k t)
            (rl.client.incr_key k t) (rises k t)))

  -- The checks that were allowed are counted.
  Run-counter :
      (key uid : Bytes) (limit seconds start : ℤ) (t u : T) (n : ℕ)
      → Run rl value_at key uid limit seconds start t n u
      → (n ≤ pos_part limit) × (n ≤ window_counter rl value_at key uid limit seconds start u)
  Run-counter key uid limit seconds start t _ _ begun = (omega arith, omega arith)
  Run-counter key uid limit seconds start t _ _ (passed u v run h) =
      let known = Run-counter key uid limit seconds start t _ _ run in
      (known.0, omega (arith, known.1, h))
  Run-counter key uid limit seconds start t _ _ (checked u run h) =
      let known = Run-counter key uid limit seconds start t _ _ run in
      elim (check_step key uid limit seconds start u h) [
        | inl (none_admitted, risen) ↦
            (omega (arith, known.0, none_admitted), omega (arith, known.1, none_admitted, risen))
        | inr (admitted, risen, below) ↦
            (omega (arith, known.1, admitted, below), omega (arith, known.1, admitted, risen))
      ]

  -- As long as nothing but INCR and EXPIRE with a positive time, as documented, and changes that do not
  -- lower it, happens to the counter of a window (no deletion, no eviction, no expiry), at most limit of
  -- the checks that fall in the window are allowed, none where limit is not positive. Other clients may
  -- raise the counter, and requests of Redis may fail.
  pub Run-limit :
      (key uid : Bytes) (limit seconds start : ℤ) (t u : T) (n : ℕ)
      → Run rl value_at key uid limit seconds start t n u
      → n ≤ pos_part limit
  Run-limit key uid limit seconds start t u n run =
      (Run-counter key uid limit seconds start t u n run).0
