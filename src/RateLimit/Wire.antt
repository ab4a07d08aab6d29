-- ===== src/RateLimit/Wire.antt =====
-- RateLimiter.Check of ratelimit.go through the client of redis_resp.go, against a server that reads
-- the bytes of its commands and prints its replies.
use traefik_plugin.Base.{
  ℕ, not, List, [], ◌∷◌, some, Bytes, codes, if◌then◌else◌, ◌≡◌, refl, inl, inr, ap, ◌∙◌,
  Bool-cases,
}
use traefik_plugin.Base.Int.{ℤ, is_positive, format_int, ◌+ℤ◌}
use traefik_plugin.Plugin.{RateLimitResult}
use traefik_plugin.Redis.Client.{RespRedis}
use traefik_plugin.Redis.Client.Served.{IsSendable, server, do_command-serve}
use traefik_plugin.Redis.Operations.{
  Answer, answered, failed, incr, expire, answered_by, as_integer, as_done,
}
use traefik_plugin.Redis.Resp.Replies.{
  ServerReply, status, failure, number, bulk, missing, IsPrintable, meaning,
}
use traefik_plugin.Redis.Resp.{Read}
use traefik_plugin.RateLimit.{
  RateLimiter, redis_counters, window_of, window_start, window_key, ttl_seconds, result_of,
  limited_to_zero, is_one, check, counted, expired,
}

abbrev pub incr_command : Bytes → List Bytes
incr_command key = codes "INCR" ∷ key ∷ []

abbrev pub expire_command : Bytes → ℤ → List Bytes
expire_command key seconds = codes "EXPIRE" ∷ key ∷ format_int seconds ∷ []

module _ {X : Type 0} (clock : X → ℕ) (serve : List Bytes → X → ServerReply × X) where
  abbrev pub after_expire : RateLimitResult → ServerReply × X → Answer RateLimitResult × X
  after_expire result (number n, x) = (answered result, x)
  after_expire result (status s, x) = (failed, x)
  after_expire result (failure s, x) = (failed, x)
  after_expire result (bulk s, x) = (failed, x)
  after_expire result (missing, x) = (failed, x)

  abbrev pub after_incr :
      Bytes → ℤ → (ℤ → RateLimitResult) → ServerReply × X → Answer RateLimitResult × X
  after_incr key ttl result (number n, x) =
      if is_one n
      then after_expire (result n) (serve (expire_command key ttl) x)
      else (answered (result n), x)
  after_incr key ttl result (status s, x) = (failed, x)
  after_incr key ttl result (failure s, x) = (failed, x)
  after_incr key ttl result (bulk s, x) = (failed, x)
  after_incr key ttl result (missing, x) = (failed, x)

  -- A check as calls of the server's operations, without a wire between them.
  abbrev pub direct_check :
      Bytes → (key uid : Bytes) → (limit seconds : ℤ) → X → Answer RateLimitResult × X
  direct_check prefix key uid limit seconds x =
      if not (is_positive limit)
      then (answered limited_to_zero, x)
      else (let window = window_of seconds in
          let start = window_start (clock x) window in
          let redis_key = window_key prefix key uid start in
          after_incr redis_key (ttl_seconds window) (result_of limit (start +ℤ window))
            (serve (incr_command redis_key) x))

  -- The state of a client that has nothing left to read.
  abbrev pub idle {ℓ} : {A : Type ℓ} → RespRedis → A × X → A × (RespRedis × (X × Bytes))
  idle r (a, x) = (a, (r, (x, [])))

  -- The limiter over the client.
  abbrev pub limiter_over : Bytes → RateLimiter (RespRedis × (X × Bytes))
  limiter_over prefix = record { client = redis_counters (server clock serve); prefix = prefix }

  -- What the client returns of a reply.
  abbrev replied : RespRedis → ServerReply × X → Read × (RespRedis × (X × Bytes))
  replied r (reply, x) = (meaning reply, (r, (x, [])))

  module _ (r : RespRedis) (prefix : Bytes) where
    expired-replied :
        (result : RateLimitResult) (m : ServerReply × X)
        → expired
            (limiter_over prefix)
            result
            (answered_by (server clock serve) as_done (replied r m))
          ≡ idle r (after_expire result m)
    expired-replied result (status s, x) = refl
    expired-replied result (failure s, x) = refl
    expired-replied result (number n, x) = refl
    expired-replied result (bulk s, x) = refl
    expired-replied result (missing, x) = refl

    module _ (up : r.conn ≡ some [])
        (prints : (args : List Bytes) (x : X) → IsPrintable (serve args x).0) where
      expire-served :
          (key : Bytes) (ttl : ℤ) (x : X)
          → IsSendable (expire_command key ttl)
          → expire (server clock serve) key ttl (r, (x, []))
            ≡ answered_by
                (server clock serve)
                as_done
                (replied r (serve (expire_command key ttl) x))
      unfolding expire
      expire-served key ttl x fits = ap (answered_by (server clock serve) as_done) (
          do_command-serve clock serve (expire_command key ttl) r x up fits
            (prints (expire_command key ttl) x))

      incr-served :
          (key : Bytes) (x : X)
          → IsSendable (incr_command key)
          → incr (server clock serve) key (r, (x, []))
            ≡ answered_by (server clock serve) as_integer (replied r (serve (incr_command key) x))
      unfolding incr
      incr-served key x fits = ap (answered_by (server clock serve) as_integer) (
          do_command-serve clock serve (incr_command key) r x up fits (prints (incr_command key) x))

      counted-replied :
          (key : Bytes) (ttl : ℤ) (result : ℤ → RateLimitResult) (m : ServerReply × X)
          → IsSendable (expire_command key ttl)
          → counted
              (limiter_over prefix)
              key
              ttl
              result
              (answered_by (server clock serve) as_integer (replied r m))
            ≡ idle r (after_incr key ttl result m)
      counted-replied key ttl result (status s, x) fits = refl
      counted-replied key ttl result (failure s, x) fits = refl
      counted-replied key ttl result (bulk s, x) fits = refl
      counted-replied key ttl result (missing, x) fits = refl
      counted-replied key ttl result (number n, x) fits = elim (Bool-cases (is_one n)) [
        | inl first ↦ rw first (
            ap (expired (limiter_over prefix) (result n)) (expire-served key ttl x fits)
            ∙ expired-replied (result n) (serve (expire_command key ttl) x))
        | inr further ↦ rw further refl
      ]

      -- A check through the client, on a connection with nothing left to read, gives what the calls of
      -- the server's own operations give without a wire between them: the same decision, or the same
      -- failure, the same state of the server, and a connection with nothing left to read. The server
      -- prints its replies, and a Go program can hold the two commands.
      pub check-direct_check :
          (key uid : Bytes) (limit seconds : ℤ) (x : X)
          → let window = window_of seconds in
            let redis_key = window_key prefix key uid (window_start (clock x) window) in
            IsSendable (incr_command redis_key)
            → IsSendable (expire_command redis_key (ttl_seconds window))
            → check (limiter_over prefix) key uid limit seconds (r, (x, []))
              ≡ idle r (direct_check prefix key uid limit seconds x)
      unfolding check
      check-direct_check key uid limit seconds x fits fits' =
          elim (Bool-cases (not (is_positive limit))) [
            | inl zero_limit ↦ rw zero_limit refl
            | inr positive ↦
                let window = window_of seconds in
                let redis_key = window_key prefix key uid (window_start (clock x) window) in
                let result = result_of limit (window_start (clock x) window +ℤ window) in
                rw positive (
                  ap (counted (limiter_over prefix) redis_key (ttl_seconds window) result)
                    (incr-served redis_key x fits)
                  ∙ counted-replied redis_key (ttl_seconds window) result
                      (serve (incr_command redis_key) x) fits')
          ]
