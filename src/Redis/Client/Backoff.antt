-- ===== src/Redis/Client/Backoff.antt =====
-- connect and do of redis_resp.go after a connection could not be made.
use traefik_plugin.Base.{◌+◌, ◌≤◌, ◌<◌, none, List, Bytes, ◌≡◌, refl, subst, arith}
use traefik_plugin.Redis.Resp.{Read, value, error_reply, broken, panicked}
use traefik_plugin.Redis.Client.{
  Network, RespRedis, redial_backoff, connect, connected, dial_and_handshake, do_command,
}

-- The two ways in which connecting fails.
abbrev pub IsFailure : Read → Type 0
IsFailure (value v) = ⊥
IsFailure (error_reply e) = Unit {0}
IsFailure broken = Unit {0}
IsFailure panicked = ⊥

module _ {S : Type 0} (net : Network S) where
  open net use {now}

  -- What a failed attempt leaves behind.
  abbrev PutsOff : Read × (RespRedis × S) → Type 0
  PutsOff (v, (r, s)) = IsFailure v → (r.conn ≡ none) × (r.retry_at ≡ now s + redial_backoff)

  connected-PutsOff : (m : Read × (RespRedis × S)) → PutsOff (connected net m)
  connected-PutsOff (value v, (r, s)) = λ h. elim h [ ]
  connected-PutsOff (error_reply e, (r, s)) = λ h. (refl, refl)
  connected-PutsOff (broken, (r, s)) = λ h. (refl, refl)
  connected-PutsOff (panicked, (r, s)) = λ h. elim h [ ]

  connect-PutsOff : (r : RespRedis) (s : S) → r.retry_at ≤ now s → PutsOff (connect net r s)
  unfolding connect
  connect-PutsOff r s h = ground (arith, connected-PutsOff (dial_and_handshake net r s))

  do_command-waiting :
      (args : List Bytes) (r : RespRedis) (s : S)
      → r.conn ≡ none
      → now s < r.retry_at
      → do_command net args r s ≡ (broken, (r, s))
  unfolding do_command connect
  do_command-waiting args r s down early = rw (down) (ground arith)

  -- When an attempt to connect that was made at its time fails, with an error or with an error
  -- reply, then for two seconds from that failure on every command fails at once: it neither dials nor
  -- writes, and changes neither the client nor the network.
  pub do_command-after_failure :
      (r : RespRedis) (s : S) (v : Read) (r' : RespRedis) (s' : S) (args : List Bytes) (later : S)
      → r.retry_at ≤ now s
      → connect net r s ≡ (v, (r', s'))
      → IsFailure v
      → now later < now s' + redial_backoff
      → do_command net args r' later ≡ (broken, (r', later))
  do_command-after_failure r s v r' s' args later due h failure early =
      let put_off = subst PutsOff h (connect-PutsOff r s due) failure in
      do_command-waiting args r' later (put_off.0) (omega (arith, early, put_off.1))
