-- ===== src/Redis/Client.antt =====
-- redis_resp.go: the reconnecting client. The network is a state S with the operations that the
-- client asks of it; an outcome of the clock is read from S as well. Log lines are not modelled.
pub mod Backoff
pub mod Recovery
pub mod Served
pub mod Reconnect
use traefik_plugin.Base.{
  ℕ, ◌+◌, ◌*◌, ◌^◌, Bool, true, false, not, Option, none, some, List, [], ◌∷◌, ◌++◌, Bytes, codes,
  str_eq, is_empty, ltb, ◌==◌, if◌then◌else◌,
}
use traefik_plugin.Base.Int.{ℤ, pos, negsuc, format_int}
use traefik_plugin.Redis.Resp.{
  Reply, nil, text, integer, Read, value, error_reply, broken, panicked, write_resp_args,
  read_resp_reply,
}

-- Dialling, with the TLS handshake where the client asks for it; sending a command, false where the
-- write or the flush fails; and the bytes that arrive until the deadline.
pub record Network (S : Type 0) : Type 0 where
  pub now : S → ℕ
  pub dial : Bytes → Bool → S → Bool × S
  pub send : Bytes → S → Bool × S
  pub receive : S → Bytes × S

-- conn holds what a connection's reader has received and not yet read; retry_at is 0 for the zero time.
pub record RespRedis : Type 0 where
  pub addr : Bytes
  pub use_tls : Bool
  pub pwd : Bytes
  pub db : ℤ
  pub conn : Option Bytes
  pub retry_at : ℕ

abbrev pub redial_backoff : ℕ
redial_backoff = 2 * 10 ^ 9

abbrev pub with_conn : RespRedis → Option Bytes → RespRedis
with_conn r c = record r { conn = c }

-- What is left in the reader; a connection that is not there has received nothing.
abbrev pub pending : RespRedis → Bytes
pending r = elim r.conn [ none ↦ [] | some bytes ↦ bytes ]

abbrev pub is_zero : ℤ → Bool
is_zero (pos n) = n == 0
is_zero (negsuc n) = false

-- The reply that was read, and the reader after it.
abbrev pub kept : RespRedis → Read × Bytes → Read × RespRedis
kept r (v, rest) = (v, with_conn r (some rest))

-- Any error but an error reply.
abbrev pub is_fatal : Read → Bool
is_fatal broken = true
is_fatal _ = false

module _ {S : Type 0} (net : Network S) where
  open net use {now, dial, send, receive}

  abbrev pub received : RespRedis → Bytes × S → Read × (RespRedis × S)
  received r (bytes, s) =
      let (v, r') = kept r (read_resp_reply (pending r ++ bytes)) in (v, (r', s))

  abbrev pub sent : RespRedis → Bool × S → Read × (RespRedis × S)
  sent r (false, s) = (broken, (r, s))
  sent r (true, s) = received r (receive s)

  unfoldable pub round_trip : List Bytes → RespRedis → S → Read × (RespRedis × S)
  round_trip args r s = sent r (send (write_resp_args args) s)

  -- One command of the handshake: it goes on after a reply, and stops at any error.
  abbrev pub then_command : List Bytes → Read × (RespRedis × S) → Read × (RespRedis × S)
  then_command args (value v, (r, s)) = round_trip args r s
  then_command args (other, (r, s)) = (other, (r, s))

  abbrev pub if_wanted : Bool → List Bytes → Read × (RespRedis × S) → Read × (RespRedis × S)
  if_wanted wanted args state = if wanted then then_command args state else state

  -- AUTH, SELECT and PING on a new connection.
  unfoldable pub handshake : RespRedis → S → Read × (RespRedis × S)
  handshake r s =
      let start : Read × (RespRedis × S) = (value nil, (with_conn r (some []), s)) in
      let authed = if_wanted (not (is_empty r.pwd)) (codes "AUTH" ∷ r.pwd ∷ []) start in
      let selected =
        if_wanted (not (is_zero r.db)) (codes "SELECT" ∷ format_int r.db ∷ []) authed in
      then_command (codes "PING" ∷ []) selected

  abbrev pub dialled : RespRedis → Bool × S → Read × (RespRedis × S)
  dialled r (false, s) = (broken, (r, s))
  dialled r (true, s) = handshake r s

  unfoldable pub dial_and_handshake : RespRedis → S → Read × (RespRedis × S)
  dial_and_handshake r s = dialled r (dial r.addr r.use_tls s)

  -- A failed attempt drops the connection and puts the next one off. A value is success.
  abbrev pub connected : Read × (RespRedis × S) → Read × (RespRedis × S)
  connected (value v, state) = (value v, state)
  connected (panicked, state) = (panicked, state)
  connected (other, (r, s)) =
      (other, (record r { conn = none; retry_at = now s + redial_backoff }, s))

  unfoldable pub connect : RespRedis → S → Read × (RespRedis × S)
  connect r s =
      if ltb (now s) r.retry_at then (broken, (r, s)) else connected (dial_and_handshake r s)

  -- Only an error that is no error reply drops the connection.
  abbrev pub finish_command : Read × (RespRedis × S) → Read × (RespRedis × S)
  finish_command (v, (r, s)) = if is_fatal v then (v, (with_conn r none, s)) else (v, (r, s))

  abbrev pub once_connected : List Bytes → Read × (RespRedis × S) → Read × (RespRedis × S)
  once_connected args (value v, (r, s)) = finish_command (round_trip args r s)
  once_connected args (other, state) = (other, state)

  -- The command with the connection that there is, or after a connection is made.
  abbrev pub on_conn : List Bytes → RespRedis → S → Option Bytes → Read × (RespRedis × S)
  on_conn args r s none = once_connected args (connect r s)
  on_conn args r s (some bytes) = finish_command (round_trip args r s)

  unfoldable pub do_command : List Bytes → RespRedis → S → Read × (RespRedis × S)
  do_command args r s = on_conn args r s r.conn
