-- ===== src/Redis/Client/Recovery.antt =====
-- do of redis_resp.go: when the connection is kept, and the client in step with a server.
use traefik_plugin.Base.{
  Bool, true, false, Option, none, some, List, [], ◌∷◌, Bytes, codes, not, is_empty, ◌≡◌, ◌≢◌, refl,
  arith,
}
use traefik_plugin.Base.Int.{format_int}
use traefik_plugin.Redis.Resp.{nil, Read, value, error_reply, broken, panicked, write_resp_args}
use traefik_plugin.Redis.Client.{
  Network, RespRedis, with_conn, round_trip, sent, finish_command, do_command, once_connected,
  on_conn, is_zero, connect, then_command, if_wanted, handshake, dialled, dial_and_handshake,
  connected,
}

-- A reply leaves a connection behind, and so does a panic, which nothing closes after; any other
-- error but an error reply leaves none; an error reply keeps the connection that was there.
abbrev pub IsLeft : Option Bytes → Read → Option Bytes → Type 0
IsLeft before (value v) after = after ≢ none
IsLeft before (error_reply e) after = before ≢ none → after ≢ none
IsLeft before broken after = after ≡ none
IsLeft before panicked after = after ≢ none

module _ {S : Type 0} (net : Network S) where
  open net use {send, receive, dial}

  abbrev Up : Read × (RespRedis × S) → Type 0
  Up (v, (r, s)) = r.conn ≢ none

  abbrev Left : Option Bytes → Read × (RespRedis × S) → Type 0
  Left before (v, (r, s)) = IsLeft before v r.conn

  sent-Up : (r : RespRedis) (m : Bool × S) → r.conn ≢ none → Up (sent net r m)
  sent-Up r (false, s) h = h
  sent-Up r (true, s) h = ground arith

  finish_command-Left :
      (m : Read × (RespRedis × S)) (before : Option Bytes)
      → Up m
      → Left before (finish_command net m)
  finish_command-Left (value v, (r, s)) before h = h
  finish_command-Left (error_reply e, (r, s)) before h = λ _. h
  finish_command-Left (broken, (r, s)) before h = refl
  finish_command-Left (panicked, (r, s)) before h = h

  round_trip-Up :
      (args : List Bytes) (r : RespRedis) (s : S) → r.conn ≢ none → Up (round_trip net args r s)
  unfolding round_trip
  round_trip-Up args r s h = sent-Up r (send (write_resp_args args) s) h

  then_command-Up :
      (args : List Bytes) (m : Read × (RespRedis × S)) → Up m → Up (then_command net args m)
  then_command-Up args (value v, (r, s)) h = round_trip-Up args r s h
  then_command-Up args (error_reply e, (r, s)) h = h
  then_command-Up args (broken, (r, s)) h = h
  then_command-Up args (panicked, (r, s)) h = h

  if_wanted-Up :
      (wanted : Bool) (args : List Bytes) (m : Read × (RespRedis × S))
      → Up m
      → Up (if_wanted net wanted args m)
  if_wanted-Up false args m h = h
  if_wanted-Up true args m h = then_command-Up args m h

  handshake-Up : (r : RespRedis) (s : S) → Up (handshake net r s)
  unfolding handshake
  handshake-Up r s =
      let start : Read × (RespRedis × S) = (value nil, (with_conn r (some []), s)) in
      let auth = codes "AUTH" ∷ r.pwd ∷ [] in
      let select = codes "SELECT" ∷ format_int r.db ∷ [] in
      let wanted = not (is_empty r.pwd) in
      let selected = not (is_zero r.db) in
      let authed = if_wanted net wanted auth start in
      then_command-Up (codes "PING" ∷ []) (if_wanted net selected select authed)
        (if_wanted-Up selected select authed (if_wanted-Up wanted auth start (cc)))

  -- What connecting leaves when it fails is no connection.
  connected-Left : (m : Read × (RespRedis × S)) → Up m → Left none (connected net m)
  connected-Left (value v, (r, s)) h = h
  connected-Left (error_reply e, (r, s)) h = λ never. absurd (never refl)
  connected-Left (broken, (r, s)) h = refl
  connected-Left (panicked, (r, s)) h = h

  dialled-Left : (r : RespRedis) (m : Bool × S) → Left none (connected net (dialled net r m))
  dialled-Left r (false, s) = refl
  dialled-Left r (true, s) = connected-Left (handshake net r s) (handshake-Up r s)

  connect-Left : (r : RespRedis) (s : S) → r.conn ≡ none → Left none (connect net r s)
  unfolding connect dial_and_handshake
  connect-Left r s h = ground (arith, dialled-Left r (dial r.addr r.use_tls s))

  once_connected-Left :
      (args : List Bytes) (m : Read × (RespRedis × S))
      → Left none m
      → Left none (once_connected net args m)
  once_connected-Left args (value v, (r, s)) h =
      finish_command-Left _ none (round_trip-Up args r s h)
  once_connected-Left args (error_reply e, (r, s)) h = h
  once_connected-Left args (broken, (r, s)) h = h
  once_connected-Left args (panicked, (r, s)) h = h

  on_conn-Left :
      (args : List Bytes) (r : RespRedis) (s : S) (c : Option Bytes)
      → r.conn ≡ c
      → Left c (on_conn net args r s c)
  on_conn-Left args r s none h = once_connected-Left args (connect net r s) (connect-Left r s h)
  on_conn-Left args r s (some bytes) h =
      finish_command-Left (round_trip net args r s) (some bytes) (round_trip-Up args r s (cc))

  -- After a command that is answered there is a connection; after one that fails, with an error that
  -- is no error reply, there is none; an error reply to a command on a connection keeps it. After a
  -- panic of the reader the connection is still there.
  pub do_command-IsLeft :
      (args : List Bytes) (r : RespRedis) (s : S)
      → let (v, (r', s')) = do_command net args r s in IsLeft r.conn v r'.conn
  unfolding do_command
  do_command-IsLeft args r s = on_conn-Left args r s r.conn refl
