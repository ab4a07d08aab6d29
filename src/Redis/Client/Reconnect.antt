-- ===== src/Redis/Client/Reconnect.antt =====
-- connect and do of redis_resp.go when the server is up again.
use traefik_plugin.Base.{
  ℕ, ◌≤◌, Bool, true, false, not, none, some, List, [], ◌∷◌, Bytes, codes, is_empty, if◌then◌else◌,
  ◌≡◌, refl, ap, ◌∙◌, arith,
}
use traefik_plugin.Base.Int.{format_int}
use traefik_plugin.Redis.Resp.{Reply, nil, Read, value}
use traefik_plugin.Redis.Resp.Replies.{
  ServerReply, status, failure, number, bulk, missing, IsPrintable, meaning,
}
use traefik_plugin.Redis.Client.{
  RespRedis, with_conn, then_command, if_wanted, handshake, dial_and_handshake, connect, connected,
  once_connected, on_conn, finish_command, do_command, is_zero,
}
use traefik_plugin.Redis.Client.Served.{
  IsSendable, server, call, round_trip-served, finish_command-meaning,
}

-- Any reply but an error.
abbrev pub IsAnswer : ServerReply → Type 0
IsAnswer (failure s) = ⊥
IsAnswer (status s) = Unit {0}
IsAnswer (number n) = Unit {0}
IsAnswer (bulk s) = Unit {0}
IsAnswer missing = Unit {0}

meaning-IsAnswer : (reply : ServerReply) → IsAnswer reply → (v : Reply) × (meaning reply ≡ value v)
meaning-IsAnswer (status s) h = (_, refl)
meaning-IsAnswer (failure s) h = absurd h
meaning-IsAnswer (number n) h = (_, refl)
meaning-IsAnswer (bulk s) h = (_, refl)
meaning-IsAnswer missing h = (_, refl)

-- The commands of the handshake.
abbrev pub auth_command : RespRedis → List Bytes
auth_command r = codes "AUTH" ∷ r.pwd ∷ []

abbrev pub select_command : RespRedis → List Bytes
select_command r = codes "SELECT" ∷ format_int r.db ∷ []

abbrev pub ping_command : List Bytes
ping_command = codes "PING" ∷ []

module _ {X : Type 0} (clock : X → ℕ) (serve : List Bytes → X → ServerReply × X)
    (r : RespRedis) where
  -- The server after the handshake.
  abbrev pub greeted : X → X
  greeted x =
      let authed = if not (is_empty r.pwd) then (serve (auth_command r) x).1 else x in
      let selected = if not (is_zero r.db) then (serve (select_command r) authed).1 else authed in
      (serve ping_command selected).1

  -- The server prints its replies, and answers this command, which a Go program can hold, without an
  -- error.
  abbrev pub IsAccepted : List Bytes → Type 0
  IsAccepted args =
      IsSendable args × ((x : X) → IsPrintable (serve args x).0 × IsAnswer (serve args x).0)

  -- The handshake has come this far without an error.
  abbrev IsAt : X → Read × (RespRedis × (X × Bytes)) → Type 0
  IsAt x m = (v : Reply) × (m ≡ (value v, (with_conn r (some []), (x, []))))

  then_command-IsAt :
      (args : List Bytes) (x : X) (m : Read × (RespRedis × (X × Bytes)))
      → IsAccepted args
      → IsAt x m
      → IsAt (serve args x).1 (then_command (server clock serve) args m)
  then_command-IsAt args x m (fits, answers) (v, e) =
      let (v', e') = meaning-IsAnswer (serve args x).0 (answers x).1 in
      (
        v',
        ap (then_command (server clock serve) args) e
            ∙ round_trip-served clock serve args r x fits (answers x).0
            ∙ ap (λ a. (a, (with_conn r (some []), ((serve args x).1, [])))) e',
      )

  if_wanted-IsAt :
      (wanted : Bool) (args : List Bytes) (x : X) (m : Read × (RespRedis × (X × Bytes)))
      → (wanted ≡ true → IsAccepted args)
      → IsAt x m
      → IsAt (if wanted then (serve args x).1 else x) (if_wanted (server clock serve) wanted args m)
  if_wanted-IsAt true args x m h at = then_command-IsAt args x m (h refl) at
  if_wanted-IsAt false args x m h at = at

  module _ (auth : not (is_empty r.pwd) ≡ true → IsAccepted (auth_command r))
      (select : not (is_zero r.db) ≡ true → IsAccepted (select_command r))
      (ping : IsAccepted ping_command) where
    handshake-IsAt : (x : X) → IsAt (greeted x) (handshake (server clock serve) r (x, []))
    unfolding handshake
    handshake-IsAt x =
        let start : Read × (RespRedis × (X × Bytes)) =
          (value nil, (with_conn r (some []), (x, []))) in
        let with_auth = not (is_empty r.pwd) in
        let with_select = not (is_zero r.db) in
        let authed = if_wanted (server clock serve) with_auth (auth_command r) start in
        let x' = if with_auth then (serve (auth_command r) x).1 else x in
        then_command-IsAt ping_command (if with_select then (serve (select_command r) x').1 else x')
          (if_wanted (server clock serve) with_select (select_command r) authed) ping
          (if_wanted-IsAt with_select (select_command r) x' authed select
            (if_wanted-IsAt with_auth (auth_command r) x start auth (nil, refl)))

    connected-IsAt :
        (x : X) (m : Read × (RespRedis × (X × Bytes)))
        → IsAt x m
        → IsAt x (connected (server clock serve) m)
    connected-IsAt x m (v, e) = (v, ap (connected (server clock serve)) e)

    connect-IsAt :
        (x : X) (waiting : Bytes)
        → r.retry_at ≤ clock x
        → IsAt (greeted x) (connect (server clock serve) r (x, waiting))
    unfolding connect dial_and_handshake
    connect-IsAt x waiting due = ground (
      arith,
      due,
      connected-IsAt (greeted x) (handshake (server clock serve) r (x, [])) (handshake-IsAt x),
    )

    -- When the backoff is over and the server is up and accepts the handshake, a command without a
    -- connection connects, and is then the call of the server's operation on the state that the
    -- handshake leaves, whatever bytes were still on their way; the connection then has nothing left to
    -- read.
    pub do_command-greeted :
        (args : List Bytes) (x : X) (waiting : Bytes)
        → r.conn ≡ none
        → r.retry_at ≤ clock x
        → IsSendable args
        → IsPrintable (serve args (greeted x)).0
        → do_command (server clock serve) args r (x, waiting)
          ≡ call clock serve args (with_conn r (some [])) (greeted x)
    unfolding do_command
    do_command-greeted args x waiting down due fits prints =
        let (v, e) = connect-IsAt x waiting due in
        ap (on_conn (server clock serve) args r (x, waiting)) down
        ∙ ap (once_connected (server clock serve) args) e
        ∙ ap (finish_command (server clock serve))
            (round_trip-served clock serve args r (greeted x) fits prints)
        ∙ finish_command-meaning clock serve (serve args (greeted x)).0 (with_conn r (some []))
            (serve args (greeted x)).1
