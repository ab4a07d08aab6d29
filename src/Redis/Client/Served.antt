-- ===== src/Redis/Client/Served.antt =====
-- do of redis_resp.go against a server that reads commands as the test server of redis_resp_test.go
-- does, runs them, and prints a reply to each.
use traefik_plugin.Base.{
  ℕ, ◌≤◌, Bool, true, false, Option, none, some, List, [], ◌++◌, append-nil, Bytes, length, All,
  ◌≡◌, refl, sym, ap, ◌∙◌, subst,
}
use traefik_plugin.Base.Decimal.{max_int64}
use traefik_plugin.Redis.Resp.{Read, write_resp_args}
use traefik_plugin.Redis.Resp.Commands.{Fits, read_resp_command-write_resp_args}
use traefik_plugin.Redis.Resp.Replies.{
  ServerReply, status, failure, number, bulk, missing, print_reply, IsPrintable, meaning,
  read_resp_reply-print_reply,
}
use traefik_plugin.Redis.Server.{read_resp_command}
use traefik_plugin.Redis.Client.{
  Network, RespRedis, with_conn, round_trip, sent, received, finish_command, do_command,
}

-- The arguments that a Go program can hold.
abbrev pub IsSendable : List Bytes → Type 0
IsSendable args = (length args ≤ max_int64) × All Fits args

module _ {X : Type 0} (clock : X → ℕ) (serve : List Bytes → X → ServerReply × X) where
  -- The server's reply waits behind those that the client has not received.
  abbrev pub reply_to : Bytes → ServerReply × X → X × Bytes
  reply_to waiting (r, x) = (x, waiting ++ print_reply r [])

  abbrev pub on_command : X × Bytes → Option (List Bytes × Bytes) → Bool × (X × Bytes)
  on_command state none = (false, state)
  on_command (x, waiting) (some (args, rest)) = (true, reply_to waiting (serve args x))

  abbrev pub server : Network (X × Bytes)
  server = record {
    now = λ s. clock s.0;
    dial = λ addr use_tls s. (true, (s.0, []));
    send = λ bytes s. on_command s (read_resp_command bytes);
    receive = λ s. (s.1, (s.0, []));
  }

  -- What the client is promised of a command.
  abbrev pub call : List Bytes → RespRedis → X → Read × (RespRedis × (X × Bytes))
  call args r x = let (reply, x') = serve args x in (meaning reply, (r, (x', [])))

  -- A client whose connection has nothing left to read.
  abbrev pub ready : RespRedis → RespRedis
  ready r = with_conn r (some [])

  received-print_reply :
      (r : RespRedis) (x : X) (reply : ServerReply)
      → IsPrintable reply
      → received server (ready r) (print_reply reply [], (x, []))
        ≡ (meaning reply, (ready r, (x, [])))
  received-print_reply r x reply ok =
      ap (λ m. (m.0, (with_conn r (some (m.1)), (x, [])))) (read_resp_reply-print_reply reply [] ok)

  pub round_trip-served :
      (args : List Bytes) (r : RespRedis) (x : X)
      → IsSendable args
      → IsPrintable (serve args x).0
      → round_trip server args (ready r) (x, []) ≡ call args (ready r) x
  unfolding round_trip
  round_trip-served args r x (few, fits) ok =
      ap (λ m. sent server (ready r) (on_command (x, []) m))
        (ap read_resp_command (sym (append-nil (write_resp_args args)))
          ∙ read_resp_command-write_resp_args args [] few fits)
      ∙ received-print_reply r (serve args x).1 (serve args x).0 ok

  pub finish_command-meaning :
      (reply : ServerReply) (r : RespRedis) (x : X)
      → finish_command server (meaning reply, (r, (x, []))) ≡ (meaning reply, (r, (x, [])))
  finish_command-meaning (status s) r x = refl
  finish_command-meaning (failure s) r x = refl
  finish_command-meaning (number z) r x = refl
  finish_command-meaning (bulk s) r x = refl
  finish_command-meaning missing r x = refl

  -- On a connection with nothing left to read, a command whose arguments a Go program can hold is the
  -- call of the server's operation on exactly these arguments: the client gets what the operation
  -- replied, where that is printable, the server's state is the operation's, and the connection stays
  -- and again has nothing left to read, so that every further command gets its own reply.
  pub do_command-serve :
      (args : List Bytes) (r : RespRedis) (x : X)
      → r.conn ≡ some []
      → IsSendable args
      → IsPrintable (serve args x).0
      → do_command server args r (x, []) ≡ call args r x
  unfolding do_command
  do_command-serve args r x idle fits ok =
      subst (λ r. do_command server args r (x, []) ≡ call args r x) (ap (with_conn r) (sym idle))
        (ap (finish_command server) (round_trip-served args r x fits ok)
          ∙ finish_command-meaning (serve args x).0 (ready r) (serve args x).1)
