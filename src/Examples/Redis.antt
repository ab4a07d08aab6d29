-- ===== src/Examples/Redis.antt =====
-- The laws of the Redis client at a server that counts its commands, and at one that is down.
use traefik_plugin.Base.{
  if◌then◌else◌, ◌==◌, true, ℕ, suc, ◌+◌, ◌%◌, false, none, some, List, [], ◌∷◌, ◌++◌, Bytes, codes,
  ◌≡◌, refl, arith,
}
use traefik_plugin.Base.Int.{pos}
use traefik_plugin.Redis.Resp.{
  Read, value, integer, broken, panicked, read_resp_reply, write_resp_args,
}
use traefik_plugin.Redis.Resp.Commands.{read_resp_command-write_resp_args}
use traefik_plugin.Redis.Resp.Replies.{
  ServerReply, number, bulk, print_reply, meaning, read_resp_reply-print_reply,
}
use traefik_plugin.Redis.Server.{read_resp_command}
use traefik_plugin.Redis.Client.{Network, RespRedis, connect, do_command, redial_backoff}
use traefik_plugin.Redis.Client.Served.{server, do_command-serve}
use traefik_plugin.Redis.Client.Recovery.{IsLeft, do_command-IsLeft}
use traefik_plugin.Redis.Client.Reconnect.{do_command-greeted}
use traefik_plugin.Redis.Client.Backoff.{do_command-after_failure}

-- An argument with a line break in it, and the start of another command behind the command.
abbrev stored_break : List Bytes
stored_break = codes "SET" ∷ codes "k" ∷ (97 ∷ 13 ∷ 10 ∷ 98 ∷ []) ∷ []

read_resp_command-write_resp_args_example :
    read_resp_command (write_resp_args stored_break ++ codes "*1") ≡ some (stored_break, codes "*1")
read_resp_command-write_resp_args_example =
    read_resp_command-write_resp_args stored_break (codes "*1") (omega arith)
      (omega arith, (omega arith, (omega arith, tt)))

read_resp_reply-print_reply_example :
    read_resp_reply (print_reply (bulk (13 ∷ 10 ∷ [])) (codes ":1"))
    ≡ (meaning (bulk (13 ∷ 10 ∷ [])), codes ":1")
read_resp_reply-print_reply_example =
    read_resp_reply-print_reply (bulk (13 ∷ 10 ∷ [])) (codes ":1") (omega arith)

abbrev counting : List Bytes → ℕ → ServerReply × ℕ
counting args n = (number (pos (suc n)), suc n)

abbrev client : RespRedis
client = record {
  addr = codes "redis:6379";
  use_tls = false;
  pwd = [];
  db = pos 0;
  conn = some [];
  retry_at = 0;
}

abbrev incr_key : List Bytes
incr_key = codes "INCR" ∷ codes "k" ∷ []

do_command-serve_example :
    do_command (server (λ n. n) counting) incr_key client (4, [])
    ≡ (value (integer (pos 5)), (client, (5, [])))
do_command-serve_example =
    do_command-serve (λ n. n) counting incr_key client 4 refl
      (omega arith, (omega arith, (omega arith, tt))) (omega arith)

abbrev down : Network ℕ
down = record {
  now = λ t. t;
  dial = λ addr use_tls t. (false, t);
  send = λ bytes t. (false, t);
  receive = λ t. ([], t);
}

do_command-IsLeft_example :
    let (v, (r, t)) = do_command down incr_key client 7 in IsLeft (some []) v r.conn
do_command-IsLeft_example = do_command-IsLeft down incr_key client 7

abbrev unconnected : RespRedis
unconnected = record client { conn = none }

abbrev waiting : RespRedis
waiting = record unconnected { retry_at = 7 + redial_backoff }

do_command-after_failure_example : do_command down incr_key waiting 9 ≡ (broken, (waiting, 9))
unfolding connect traefik_plugin.Redis.Client.dial_and_handshake
do_command-after_failure_example =
    do_command-after_failure down unconnected 7 broken waiting 7 incr_key 9 (omega arith) refl tt
      (omega arith)

-- A server that answers each command with the number of commands so far, modulo 100.
abbrev numbering : List Bytes → ℕ → ServerReply × ℕ
numbering args n = (number (pos (suc n % 100)), suc n)

abbrev dropped : RespRedis
dropped = record unconnected { pwd = codes "secret"; retry_at = 7 }

do_command-greeted_example :
    do_command (server (λ n. 9) numbering) incr_key dropped (3, codes "+OK")
    ≡ (value (integer (pos 6)), (record dropped { conn = some [] }, (6, [])))
unfolding traefik_plugin.Base.Int.format_int
do_command-greeted_example =
    do_command-greeted (λ n. 9) numbering dropped
      (λ wanted. ((omega arith, (omega arith, (omega arith, tt))), λ x. (omega arith, tt)))
      (λ wanted. ((omega arith, (omega arith, (omega arith, tt))), λ x. (omega arith, tt)))
      ((omega arith, (omega arith, tt)), λ x. (omega arith, tt)) incr_key 3 (codes "+OK") refl
      (omega arith) (omega arith, (omega arith, (omega arith, tt))) (omega arith)

-- A server whose first reply is malformed, with bytes behind it.
abbrev malformed : Network ℕ
malformed = record {
  now = λ t. t;
  dial = λ addr use_tls t. (true, t);
  send = λ bytes t. (true, t);
  receive = λ t.
      (if t == 0 then codes "$-2" ++ (13 ∷ 10 ∷ (codes ":42" ++ (13 ∷ 10 ∷ []))) else [], suc t);
}

abbrev after_malformed : Read × (RespRedis × ℕ)
after_malformed = do_command malformed incr_key client 0

-- The length panics the reader, and the next command reads the bytes behind it as its reply.
malformed_length : after_malformed.0 ≡ panicked
unfolding do_command traefik_plugin.Redis.Client.round_trip read_resp_reply
    traefik_plugin.Redis.Resp.read_bulk traefik_plugin.Redis.Resp.read_line traefik_plugin.Base.cut
    traefik_plugin.Redis.Resp.strip_cr traefik_plugin.Base.Decimal.parse_int
malformed_length = refl

stale_reply :
    (do_command malformed incr_key (after_malformed.1.0) (after_malformed.1.1)).0
    ≡ value (integer (pos 42))
unfolding do_command traefik_plugin.Redis.Client.round_trip read_resp_reply
    traefik_plugin.Redis.Resp.read_bulk traefik_plugin.Redis.Resp.read_line traefik_plugin.Base.cut
    traefik_plugin.Redis.Resp.strip_cr traefik_plugin.Base.Decimal.parse_int
stale_reply = refl
