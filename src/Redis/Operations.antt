-- ===== src/Redis/Operations.antt =====
-- redis_resp.go: the URL of a server, and the commands that the plugin sends.
use traefik_plugin.Base.{
  Bool, false, ◌||◌, not, Option, none, some, [], ◌∷◌, ◌++◌, Bytes, codes, str_eq, has_prefix,
  is_empty, any, ◌==◌, if◌then◌else◌,
}
use traefik_plugin.Base.Int.{ℤ, format_int}
use traefik_plugin.Redis.Resp.{
  Reply, nil, text, integer, Read, value, error_reply, broken, panicked,
}
use traefik_plugin.Redis.Client.{Network, RespRedis, connect, do_command}

-- What is asked of a url.URL; the password is none where there is no user information or no password.
pub record Url : Type 0 where
  pub scheme : Bytes
  pub hostname : Bytes
  pub port : Bytes
  pub password : Option Bytes

-- strings.Contains
unfoldable pub contains_text : Bytes → Bytes → Bool
contains_text [] sub = is_empty sub
contains_text (c ∷ s) sub = has_prefix (c ∷ s) sub || contains_text s sub

-- net.JoinHostPort
abbrev pub join_host_port : Bytes → Bytes → Bytes
join_host_port host port =
    if any (λ c. c == b':') host
    then b'[' ∷ (host ++ (codes "]:" ++ port))
    else host ++ (b':' ∷ port)

abbrev or_default : Bytes → Bytes → Bytes
or_default s fallback = if is_empty s then fallback else s

abbrev or_password : Bytes → Option Bytes → Bytes
or_password pwd none = pwd
or_password pwd (some p) = or_default pwd p

-- The address, whether TLS is used, and the password; none is an error.
abbrev pub address_of : Bytes → Url → Option (Bytes × (Bool × Bytes))
address_of pwd u =
    if str_eq u.scheme (codes "redis") || str_eq u.scheme (codes "rediss")
    then (if is_empty u.hostname
        then none
        else some (
          join_host_port u.hostname (or_default u.port (codes "6379")),
          (str_eq u.scheme (codes "rediss"), or_password pwd u.password),
        ))
    else none

-- parse_url is url.Parse, none where it returns an error.
unfoldable pub parse_redis_url :
    (Bytes → Option Url) → Bytes → Bytes → Option (Bytes × (Bool × Bytes))
parse_redis_url parse_url redis_url password =
    if is_empty redis_url
    then none
    else if not (contains_text redis_url (codes "://"))
    then some (redis_url, (false, password))
    else elim (parse_url redis_url) [ none ↦ none | some u ↦ address_of password u ]

-- The result of a command: an answer, an error, or a panic.
pub data Answer {ℓ} (A : Type ℓ) : Type ℓ where
  answered : A → Answer A
  failed : Answer A
  crashed : Answer A

abbrev pub answer_of {ℓ} : {A : Type ℓ} → (Reply → Answer A) → Read → Answer A
answer_of f (value v) = f v
answer_of f (error_reply e) = failed
answer_of f broken = failed
answer_of f panicked = crashed

abbrev pub as_integer : Reply → Answer ℤ
as_integer (integer n) = answered n
as_integer _ = failed

abbrev pub as_done : Reply → Answer {0} (Unit {0})
as_done (integer n) = answered tt
as_done _ = failed

-- A missing key is none.
abbrev pub as_text : Reply → Answer (Option Bytes)
as_text nil = answered none
as_text (text s) = answered (some s)
as_text (integer n) = failed

abbrev pub as_ok : Reply → Answer {0} (Unit {0})
as_ok (text s) = if str_eq s (codes "OK") then answered tt else failed
as_ok _ = failed

module _ {S : Type 0} (net : Network S) where
  abbrev new_client : Bytes × (Bool × Bytes) → ℤ → RespRedis
  new_client (addr, (use_tls, pwd)) db = record {
    addr = addr;
    use_tls = use_tls;
    pwd = pwd;
    db = db;
    conn = none;
    retry_at = 0;
  }

  -- The state of the client and of the network after the first attempt, which may panic.
  abbrev started : Read × (RespRedis × S) → Answer (RespRedis × S)
  started (panicked, state) = crashed
  started (v, state) = answered state

  unfoldable pub dial_redis : (Bytes → Option Url) → Bytes → Bytes → ℤ → S → Answer (RespRedis × S)
  dial_redis parse_url redis_url password db s =
      elim (parse_redis_url parse_url redis_url password) [
        | none ↦ failed
        | some parts ↦ started (connect net (new_client parts db) s)
      ]

  abbrev pub answered_by {ℓ} :
      {A : Type ℓ} → (Reply → Answer A) → Read × (RespRedis × S) → Answer A × (RespRedis × S)
  answered_by f (v, state) = (answer_of f v, state)

  unfoldable pub incr : Bytes → RespRedis × S → Answer ℤ × (RespRedis × S)
  incr key (r, s) = answered_by as_integer (do_command net (codes "INCR" ∷ key ∷ []) r s)

  unfoldable pub expire : Bytes → ℤ → RespRedis × S → Answer {0} (Unit {0}) × (RespRedis × S)
  expire key seconds (r, s) =
      answered_by as_done (do_command net (codes "EXPIRE" ∷ key ∷ format_int seconds ∷ []) r s)

  unfoldable pub get_key : Bytes → RespRedis × S → Answer (Option Bytes) × (RespRedis × S)
  get_key key (r, s) = answered_by as_text (do_command net (codes "GET" ∷ key ∷ []) r s)

  unfoldable pub set_ex :
      Bytes → Bytes → ℤ → RespRedis × S → Answer {0} (Unit {0}) × (RespRedis × S)
  set_ex key stored seconds (r, s) =
      answered_by as_ok
        (do_command net (codes "SET" ∷ key ∷ stored ∷ codes "EX" ∷ format_int seconds ∷ []) r s)

-- Close
unfoldable pub close : RespRedis → RespRedis
close r = record r { conn = none }
