-- ===== src/Helpers.antt =====
-- helpers.go: the client's address, the normal form of a host, the key of an anonymous client.
use traefik_plugin.Base.{
  ℕ, Bool, ◌||◌, not, Option, none, some, List, [], ◌∷◌, ◌++◌, Bytes, codes, has_suffix, drop_last,
  trim_space, to_lower, is_empty, any, cut, split, ◌==◌, if◌then◌else◌,
}
use traefik_plugin.Http.{Request, get}

abbrev has_byte : ℕ → Bytes → Bool
has_byte b s = any (λ c. c == b) s

-- The host of "host:port", where the first colon is the only one.
abbrev plain_host : Bytes → Bytes × Option Bytes → Option Bytes
plain_host s (host, none) = none
plain_host s (host, some port) =
    if has_byte b':' port || has_byte b'[' s || has_byte b']' s then none else some host

abbrev after_bracket : Bytes → Bytes → Option Bytes
after_bracket inside [] = none
after_bracket inside (c ∷ port) =
    if not (c == b':')
      || has_byte b':' port
      || has_byte b'[' inside
      || has_byte b'[' port
      || has_byte b']' port
    then none
    else some inside

-- The host of "[host]:port".
abbrev bracketed_host : Bytes × Option Bytes → Option Bytes
bracketed_host (inside, none) = none
bracketed_host (inside, some rest) = after_bracket inside rest

-- net.SplitHostPort, without the port: none where it returns an error.
unfoldable pub split_host_port : Bytes → Option Bytes
split_host_port [] = none
split_host_port (c ∷ s) =
    if c == b'[' then bracketed_host (cut s b']') else plain_host (c ∷ s) (cut (c ∷ s) b':')

-- strings.TrimSuffix(h, ".")
abbrev trim_dot : Bytes → Bytes
trim_dot h = if has_suffix h (codes ".") then drop_last h else h

abbrev pub or_same {ℓ} : {A : Type ℓ} → Option A → A → A
or_same none a = a
or_same (some b) a = b

unfoldable pub normalize_host : Bytes → Bytes
normalize_host host = let h = trim_space host in trim_dot (to_lower (or_same (split_host_port h) h))

-- The first part that is not blank.
unfoldable pub first_part : List Bytes → Option Bytes
first_part [] = none
first_part (part ∷ parts) =
    let rest = first_part parts in
    let ip = trim_space part in if not (is_empty ip) then some ip else rest

-- The address behind X-Forwarded-For, where no part of that header is one.
unfoldable pub direct_ip : Request → Bytes
direct_ip req =
    let rip = trim_space (get req.headers (codes "X-Real-IP")) in
    if not (is_empty rip) then rip else or_same (split_host_port req.remote_addr) req.remote_addr

-- The text "" has no part that is not blank, so the test xff != "" changes nothing here.
unfoldable pub client_ip : Request → Bytes
client_ip req =
    or_same (first_part (split (get req.headers (codes "X-Forwarded-For")) b',')) (direct_ip req)

unfoldable pub anonymous_rate_limit_key : Bytes → Bytes → Bytes → Bytes
anonymous_rate_limit_key device_id session_id ip =
    if not (is_empty device_id)
    then codes "device:" ++ device_id
    else if not (is_empty session_id)
    then codes "session:" ++ session_id
    else if not (is_empty ip)
    then codes "ip:" ++ ip
    else codes "anon:unknown"
