-- ===== src/Jwks.antt =====
-- jwks.go: the keys of a realm, by their key ids. The HTTP client and the clock are operations on a
-- state S, and the JSON decoder is a parameter. A big.Int is a number. Times are nanoseconds since
-- 1970; a duration is a number of nanoseconds. Log lines are not modelled.
pub mod Usable
pub mod Cooldown
use traefik_plugin.Base.{
  ℕ, zero, suc, ◌+◌, ◌*◌, ◌%◌, ◌^◌, Bool, true, false, not, ◌&&◌, ◌||◌, Option, none, some, List,
  [], ◌∷◌, Bytes, codes, str_eq, is_empty, length, ltb, leb, ◌==◌, if◌then◌else◌,
}
use traefik_plugin.Base.Base64.{decode_raw_url}
use traefik_plugin.Base.Decimal.{max_int64}
use traefik_plugin.Base.Int.{ℤ, pos, sub_ℕ, is_positive, leb_ℤ}
use traefik_plugin.Registry.{Fetch, no_response, response}

pub record JwksKeyJson : Type 0 where
  pub kid : Bytes
  pub kty : Bytes
  pub alg : Bytes
  pub use_of : Bytes
  pub modulus : Bytes
  pub exponent : Bytes

pub record JwksDocument : Type 0 where
  pub keys : List JwksKeyJson
  pub jwks_uri : Bytes

pub record RsaPublicKey : Type 0 where
  pub n : ℕ
  pub e : ℕ

-- The map of keys is a list with the latest entry first; last_attempt is none for the zero time.
pub record JwksCache : Type 0 where
  pub url : Bytes
  pub refetch_cooldown : ℤ
  pub keys : List (Bytes × RsaPublicKey)
  pub last_attempt : Option ℕ

abbrev pub max_jwks_body : ℕ
max_jwks_body = 2 ^ 20

abbrev pub new_jwks_cache : Bytes → ℤ → JwksCache
new_jwks_cache url cooldown = record {
  url = url;
  refetch_cooldown = cooldown;
  keys = [];
  last_attempt = none;
}

-- The number that bytes spell, the most significant one first.
unfoldable pub big_endian : ℕ → Bytes → ℕ
big_endian n [] = n
big_endian n (b ∷ bytes) = big_endian (n * 256 + b) bytes

abbrev pub min_modulus : ℕ
min_modulus = 2 ^ 1023

-- At least three and odd.
abbrev pub is_exponent : ℕ → Bool
is_exponent e = not (ltb e 3) && not (e % 2 == 0)

abbrev pub rsa_key : ℕ → ℕ → Option RsaPublicKey
rsa_key n e =
    if not (is_exponent e) || ltb n min_modulus then none else some (record { n = n; e = e })

abbrev pub key_of_bytes : Option Bytes → Option Bytes → Option RsaPublicKey
key_of_bytes none eb = none
key_of_bytes (some nb) none = none
key_of_bytes (some nb) (some eb) =
    if is_empty eb || ltb 4 (length eb) then none else rsa_key (big_endian 0 nb) (big_endian 0 eb)

-- parseRSAJWK, none where it returns an error.
unfoldable pub parse_rsa_jwk : JwksKeyJson → Option RsaPublicKey
parse_rsa_jwk k =
    if is_empty k.modulus || is_empty k.exponent
    then none
    else key_of_bytes (decode_raw_url k.modulus) (decode_raw_url k.exponent)

abbrev pub is_or_empty : Bytes → Bytes → Bool
is_or_empty s expected = is_empty s || str_eq s expected

-- The keys that refresh looks at.
unfoldable pub is_signing_key : JwksKeyJson → Bool
is_signing_key k =
    not (is_empty k.kid)
    && (str_eq k.kty (codes "RSA")
        && (is_or_empty k.use_of (codes "sig") && is_or_empty k.alg (codes "RS256")))

abbrev pub keep_parsed :
    Bytes → Option RsaPublicKey → List (Bytes × RsaPublicKey) → List (Bytes × RsaPublicKey)
keep_parsed kid none parsed = parsed
keep_parsed kid (some key) parsed = (kid, key) ∷ parsed

unfoldable pub parse_keys :
    List JwksKeyJson → List (Bytes × RsaPublicKey) → List (Bytes × RsaPublicKey)
parse_keys [] parsed = parsed
parse_keys (k ∷ ks) parsed =
    parse_keys ks (if is_signing_key k then keep_parsed k.kid (parse_rsa_jwk k) parsed else parsed)

unfoldable pub lookup_key : Bytes → List (Bytes × RsaPublicKey) → Option RsaPublicKey
lookup_key kid [] = none
lookup_key kid ((k, key) ∷ keys) =
    let rest = lookup_key kid keys in if str_eq k kid then some key else rest

-- io.LimitReader
unfoldable pub limit_reader : ℕ → Bytes → Bytes
limit_reader zero s = []
limit_reader (suc n) [] = []
limit_reader (suc n) (c ∷ s) = c ∷ limit_reader n s

abbrev pub with_keys : JwksCache → List (Bytes × RsaPublicKey) → JwksCache
with_keys c keys = record c { keys = keys }

-- A key set that is not empty replaces the keys.
abbrev pub swap_in : JwksCache → List (Bytes × RsaPublicKey) → Bool × JwksCache
swap_in c [] = (false, c)
swap_in c (key ∷ keys) = (true, with_keys c (key ∷ keys))

-- time.Since, which is the longest duration for the zero time.
abbrev pub since : ℕ → Option ℕ → ℤ
since now none = pos max_int64
since now (some t) = sub_ℕ now t

abbrev pub ten_minutes : ℕ
ten_minutes = 600 * 10 ^ 9

-- The interval of loop.
unfoldable pub loop_interval : ℤ → ℤ
loop_interval interval = if is_positive interval then interval else pos ten_minutes

-- What loop waits for.
pub data LoopEvent : Type 0 where
  stopped : LoopEvent
  ticked : LoopEvent

-- What keyForKid reads under the lock.
abbrev pub read_entry : Bytes → JwksCache → Option RsaPublicKey × Option ℕ
read_entry kid c = (lookup_key kid c.keys, c.last_attempt)

module _ {S : Type 0} (fetch : Bytes → S → Fetch × S) (decode : Bytes → Option JwksDocument)
    (now : S → ℕ) where
  abbrev pub document_of : Fetch → Option JwksDocument
  document_of no_response = none
  document_of (response status body) =
      if status == 200 then decode (limit_reader max_jwks_body body) else none

  -- fetchDocument, none where it returns an error.
  unfoldable pub fetch_document : Bytes → S → Option JwksDocument × S
  fetch_document url s = let (f, s') = fetch url s in (document_of f, s')

  -- A discovery document leads to the document of its jwks_uri.
  abbrev pub follow : Option JwksDocument × S → Option JwksDocument × S
  follow (none, s) = (none, s)
  follow (some doc, s) =
      if is_empty doc.keys && not (is_empty doc.jwks_uri)
      then fetch_document doc.jwks_uri s
      else (some doc, s)

  abbrev pub refreshed : JwksCache → Option JwksDocument × S → Bool × (JwksCache × S)
  refreshed c (none, s) = (false, (c, s))
  refreshed c (some doc, s) = let (ok, c') = swap_in c (parse_keys doc.keys []) in (ok, (c', s))

  -- refresh, with false where it returns an error.
  unfoldable pub refresh : JwksCache → S → Bool × (JwksCache × S)
  refresh c s =
      refreshed (record c { last_attempt = some (now s) }) (follow (fetch_document c.url s))

  abbrev pub after_refetch : Bytes → Bool × (JwksCache × S) → Option RsaPublicKey × (JwksCache × S)
  after_refetch kid (ok, (c, s)) = (lookup_key kid c.keys, (c, s))

  -- keyForKid from its first unlock on, given what it read under the lock: what other requests do in
  -- between shows in the cache, but not in what was read.
  abbrev pub go_on :
      Bytes → Option RsaPublicKey × Option ℕ → JwksCache × S → Option RsaPublicKey × (JwksCache × S)
  go_on kid (some key, last) state = (some key, state)
  go_on kid (none, last) (c, s) =
      if leb_ℤ c.refetch_cooldown (since (now s) last)
      then after_refetch kid (refresh c s)
      else (none, (c, s))

  -- keyForKid, undisturbed.
  unfoldable pub key_for_kid : Bytes → JwksCache × S → Option RsaPublicKey × (JwksCache × S)
  key_for_kid kid (c, s) = go_on kid (read_entry kid c) (c, s)

  -- loop, by what it receives.
  unfoldable pub loop : List LoopEvent → JwksCache × S → JwksCache × S
  loop [] state = state
  loop (stopped ∷ events) state = state
  loop (ticked ∷ events) (c, s) = let (ok, state) = refresh c s in loop events state
