-- ===== src/Jwks/Usable.antt =====
-- The keys that jwks.go hands out, and the last-good set.
use traefik_plugin.Base.{
  ℕ, ◌≤◌, ◌%◌, Bool, true, Option, none, some, List, [], ◌∷◌, Bytes, str_eq, All, ◌≡◌, ◌≢◌, inl,
  inr, refl, subst, arith, Bool-cases,
}
use traefik_plugin.Base.Base64.{decode_raw_url}
use traefik_plugin.Base.Int.{ℤ, leb_ℤ}
use traefik_plugin.Registry.{Fetch}
use traefik_plugin.Jwks.{
  JwksKeyJson, JwksDocument, RsaPublicKey, JwksCache, new_jwks_cache, min_modulus, big_endian,
  rsa_key, key_of_bytes, parse_rsa_jwk, is_signing_key, keep_parsed, parse_keys, lookup_key,
  swap_in, refreshed, refresh, follow, fetch_document, after_refetch, go_on, read_entry, since,
}

-- At least 1024 bits, and an odd exponent of at least 3.
abbrev pub IsUsable : RsaPublicKey → Type 0
IsUsable key = (min_modulus ≤ key.n) × (3 ≤ key.e) × (key.e % 2 ≡ 1)

abbrev pub IsUsableEntry : Bytes × RsaPublicKey → Type 0
IsUsableEntry (kid, key) = (kid ≢ []) × IsUsable key

abbrev pub AllUsable : JwksCache → Type 0
AllUsable c = All IsUsableEntry c.keys

rsa_key-IsUsable : (n e : ℕ) (key : RsaPublicKey) → rsa_key n e ≡ some key → IsUsable key
rsa_key-IsUsable n e key h = ground arith

key_of_bytes-IsUsable :
    (nb eb : Option Bytes) (key : RsaPublicKey) → key_of_bytes nb eb ≡ some key → IsUsable key
key_of_bytes-IsUsable none eb key h = ground arith
key_of_bytes-IsUsable (some nb) none key h = ground arith
key_of_bytes-IsUsable (some nb) (some eb) key h =
    rsa_key-IsUsable (big_endian 0 nb) (big_endian 0 eb) key (ground arith)

-- A key that parse_rsa_jwk returns is usable.
parse_rsa_jwk-IsUsable :
    (k : JwksKeyJson) (key : RsaPublicKey) → parse_rsa_jwk k ≡ some key → IsUsable key
unfolding parse_rsa_jwk
parse_rsa_jwk-IsUsable k key h =
    key_of_bytes-IsUsable (decode_raw_url k.modulus) (decode_raw_url k.exponent) key (ground arith)

keep_parsed-usable :
    (kid : Bytes) (o : Option RsaPublicKey) (parsed : List (Bytes × RsaPublicKey))
    → kid ≢ []
    → ((key : RsaPublicKey) → o ≡ some key → IsUsable key)
    → All IsUsableEntry parsed
    → All IsUsableEntry (keep_parsed kid o parsed)
keep_parsed-usable kid none parsed named usable h = h
keep_parsed-usable kid (some key) parsed named usable h = ((named, usable key refl), h)

is_signing_key-kid : (k : JwksKeyJson) → is_signing_key k ≡ true → k.kid ≢ []
unfolding is_signing_key
is_signing_key-kid k h = ground arith

parse_keys-usable :
    (ks : List JwksKeyJson) (parsed : List (Bytes × RsaPublicKey))
    → All IsUsableEntry parsed
    → All IsUsableEntry (parse_keys ks parsed)
unfolding parse_keys
parse_keys-usable [] parsed h = h
parse_keys-usable (k ∷ ks) parsed h = elim (Bool-cases (is_signing_key k)) [
  | inl signing ↦ rw signing (
      parse_keys-usable ks _ (
        keep_parsed-usable k.kid (parse_rsa_jwk k) parsed (is_signing_key-kid k signing)
          (parse_rsa_jwk-IsUsable k) h))
  | inr other ↦ rw other (parse_keys-usable ks parsed h)
]

lookup_key-IsUsable :
    (kid : Bytes) (keys : List (Bytes × RsaPublicKey)) (key : RsaPublicKey)
    → All IsUsableEntry keys
    → lookup_key kid keys ≡ some key
    → IsUsable key
unfolding lookup_key
lookup_key-IsUsable kid [] key h found = ground arith
lookup_key-IsUsable kid ((k, key') ∷ keys) key (here, h) found = elim (Bool-cases (str_eq k kid)) [
  | inl e ↦ subst IsUsable (ground (arith, found)) (here.1)
  | inr e ↦ lookup_key-IsUsable kid keys key h (ground (arith, found))
]

module _ {S : Type 0} (fetch : Bytes → S → Fetch × S) (decode : Bytes → Option JwksDocument)
    (now : S → ℕ) where
  -- What becomes of a cache: it is made; a request goes on with what it read of an earlier state; a
  -- refresh runs, or two run at once: one notes its time, and one swaps in the keys of its document,
  -- while the other is under way; time passes.
  pub data IsReached (url : Bytes) (cooldown : ℤ) : JwksCache × S → Type 0 where
    made : (s : S) → IsReached url cooldown (new_jwks_cache url cooldown, s)
    asked :
        (kid : Bytes) (c : JwksCache) (s : S) (state : JwksCache × S)
        → IsReached url cooldown (c, s)
        → IsReached url cooldown state
        → IsReached url cooldown (go_on fetch decode now kid (read_entry kid c) state).1
    ticking :
        (c : JwksCache) (s : S)
        → IsReached url cooldown (c, s)
        → IsReached url cooldown (refresh fetch decode now c s).1
    noted :
        (c : JwksCache) (s : S)
        → IsReached url cooldown (c, s)
        → IsReached url cooldown (record c { last_attempt = some (now s) }, s)
    swapped :
        (doc : JwksDocument) (c : JwksCache) (s : S)
        → IsReached url cooldown (c, s)
        → IsReached url cooldown ((swap_in c (parse_keys doc.keys [])).1, s)
    later :
        (c : JwksCache) (s s' : S) → IsReached url cooldown (c, s) → IsReached url cooldown (c, s')

  swap_in-AllUsable :
      (c : JwksCache) (parsed : List (Bytes × RsaPublicKey))
      → AllUsable c
      → All IsUsableEntry parsed
      → AllUsable (swap_in c parsed).1
  swap_in-AllUsable c [] h ok = h
  swap_in-AllUsable c (key ∷ keys) h ok = ok

  refreshed-AllUsable :
      (c : JwksCache) (m : Option JwksDocument × S)
      → AllUsable c
      → AllUsable ((refreshed fetch decode now c m).1.0)
  refreshed-AllUsable c (none, s) h = h
  refreshed-AllUsable c (some doc, s) h =
      swap_in-AllUsable c (parse_keys doc.keys []) h (parse_keys-usable doc.keys [] tt)

  refresh-AllUsable :
      (c : JwksCache) (s : S) → AllUsable c → AllUsable ((refresh fetch decode now c s).1.0)
  unfolding refresh
  refresh-AllUsable c s h =
      refreshed-AllUsable _ (follow fetch decode now (fetch_document fetch decode now c.url s)) h

  -- A request that goes on with a usable entry, or none, keeps the cache usable and returns a usable
  -- key, if any.
  abbrev IsSafe : Option RsaPublicKey × (JwksCache × S) → Type 0
  IsSafe (o, (c, s)) = AllUsable c × ((key : RsaPublicKey) → o ≡ some key → IsUsable key)

  after_refetch-IsSafe :
      (kid : Bytes) (m : Bool × (JwksCache × S))
      → AllUsable (m.1.0)
      → IsSafe (after_refetch fetch decode now kid m)
  after_refetch-IsSafe kid (ok, (c, s)) h =
      (h, λ key found. lookup_key-IsUsable kid c.keys key h found)

  go_on-IsSafe :
      (kid : Bytes) (o : Option RsaPublicKey) (last : Option ℕ) (state : JwksCache × S)
      → ((key : RsaPublicKey) → o ≡ some key → IsUsable key)
      → AllUsable (state.0)
      → IsSafe (go_on fetch decode now kid (o, last) state)
  go_on-IsSafe kid (some key) last state usable h = (h, usable)
  go_on-IsSafe kid none last (c, s) usable h =
      elim (Bool-cases (leb_ℤ c.refetch_cooldown (since (now s) last))) [
        | inl due ↦
            rw due
              (after_refetch-IsSafe kid (refresh fetch decode now c s) (refresh-AllUsable c s h))
        | inr early ↦ rw early (h, usable)
      ]

  read_entry-IsSafe :
      (kid : Bytes) (c : JwksCache) (state : JwksCache × S)
      → AllUsable c
      → AllUsable (state.0)
      → IsSafe (go_on fetch decode now kid (read_entry kid c) state)
  read_entry-IsSafe kid c state h h' =
      go_on-IsSafe kid (lookup_key kid c.keys) c.last_attempt state
        (λ key. lookup_key-IsUsable kid c.keys key h) h'

  IsReached-AllUsable :
      (url : Bytes) (cooldown : ℤ) (state : JwksCache × S)
      → IsReached url cooldown state
      → AllUsable (state.0)
  IsReached-AllUsable url cooldown _ (made s) = tt
  IsReached-AllUsable url cooldown _ (asked kid c s state r r') =
      (read_entry-IsSafe kid c state (IsReached-AllUsable url cooldown (c, s) r)
        (IsReached-AllUsable url cooldown state r')).0
  IsReached-AllUsable url cooldown _ (ticking c s r) =
      refresh-AllUsable c s (IsReached-AllUsable url cooldown (c, s) r)
  IsReached-AllUsable url cooldown _ (noted c s r) = IsReached-AllUsable url cooldown (c, s) r
  IsReached-AllUsable url cooldown _ (swapped doc c s r) =
      swap_in-AllUsable c (parse_keys doc.keys []) (IsReached-AllUsable url cooldown (c, s) r)
        (parse_keys-usable doc.keys [] tt)
  IsReached-AllUsable url cooldown _ (later c s s' r) = IsReached-AllUsable url cooldown (c, s) r

  -- Whatever the servers answered since the cache was made, and whatever other requests and refreshes
  -- did since a request read its entry, a key that the request is given has a modulus of at least 1024
  -- bits and an odd exponent of at least 3. Where nothing came in between, this is a run of keyForKid.
  pub go_on-IsUsable :
      (url : Bytes) (cooldown : ℤ) (c : JwksCache) (s : S) (state : JwksCache × S) (kid : Bytes)
      (key : RsaPublicKey)
      → IsReached url cooldown (c, s)
      → IsReached url cooldown state
      → (go_on fetch decode now kid (read_entry kid c) state).0 ≡ some key
      → IsUsable key
  go_on-IsUsable url cooldown c s state kid key r r' =
      (read_entry-IsSafe kid c state (IsReached-AllUsable url cooldown (c, s) r)
          (IsReached-AllUsable url cooldown state r')).1
        key
