-- ===== src/Examples/Keys.antt =====
-- The laws of the key cache at a realm that publishes one key, and of the log at two tokens.
use traefik_plugin.Base.{
  ℕ, zero, suc, ◌+◌, ◌*◌, ◌^◌, Bool, true, false, Option, none, some, List, [], ◌∷◌, ◌++◌, Bytes,
  codes, str_eq, if◌then◌else◌, ◌≡◌, ◌⊎◌, inl, inr, refl, sym, subst, str_eq_iff, arith, Bool-cases,
}
use traefik_plugin.Base.Int.{pos}
use traefik_plugin.Http.{Headers, canonical}
use traefik_plugin.Registry.{Fetch, response}
use traefik_plugin.Jwks.{
  JwksKeyJson, JwksDocument, RsaPublicKey, JwksCache, new_jwks_cache, refresh, key_for_kid, go_on,
  read_entry, lookup_key, big_endian,
}
use traefik_plugin.Jwks.Usable.{made, ticking, IsUsable, go_on-IsUsable}
use traefik_plugin.Jwks.Cooldown.{
  attempted, next_keys, final_document, refresh-next_keys, key_for_kid-after_refresh,
}
use traefik_plugin.Logger.{format_request_headers}
use traefik_plugin.Logger.Redaction.{IsSameBut, format_request_headers-IsSameBut}

abbrev fetch : Bytes → ℕ → Fetch × ℕ
fetch url t = (response 200 (codes "{}"), t)

-- A modulus of 1024 bits: 171 characters, the first of which has its highest bit set.
abbrev repeated : ℕ → Bytes → Bytes
repeated zero s = []
repeated (suc n) s = s ++ repeated n s

abbrev published : JwksKeyJson
published = record {
  kid = codes "k1";
  kty = codes "RSA";
  alg = codes "RS256";
  use_of = codes "sig";
  modulus = repeated 171 (codes "x");
  exponent = codes "AQAB";
}

abbrev decode : Bytes → Option JwksDocument
decode body = some (record { keys = published ∷ []; jwks_uri = [] })

abbrev now : ℕ → ℕ
now t = t

abbrev fresh : JwksCache
fresh = new_jwks_cache (codes "https://idp/certs") (pos 30)

abbrev filled : JwksCache × ℕ
filled = (refresh fetch decode now fresh 5).1

abbrev key : RsaPublicKey
key = record { n = big_endian 0 (repeated 42 (199 ∷ 28 ∷ 113 ∷ []) ++ 199 ∷ 28 ∷ []); e = 65537 }

go_on-IsUsable_example : IsUsable key
unfolding lookup_key refresh traefik_plugin.Jwks.fetch_document traefik_plugin.Jwks.parse_keys
    traefik_plugin.Jwks.is_signing_key str_eq traefik_plugin.Jwks.parse_rsa_jwk
    traefik_plugin.Base.Base64.decode_raw_url big_endian
go_on-IsUsable_example =
    go_on-IsUsable fetch decode now (codes "https://idp/certs") (pos 30) fresh 5 filled (codes "k1")
      key (made 5) (ticking fresh 5 (made 5)) refl

refresh-next_keys_example :
    (refresh fetch decode now fresh 5).1.0
    ≡ attempted fetch decode now fresh 5
        (next_keys fetch decode now [] (final_document fetch decode now fresh 5))
refresh-next_keys_example = refresh-next_keys fetch decode now fresh 5

key_for_kid-after_refresh_example :
    key_for_kid fetch decode now (codes "k9") (filled.0, 34)
    ≡ (lookup_key (codes "k9") (filled.0.keys), (filled.0, 34))
key_for_kid-after_refresh_example =
    key_for_kid-after_refresh fetch decode now fresh 5 34 (codes "k9") 30 refl (omega arith)

abbrev with_token : Bytes → Headers
with_token token name = if str_eq name (codes "Authorization") then token ∷ [] else []

with_token-IsSameBut : IsSameBut (with_token (codes "Bearer a")) (with_token (codes "Bearer b"))
unfolding str_eq canonical traefik_plugin.Base.trim_space traefik_plugin.Base.to_lower
    traefik_plugin.Base.has_prefix
with_token-IsSameBut name = elim (Bool-cases (str_eq name (codes "Authorization"))) [
  | inr other ↦ inl (rw other refl)
  | inl same ↦ inr (
    subst (λ n. str_eq (canonical n) (codes "Authorization") ≡ true)
        (sym ((str_eq_iff name (codes "Authorization")).0 same)) refl,
    rw same ((refl, refl), tt),
  )
]

format_request_headers-IsSameBut_example :
    format_request_headers (λ v. v) (codes "Authorization" ∷ []) (with_token (codes "Bearer a"))
    ≡ format_request_headers (λ v. v) (codes "Authorization" ∷ []) (with_token (codes "Bearer b"))
format_request_headers-IsSameBut_example =
    format_request_headers-IsSameBut (λ v. v) (codes "Authorization" ∷ [])
      (with_token (codes "Bearer a")) (with_token (codes "Bearer b")) with_token-IsSameBut

-- The number of fetches, at one instant.
abbrev counting_fetch : Bytes → ℕ → Fetch × ℕ
counting_fetch url n = (response 200 (codes "{}"), suc n)

abbrev one_instant : ℕ → ℕ
one_instant n = 40

abbrev first_then : JwksCache → JwksCache × ℕ → ℕ
first_then read state =
    (go_on counting_fetch decode one_instant (codes "k8") (read_entry (codes "k8") read) state).1.1

abbrev after_first : JwksCache × ℕ
after_first =
    (go_on counting_fetch decode one_instant (codes "k9") (read_entry (codes "k9") fresh)
      (fresh, 0)).1

-- A second request for an unknown key that reads after the first one's refresh fetches nothing, but
-- one that had read before it fetches again, within the cooldown.
one_after_another : first_then (after_first.0) after_first ≡ 1
unfolding lookup_key refresh traefik_plugin.Jwks.fetch_document traefik_plugin.Jwks.parse_keys
    traefik_plugin.Jwks.is_signing_key str_eq traefik_plugin.Jwks.parse_rsa_jwk
    traefik_plugin.Base.Base64.decode_raw_url big_endian
one_after_another = refl

both_at_once : first_then fresh after_first ≡ 2
unfolding lookup_key refresh traefik_plugin.Jwks.fetch_document traefik_plugin.Jwks.parse_keys
    traefik_plugin.Jwks.is_signing_key str_eq traefik_plugin.Jwks.parse_rsa_jwk
    traefik_plugin.Base.Base64.decode_raw_url big_endian
both_at_once = refl
