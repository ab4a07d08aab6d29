-- ===== src/Jwks/Cooldown.antt =====
-- jwks.go: the keys that stay when a fetch fails, and the time between fetches for unknown keys.
use traefik_plugin.Base.{
  ℕ, ◌<◌, ◌+◌, false, Option, none, some, List, [], ◌∷◌, Bytes, ◌≡◌, inl, inr, refl, sym, subst,
  arith, Option-cases,
}
use traefik_plugin.Base.Int.{pos, leb_ℤ}
use traefik_plugin.Registry.{Fetch}
use traefik_plugin.Jwks.{
  JwksDocument, RsaPublicKey, JwksCache, parse_keys, lookup_key, swap_in, refreshed, refresh,
  follow, fetch_document, key_for_kid, since,
}

module _ {S : Type 0} (fetch : Bytes → S → Fetch × S) (decode : Bytes → Option JwksDocument)
    (now : S → ℕ) where
  -- The document that a refresh ends with.
  abbrev pub final_document : JwksCache → S → Option JwksDocument
  final_document c s = (follow fetch decode now (fetch_document fetch decode now c.url s)).0

  -- The keys after a refresh: the usable ones of the document, or the ones before where there is no
  -- document or none of its keys is usable.
  abbrev pub next_keys :
      List (Bytes × RsaPublicKey) → Option JwksDocument → List (Bytes × RsaPublicKey)
  next_keys keys none = keys
  next_keys keys (some doc) = elim (parse_keys doc.keys []) [ [] ↦ keys | key ∷ more ↦ key ∷ more ]

  -- The cache with these keys, and a fetch attempted at t.
  abbrev pub attempted : JwksCache → ℕ → List (Bytes × RsaPublicKey) → JwksCache
  attempted c t keys = record c { keys = keys; last_attempt = some t }

  swap_in_lem :
      (c : JwksCache) (t : ℕ) (parsed : List (Bytes × RsaPublicKey))
      → (swap_in (attempted c t c.keys) parsed).1
        ≡ attempted c t (elim parsed [ [] ↦ c.keys | key ∷ more ↦ key ∷ more ])
  swap_in_lem c t [] = refl
  swap_in_lem c t (key ∷ keys) = refl

  refreshed_lem :
      (c : JwksCache) (t : ℕ) (m : Option JwksDocument × S)
      → (refreshed fetch decode now (attempted c t c.keys) m).1.0
        ≡ attempted c t (next_keys c.keys (m.0))
  refreshed_lem c t (none, s) = refl
  refreshed_lem c t (some doc, s) = swap_in_lem c t (parse_keys doc.keys [])

  -- A refresh replaces the keys by the usable ones of the document that it ends with, and leaves them
  -- as they are where there is no document or none of its keys is usable; it always notes the time, and
  -- changes nothing else of the cache.
  pub refresh-next_keys :
      (c : JwksCache) (s : S)
      → (refresh fetch decode now c s).1.0
        ≡ attempted c (now s) (next_keys c.keys (final_document c s))
  unfolding refresh
  refresh-next_keys c s =
      refreshed_lem c (now s) (follow fetch decode now (fetch_document fetch decode now c.url s))

  key_for_kid-cooldown :
      (kid : Bytes) (c : JwksCache) (s : S) (last cooldown : ℕ)
      → c.last_attempt ≡ some last
      → c.refetch_cooldown ≡ pos cooldown
      → now s < last + cooldown
      → key_for_kid fetch decode now kid (c, s) ≡ (lookup_key kid c.keys, (c, s))
  unfolding key_for_kid
  key_for_kid-cooldown kid c s last cooldown e e' h =
      let early : leb_ℤ c.refetch_cooldown (since (now s) c.last_attempt) ≡ false =
        rw (e, e') (ground (arith, h)) in
      elim (Option-cases (lookup_key kid c.keys)) [
        | inl missing ↦ ground (arith, missing, early)
        | inr (key, found) ↦ ground (arith, found)
      ]

  -- Until the cooldown after a refresh has passed, a key id is only looked up among the keys: whatever
  -- key ids the tokens name, nothing is fetched.
  pub key_for_kid-after_refresh :
      (c : JwksCache) (s later : S) (kid : Bytes) (cooldown : ℕ)
      → c.refetch_cooldown ≡ pos cooldown
      → now later < now s + cooldown
      → let c' = (refresh fetch decode now c s).1.0 in
        key_for_kid fetch decode now kid (c', later) ≡ (lookup_key kid c'.keys, (c', later))
  key_for_kid-after_refresh c s later kid cooldown e h =
      subst
        (λ c'. key_for_kid fetch decode now kid (c', later) ≡ (lookup_key kid c'.keys, (c', later)))
        (sym (refresh-next_keys c s))
        (key_for_kid-cooldown kid (attempted c (now s) (next_keys c.keys (final_document c s)))
          later (now s) cooldown refl e h)
