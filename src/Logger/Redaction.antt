-- ===== src/Logger/Redaction.antt =====
-- logger.go: what a log line tells of secrets.
use traefik_plugin.Base.{
  ℕ, Bool, true, false, List, [], ◌∷◌, ◌++◌, map, Bytes, codes, str_eq, has_prefix, trim_space,
  to_lower, is_empty, join, ◌≡◌, ◌≢◌, ◌⊎◌, inl, inr, refl, ap, ap₂, ◌∙◌, subst, arith, Bool-cases,
}
use traefik_plugin.Base.Sort.{sort_strings}
use traefik_plugin.Http.{Headers, canonical}
use traefik_plugin.Logger.{
  shown, format_values, format_headers, format_request_headers, redact_auth_header,
  format_redis_cmd,
}

-- A value that redactAuthHeader takes for a bearer token.
abbrev pub is_bearer : Bytes → Bool
is_bearer v = has_prefix (to_lower (trim_space v)) (codes "bearer ")

-- Two values that differ at most in their secrets.
abbrev pub IsAlike : Bytes → Bytes → Type 0
IsAlike v w = (is_empty v ≡ is_empty w) × (is_bearer v ≡ is_bearer w)

redact_auth_header-alike : (v w : Bytes) → IsAlike v w → redact_auth_header v ≡ redact_auth_header w
unfolding redact_auth_header
redact_auth_header-alike v w (e, e') = rw (e, e') refl

-- Lists of values that are alike, one by one.
abbrev pub AllAlike : List Bytes → List Bytes → Type 0
AllAlike [] [] = Unit {0}
AllAlike (v ∷ vs) (w ∷ ws) = IsAlike v w × AllAlike vs ws
AllAlike vs ws = ⊥

-- Two headers that differ at most in the secrets of Authorization, however the name is spelt.
abbrev pub IsSameBut : Headers → Headers → Type 0
IsSameBut h h' =
    (name : Bytes)
    → (h name ≡ h' name)
      ⊎ ((str_eq (canonical name) (codes "Authorization") ≡ true) × AllAlike (h name) (h' name))

shown-alike :
    (name v w : Bytes)
    → str_eq (canonical name) (codes "Authorization") ≡ true
    → IsAlike v w
    → shown name v ≡ shown name w
shown-alike name v w e h = rw e (redact_auth_header-alike v w h)

format_values-alike :
    (quote : Bytes → Bytes) (name : Bytes) (vs ws : List Bytes)
    → str_eq (canonical name) (codes "Authorization") ≡ true
    → AllAlike vs ws
    → map (λ v. name ++ (codes ": " ++ quote (shown name v))) vs
      ≡ map (λ v. name ++ (codes ": " ++ quote (shown name v))) ws
format_values-alike quote name [] [] e h = refl
format_values-alike quote name [] (w ∷ ws) e h = absurd h
format_values-alike quote name (v ∷ vs) [] e h = absurd h
format_values-alike quote name (v ∷ vs) (w ∷ ws) e (here, h) =
    ap₂ (λ a b. a ∷ b) (ap (λ b. name ++ (codes ": " ++ quote b)) (shown-alike name v w e here))
      (format_values-alike quote name vs ws e h)

format_headers-same :
    (quote : Bytes → Bytes) (names : List Bytes) (h h' : Headers)
    → IsSameBut h h'
    → format_headers quote names h ≡ format_headers quote names h'
format_headers-same quote [] h h' same = refl
format_headers-same quote (n ∷ names) h h' same =
    ap₂ (λ a b. a ∷ b)
      (elim (same n) [
        | inl e ↦ ap (format_values quote n) e
        | inr (e, alike) ↦
            ap (λ vs. join vs (codes ", ")) (format_values-alike quote n (h n) (h' n) e alike)
      ])
      (format_headers-same quote names h h' same)

-- The text that is logged of a request's headers is the same for two requests whose headers differ
-- only in the secrets of Authorization: in what stands behind "Bearer", or in a value that is no
-- bearer token and not empty.
pub format_request_headers-IsSameBut :
    (quote : Bytes → Bytes) (names : List Bytes) (h h' : Headers)
    → IsSameBut h h'
    → format_request_headers quote names h ≡ format_request_headers quote names h'
unfolding format_request_headers
format_request_headers-IsSameBut quote names h h' same =
    ap (λ parts. join parts (codes "; ")) (format_headers-same quote (sort_strings names) h h' same)

-- The text of an AUTH command is the same for every password.
format_redis_cmd-auth :
    (p q : Bytes)
    → format_redis_cmd (codes "AUTH" ∷ p ∷ []) ≡ format_redis_cmd (codes "AUTH" ∷ q ∷ [])
unfolding format_redis_cmd traefik_plugin.Base.equal_fold str_eq to_lower
format_redis_cmd-auth p q = refl
