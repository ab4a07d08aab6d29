-- ===== src/Http.antt =====
-- What the plugin uses of package net/http: a header is a map from canonical names to lists of
-- values, read by its first value; a request and the response that is being written are records.
pub mod Laws
use traefik_plugin.Base.{
  ℕ, Bool, true, false, ◌&&◌, ◌||◌, not, Option, none, some, List, [], ◌∷◌, ◌++◌, Bytes, codes,
  str_eq, leb, ◌==◌, upper, lower, any, if◌then◌else◌,
}

-- The bytes that a header field name may hold (RFC 7230, token).
abbrev is_token_byte : ℕ → Bool
is_token_byte c =
    (leb b'a' c && leb c b'z')
    || (leb b'A' c && leb c b'Z')
    || (leb b'0' c && leb c b'9')
    || any (λ d. c == d) (codes "!#$%&'*+-.^_`|~")

-- Upper case at the start and behind each dash, lower case elsewhere.
unfoldable pub recase : Bool → Bytes → Bytes
recase start [] = []
recase start (c ∷ s) = (if start then upper c else lower c) ∷ recase (c == b'-') s

-- http.CanonicalHeaderKey: a name that holds another byte is left as it is.
unfoldable pub canonical : Bytes → Bytes
unfolding recase
canonical key = if any (λ c. not (is_token_byte c)) key then key else recase true key

abbrev pub Headers : Type 0
Headers = Bytes → List Bytes

abbrev pub first_value : List Bytes → Bytes
first_value [] = []
first_value (v ∷ vs) = v

-- h.Get(key)
unfoldable pub get : Headers → Bytes → Bytes
get h key = first_value (h (canonical key))

-- h.Set(key, value)
unfoldable pub set : Headers → Bytes → Bytes → Headers
set h key value = λ j. if str_eq (canonical key) j then value ∷ [] else h j

-- h.Add(key, value)
unfoldable pub add : Headers → Bytes → Bytes → Headers
add h key value = λ j. if str_eq (canonical key) j then h j ++ value ∷ [] else h j

-- h.Del(key)
unfoldable pub del : Headers → Bytes → Headers
del h key = λ j. if str_eq (canonical key) j then [] else h j

pub record Request : Type 0 where
  pub method : Bytes
  pub host : Bytes
  pub path : Bytes
  pub query : List (Bytes × Bytes)
  pub remote_addr : Bytes
  pub headers : Headers
