-- ===== src/Gateway/Trust.antt =====
-- ServeHTTP of plugin.go and what a client puts into the trust headers.
use mathlib.Core.Path.{fun_ext}
use traefik_plugin.Base.{
  Bool, false, not, List, [], ◌∷◌, Bytes, codes, str_eq, trim_space, is_empty, any, if◌then◌else◌,
  ◌≡◌, ◌⊎◌, inl, inr, refl, sym, ◌∙◌, ap, arith, Bool-cases,
}
use traefik_plugin.Config.{Config}
use traefik_plugin.Http.{Headers, Request, canonical, get, set, del, first_value}
use traefik_plugin.Http.Laws.{get-set}
use traefik_plugin.Plugin.{
  GatewayPlugin, Services, set_header, ensure_request_id, legacy_api_key_uid_header,
  request_id_header,
}
use traefik_plugin.Gateway.{
  strip_trust_headers, serve_http, serve_identified, serve_stripped, serve_resolved, cors_origin,
  is_preflight, preflight, resolve_app, Resolution, resolved, refused,
}

-- The headers that only the gateway may set.
abbrev pub trust_headers : Config → List Bytes
trust_headers cfg =
    cfg.app_id_header
    ∷ cfg.user_id_header
    ∷ cfg.user_plan_header
    ∷ cfg.is_admin_header
    ∷ cfg.user_roles_header
    ∷ legacy_api_key_uid_header
    ∷ cfg.user_uid_header
    ∷ (if not (is_empty cfg.user_email_header) then cfg.user_email_header ∷ [] else [])

unfoldable pub is_trusted : Config → Bytes → Bool
is_trusted cfg j = any (λ k. str_eq (canonical k) j) (trust_headers cfg)

del_all : List Bytes → Headers → Headers
del_all [] h = h
del_all (k ∷ ks) h = del_all ks (del h k)

del_all_lem :
    (ks : List Bytes) (h : Headers) (j : Bytes)
    → del_all ks h j ≡ (if any (λ k. str_eq (canonical k) j) ks then [] else h j)
unfolding del_all del
del_all_lem [] h j = refl
del_all_lem (k ∷ ks) h j = ground (arith, del_all_lem ks (del h k) j)

strip-del_all :
    (cfg : Config) (req : Request)
    → strip_trust_headers cfg req ≡ record req { headers = del_all (trust_headers cfg) req.headers }
unfolding strip_trust_headers del_all
strip-del_all cfg req = elim (Bool-cases (is_empty cfg.user_email_header)) [
  | inl e ↦ rw e
  | inr e ↦ rw e
]

abbrev pub masked : Config → Headers → Headers
masked cfg h = λ j. if is_trusted cfg j then [] else h j

-- The strip empties exactly the trust headers, and changes nothing else of the request.
pub strip_trust_headers_lem :
    (cfg : Config) (req : Request)
    → strip_trust_headers cfg req ≡ record req { headers = masked cfg req.headers }
unfolding is_trusted
strip_trust_headers_lem cfg req =
    strip-del_all cfg req
    ∙ (λ i. record req { headers = fun_ext (del_all_lem (trust_headers cfg) req.headers) i })

-- Two requests that may differ only in the trust headers.
pub record Agrees (cfg : Config) (r q : Request) : Type 0 where
  pub method : r.method ≡ q.method
  pub host : r.host ≡ q.host
  pub path : r.path ≡ q.path
  pub query : r.query ≡ q.query
  pub remote_addr : r.remote_addr ≡ q.remote_addr
  pub others : (j : Bytes) → is_trusted cfg j ≡ false → r.headers j ≡ q.headers j

masked-Agrees :
    (cfg : Config) (h g : Headers)
    → ((j : Bytes) → is_trusted cfg j ≡ false → h j ≡ g j)
    → masked cfg h ≡ masked cfg g
masked-Agrees cfg h g same = fun_ext (λ j. at j)
  where
    at : (j : Bytes) → masked cfg h j ≡ masked cfg g j
    at j = elim (Bool-cases (is_trusted cfg j)) [ inl e ↦ rw e | inr e ↦ rw e (same j e) ]

strip-Agrees :
    (cfg : Config) (r q : Request)
    → Agrees cfg r q
    → strip_trust_headers cfg r ≡ strip_trust_headers cfg q
strip-Agrees cfg r q a =
    strip_trust_headers_lem cfg r
    ∙ (λ i. record {
      method = a.method i;
      host = a.host i;
      path = a.path i;
      query = a.query i;
      remote_addr = a.remote_addr i;
      headers = masked-Agrees cfg r.headers q.headers a.others i;
    })
    ∙ sym (strip_trust_headers_lem cfg q)

get-Agrees :
    (cfg : Config) (r q : Request) (k : Bytes)
    → Agrees cfg r q
    → is_trusted cfg (canonical k) ≡ false
    → get r.headers k ≡ get q.headers k
unfolding get
get-Agrees cfg r q k a h = ap first_value (a.others (canonical k) h)

set_header-Agrees :
    (cfg : Config) (r q : Request) (k v : Bytes)
    → Agrees cfg r q
    → Agrees cfg (set_header r k v) (set_header q k v)
unfolding set
set_header-Agrees cfg r q k v a = record {
  method = a.method;
  host = a.host;
  path = a.path;
  query = a.query;
  remote_addr = a.remote_addr;
  others = λ j h. ground (arith, a.others j h);
}

-- The headers that are read before the strip are not among those that are stripped.
pub record IsSeparate (cfg : Config) : Type 0 where
  pub request_id : is_trusted cfg (canonical request_id_header) ≡ false
  pub origin : is_trusted cfg (canonical (codes "Origin")) ≡ false

-- In the policy engine the inbound application header is read as a request for an application.
abbrev pub SameRequest : GatewayPlugin → Request → Request → Type 0
SameRequest p r q =
    trim_space (get r.headers p.config.app_id_header)
    ≡ trim_space (get q.headers p.config.app_id_header)

module _ {S : Type 0} (services : Services S) where
  serve_resolved-legacy :
      (p : GatewayPlugin) (x y : Bytes) (w : Headers) (a : Resolution) (s : S)
      → (p.policy_mode ≡ false) ⊎ (x ≡ y)
      → serve_resolved services p x w a s ≡ serve_resolved services p y w a s
  unfolding serve_resolved
  serve_resolved-legacy p x y w (refused out) s h = refl
  serve_resolved-legacy p x y w (resolved app req) s (inl e) = rw e
  serve_resolved-legacy p x y w (resolved app req) s (inr e) = rw e

  serve_stripped-Agrees :
      (p : GatewayPlugin) (w : Headers) (r q : Request) (s : S)
      → Agrees p.config r q
      → (p.policy_mode ≡ false) ⊎ SameRequest p r q
      → serve_stripped services p w r s ≡ serve_stripped services p w q s
  unfolding serve_stripped
  serve_stripped-Agrees p w r q s a h =
      serve_resolved-legacy p _ _ w _ s h
      ∙ ap
          (λ x.
            serve_resolved services p (trim_space (get q.headers p.config.app_id_header)) w
              (resolve_app p w x) s)
          (strip-Agrees p.config r q a)

  cors_origin-Agrees :
      (cfg : Config) (w : Headers) (r q : Request)
      → IsSeparate cfg
      → Agrees cfg r q
      → cors_origin cfg w r ≡ cors_origin cfg w q
  unfolding cors_origin
  cors_origin-Agrees cfg w r q v a = rw (get-Agrees cfg r q (codes "Origin") a v.origin)

  is_preflight-Agrees :
      (cfg : Config) (r q : Request) → Agrees cfg r q → is_preflight cfg r ≡ is_preflight cfg q
  unfolding is_preflight
  is_preflight-Agrees cfg r q a = rw a.method

  serve_identified-Agrees :
      (p : GatewayPlugin) (w : Headers) (r q : Request) (s : S)
      → IsSeparate p.config
      → Agrees p.config r q
      → (p.policy_mode ≡ false) ⊎ SameRequest p r q
      → serve_identified services p ((w, r), s) ≡ serve_identified services p ((w, q), s)
  unfolding serve_identified
  serve_identified-Agrees p w r q s v a h =
      let same_cors = cors_origin-Agrees p.config w r q v a in
      let same_preflight = is_preflight-Agrees p.config r q a in
      let same_rest =
        ap (λ w'. serve_stripped services p w' r s) same_cors
        ∙ serve_stripped-Agrees p (cors_origin p.config w q) r q s a h in
      λ i. if same_preflight i then (preflight p.config (same_cors i), s) else same_rest i

-- Setting the request id does not change which application is asked for.
SameRequest-set_header :
    (p : GatewayPlugin) (r q : Request) (v : Bytes)
    → (p.policy_mode ≡ false) ⊎ SameRequest p r q
    → (p.policy_mode ≡ false)
      ⊎ SameRequest p (set_header r request_id_header v) (set_header q request_id_header v)
SameRequest-set_header p r q v h = simp get-set (ground arith)

-- Whatever a client puts into the trust headers, the outcome and the state are the same: two
-- requests that agree on everything else are answered alike, in the policy engine if they ask for
-- the same application, given that neither the request id nor the origin is read from one of the
-- trust headers.
pub serve_http-Agrees :
    {S : Type 0} (services : Services S) (p : GatewayPlugin) (w : Headers) (r q : Request) (s : S)
    → IsSeparate p.config
    → Agrees p.config r q
    → (p.policy_mode ≡ false) ⊎ SameRequest p r q
    → serve_http services p w r s ≡ serve_http services p w q s
unfolding serve_http ensure_request_id
serve_http-Agrees services p w r q s v a h =
    let rid = get-Agrees p.config r q request_id_header a v.request_id in
    let (fresh, s') = services.fresh_request_id s in
    elim (Bool-cases (is_empty (trim_space (get q.headers request_id_header)))) [
      | inl blank ↦
          rw (rid, blank)
            (serve_identified-Agrees services p (set w request_id_header fresh)
              (set_header r request_id_header fresh) (set_header q request_id_header fresh) s' v
              (set_header-Agrees p.config r q request_id_header fresh a)
              (SameRequest-set_header p r q fresh h))
      | inr given ↦ rw (rid, given) (serve_identified-Agrees services p _ r q s v a h)
    ]
