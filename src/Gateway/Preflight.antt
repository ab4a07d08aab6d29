-- ===== src/Gateway/Preflight.antt =====
-- ServeHTTP of plugin.go and CORS preflights.
use traefik_plugin.Base.{true, trim_space, is_empty, ◌≡◌, refl, ap, Bool-cases, inl, inr}
use traefik_plugin.Config.{Config}
use traefik_plugin.Http.{Headers, Request, get, set}
use traefik_plugin.Plugin.{
  GatewayPlugin, Services, replied, no_body, set_header, request_id_header, ensure_request_id,
}
use traefik_plugin.Gateway.{serve_http, serve_identified, is_preflight, preflight, cors_origin}

preflight-replied :
    (cfg : Config) (w : Headers)
    → (headers : Headers) × (preflight cfg w ≡ replied 204 headers no_body)
unfolding preflight
preflight-replied cfg w = (_, refl)

module _ {S : Type 0} (services : Services S) (p : GatewayPlugin) where
  serve_identified-preflight :
      (w : Headers) (req : Request) (s : S)
      → is_preflight p.config req ≡ true
      → (headers : Headers) × (serve_identified services p ((w, req), s)
          ≡ (replied 204 headers no_body, s))
  unfolding serve_identified
  serve_identified-preflight w req s h =
      let (headers, e) = preflight-replied p.config (cors_origin p.config w req) in
      (headers, rw h (ap (λ out. (out, s)) e))

  -- A CORS preflight is answered with 204 and no body before anything else is done: it is never
  -- forwarded and needs no application, no token and no budget, and the state is only that of
  -- giving the request its id.
  pub serve_http-preflight :
      (w : Headers) (req : Request) (s : S)
      → is_preflight p.config req ≡ true
      → (headers : Headers) × (serve_http services p w req s
          ≡ (replied 204 headers no_body, (ensure_request_id services w req s).1))
  unfolding serve_http ensure_request_id is_preflight
  serve_http-preflight w req s h =
      let rid = trim_space (get req.headers request_id_header) in
      let (fresh, s') = services.fresh_request_id s in
      elim (Bool-cases (is_empty rid)) [
        | inl blank ↦ rw blank (
            serve_identified-preflight (set w request_id_header fresh)
              (set_header req request_id_header fresh) s' h)
        | inr given ↦ rw given (serve_identified-preflight (set w request_id_header rid) req s h)
      ]
