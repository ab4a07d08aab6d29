-- ===== src/Examples/Cors.antt =====
-- The law of preflights at a configuration that allows one origin.
use traefik_plugin.Base.{[], ◌∷◌, codes, ◌≡◌, refl, str_eq}
use traefik_plugin.Config.{create_config}
use traefik_plugin.Http.{Headers, Request}
use traefik_plugin.Plugin.{GatewayPlugin, replied, no_body, ensure_request_id}
use traefik_plugin.Gateway.{serve_http, is_preflight}
use traefik_plugin.Gateway.Preflight.{serve_http-preflight}
use traefik_plugin.Examples.Fixtures.{gateway, services, request, no_headers}

abbrev open_gateway : GatewayPlugin
open_gateway = record gateway {
  config = record create_config { cors_allowed_origins = codes "https://a.example" ∷ [] };
}

abbrev options : Request
options = record (request (codes "/b") no_headers) { method = codes "OPTIONS" }

serve_http-preflight_example :
    (headers : Headers) × (serve_http services open_gateway no_headers options 5
      ≡ (replied 204 headers no_body, (ensure_request_id services no_headers options 5).1))
unfolding is_preflight str_eq
serve_http-preflight_example = serve_http-preflight services open_gateway no_headers options 5 refl
