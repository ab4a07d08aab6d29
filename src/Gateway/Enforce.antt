-- ===== src/Gateway/Enforce.antt =====
-- ServeHTTP of plugin.go in the mode "enforce".
use traefik_plugin.Base.{
  true, if◌then◌else◌, not, none, some, Bytes, codes, str_eq, trim_space, ◌≡◌, ◌≢◌, ◌⊎◌, inl, inr,
  refl, sym, ◌∙◌, ap, arith, Option-cases, Bool-cases,
}
use traefik_plugin.Http.{Headers, Request, get, set}
use traefik_plugin.Plugin.{
  ensure_request_id, GatewayPlugin, Services, Outcome, replied, error, forwarded, set_header,
  resolution_host, write_json,
}
use traefik_plugin.Registry.{cold_start, AppRegistryCache, resolve_host}
use traefik_plugin.Config.{Config}
use traefik_plugin.Gateway.{
  serve_http, serve_identified, preflight, is_preflight, cors_origin, strip_trust_headers,
  serve_stripped, serve_resolved, resolve_app, Resolution, resolved, refused, host_refused,
  snapshot_cold, snapshot_refused,
}

module _ (p : GatewayPlugin) (registry : AppRegistryCache)
    (enforce : p.config.app_resolution_mode ≡ codes "enforce")
    (known : p.app_registry ≡ some registry) where
  resolve_app-enforce :
      (w : Headers) (req : Request)
      → resolve_app p w req ≡ elim (resolve_host registry (resolution_host p.config req)) [
        | some id ↦ resolved id (set_header req p.config.app_id_header id)
        | none ↦ refused (host_refused registry w)
      ]
  unfolding resolve_app str_eq
  resolve_app-enforce w req = rw (enforce, known) (ground arith)

  resolve_app-resolved :
      (w : Headers) (req : Request) (app : Bytes) (out : Outcome)
      → resolve_host registry (resolution_host p.config req) ≡ some app
      → resolve_app p w req ≢ refused out
  resolve_app-resolved w req app out e = rw (resolve_app-enforce w req, e) (ground arith)

  snapshot_cold-enforce : snapshot_cold p ≡ not p.snapshot.loaded
  unfolding snapshot_cold str_eq
  snapshot_cold-enforce = rw enforce

  module _ {S : Type 0} (services : Services S) where
    serve_resolved-loaded :
        (x : Bytes) (w w' : Headers) (a : Resolution) (req' : Request) (s s' : S)
        → serve_resolved services p x w a s ≡ (forwarded req' w', s')
        → (p.snapshot.loaded ≡ true) ⊎ ((out : Outcome) × (a ≡ refused out))
    unfolding serve_resolved snapshot_refused write_json
    serve_resolved-loaded x w w' (refused out) req' s s' h = inr (out, refl)
    serve_resolved-loaded x w w' (resolved app req) req' s s' h =
        ground (arith, snapshot_cold-enforce)

    serve_stripped-host_refused :
        (w : Headers) (req : Request) (s : S)
        → resolve_host registry (resolution_host p.config (strip_trust_headers p.config req)) ≡ none
        → serve_stripped services p w req s ≡ (host_refused registry w, s)
    unfolding serve_stripped serve_resolved
    serve_stripped-host_refused w req s h =
        rw (resolve_app-enforce w (strip_trust_headers p.config req), h)

    abbrev as_json : Headers → Headers
    as_json w = set w (codes "Content-Type") (codes "application/json")

    host_refused-replied :
        (w : Headers)
        → host_refused registry w ≡ (
            if registry.loaded
            then replied 403
                (as_json w)
                (error (codes "unknown_app") (codes "host is not mapped to an active application"))
            else replied 503
                (as_json w)
                (error (codes "registry_unavailable") (codes "application registry is not ready")))
    unfolding host_refused write_json cold_start
    host_refused-replied w = elim (Bool-cases registry.loaded) [
      | inl warm ↦ rw warm refl
      | inr cold ↦ rw cold refl
    ]

    -- In the mode "enforce" with a registry, a request for an unresolved host is refused after the
    -- CORS stage, with a JSON error: with 403 where the registry is loaded, and with 503 where it has
    -- never been.
    pub serve_stripped-refused :
        (w : Headers) (req : Request) (s : S)
        → resolve_host registry (resolution_host p.config (strip_trust_headers p.config req)) ≡ none
        → serve_stripped services p w req s ≡ (
          if registry.loaded
              then replied 403 (set w (codes "Content-Type") (codes "application/json")) (
                  error (codes "unknown_app") (codes "host is not mapped to an active application"))
              else replied 503 (set w (codes "Content-Type") (codes "application/json")) (
                  error (codes "registry_unavailable") (codes "application registry is not ready")),
          s,
        )
    serve_stripped-refused w req s h =
        serve_stripped-host_refused w req s h ∙ ap (λ out. (out, s)) (host_refused-replied w)

    host_refused-replies :
        (w : Headers) (req' : Request) (w' : Headers) → host_refused registry w ≢ forwarded req' w'
    unfolding host_refused write_json
    host_refused-replies w req' w' = ground arith

    loaded_of :
        (w w' : Headers) (req req' : Request) (s s' : S) (app : Bytes)
        → resolve_host registry (resolution_host p.config (strip_trust_headers p.config req))
          ≡ some app
        → serve_stripped services p w req s ≡ (forwarded req' w', s')
        → p.snapshot.loaded ≡ true
    unfolding serve_stripped
    loaded_of w w' req req' s s' app e h =
        elim (serve_resolved-loaded (trim_space (get req.headers p.config.app_id_header)) w w'
          (resolve_app p w (strip_trust_headers p.config req)) req' s s' h) [
            | inl l ↦ l
            | inr (out, r) ↦
                absurd (resolve_app-resolved w (strip_trust_headers p.config req) app out e r)
          ]

    serve_stripped-enforce :
        (w w' : Headers) (req req' : Request) (s s' : S)
        → serve_stripped services p w req s ≡ (forwarded req' w', s')
        → (p.snapshot.loaded ≡ true)
          × ((app : Bytes) × (resolve_host registry
                  (resolution_host p.config (strip_trust_headers p.config req))
                ≡ some app))
    serve_stripped-enforce w w' req req' s s' h =
        elim (Option-cases
          (resolve_host registry (resolution_host p.config (strip_trust_headers p.config req)))) [
            | inl e ↦ absurd (
                host_refused-replies w req' w'
                  (ap (λ r. r.0) (sym (serve_stripped-host_refused w req s e) ∙ h)))
            | inr (app, e) ↦ (loaded_of w w' req req' s s' app e h, (app, e))
          ]

    preflight-replies :
        (cfg : Config) (w w' : Headers) (req' : Request) → preflight cfg w ≢ forwarded req' w'
    unfolding preflight
    preflight-replies cfg w w' req' = ground arith

    serve_identified-enforce :
        (w w' : Headers) (req req' : Request) (s s' : S)
        → serve_identified services p ((w, req), s) ≡ (forwarded req' w', s')
        → (p.snapshot.loaded ≡ true)
          × ((app : Bytes) × (resolve_host registry
                  (resolution_host p.config (strip_trust_headers p.config req))
                ≡ some app))
    unfolding serve_identified
    serve_identified-enforce w w' req req' s s' h = elim (Bool-cases (is_preflight p.config req)) [
      | inl early ↦ absurd (
          preflight-replies p.config (cors_origin p.config w req) w' req'
            (ap (λ r. r.0) (rw early at h)))
      | inr other ↦
          serve_stripped-enforce (cors_origin p.config w req) w' req req' s s' (rw other at h)
    ]

    -- In the mode "enforce" with a registry, a request is forwarded to the backend only if the
    -- snapshot is loaded and the host of the request resolves to an application.
    pub serve_http-enforce :
        (w w' : Headers) (req req' : Request) (s s' : S)
        → serve_http services p w req s ≡ (forwarded req' w', s')
        → (p.snapshot.loaded ≡ true)
          × ((app : Bytes) × (resolve_host registry (
                  resolution_host p.config
                    (strip_trust_headers p.config (ensure_request_id services w req s).0.1))
                ≡ some app))
    unfolding serve_http
    serve_http-enforce w w' req req' s s' h =
        let ((v, r), t) = ensure_request_id services w req s in
        serve_identified-enforce v w' r req' t s' h
