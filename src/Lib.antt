-- ===== src/Lib.antt =====
-- Verification of the gateway plugin: the Traefik middleware that resolves the application of a
-- request, authenticates its caller, authorizes it against the access policies, limits its rate
-- and stamps the trusted headers that the backends rely on.
--
-- The parts, and the files that model them:
--
--   Authz      authz.go: statements, principals, the policy index, granted, isWildcard,
--              permissionsByApp, qualifyRoles, tokenIssuer. A Go map that is only looked up is a
--              function, one that is ranged over is a list; a nil principal or index is none.
--   Jwt        jwt.go: parseKeycloakJWT and what it makes of the claims. The library golang-jwt is
--              the parameter parse_jwt: given a token and the key function it returns the claims
--              of a valid token, or none. Nothing is assumed of it.
--   Registry   registry.go: the host registry. refresh and checkVersion take the outcome of their
--              HTTP request (Fetch) and the JSON decoder as arguments. The object of hosts is the
--              list of its entries in the order of the range over the map.
--   Snapshot   snapshot.go: the endpoint snapshot, in the same manner. A compiled regular
--              expression is the record Regex, what the plugin asks of it.
--   Config     config.go. Helpers: helpers.go. Http: what is used of net/http.
--   Plugin     plugin.go: the state of the middleware, the parts that both engines share, and the
--              record Services: the key sources, the plan resolver, the rate limiter and the clock
--              as operations on a state S that is passed explicitly through every handler.
--   Caller     what both engines establish of a caller: realm, principal, headers, limiter keys.
--   Policy     policy.go: servePolicy, stage by stage, and serveIAMMe.
--   Legacy     serveLegacy of plugin.go, with the authorization view of identity.go.
--   Gateway    ServeHTTP of plugin.go, which runs the prelude and calls one of the engines.
--   Plans      PlanResolver of identity.go, over an HTTP client, a decoder and a clock.
--   RateLimit  ratelimit.go, over the record Counters: INCR, EXPIRE and a clock. redis_counters is the
--              instance that the plugin uses.
--   Redis      redis_resp.go: Resp is the wire format on bytes, Client the reconnecting client over the
--              record Network (dial, send, receive, clock), Operations the URL and the commands. Server
--              is readRespCommand of redis_resp_test.go.
--   Jwks       jwks.go: the key cache, over an HTTP client, a decoder and a clock.
--   Polling    the polling loops of registry.go and snapshot.go by the events that they receive, and
--              the caches that registry.go, snapshot.go and jwks.go share between instances.
--   Logger     logger.go: levels, and the texts of requests and commands that log lines show.
--   Setup      New and buildKeycloakAppSet of plugin.go; Setup.Process is New with the shared caches
--              that it asks for and the limiter that it makes, and calls new_configured with them.
--   Examples   runs of the definitions, and instances of the theorems at concrete inputs.
--   Base       the names the modules share: library names, Boolean tests, byte strings, sorting,
--              Base64, integers.
--
-- How code and model correspond: a function of the source is the definition of the same name in
-- snake case; a long handler is cut at its stages, and each stage is a function whose early
-- returns are the branches of its conditionals. A handler maps a state, a request and the
-- response headers set so far to an Outcome: the response that the plugin wrote, or the request
-- that the next handler receives. Byte strings are lists of bytes; the texts that
-- strings.TrimSpace, ToLower and EqualFold see are taken to be ASCII. An int is an integer;
-- where it may leave an int64 it is wrapped around (wrap), as for the window of the rate limiter,
-- and the hash of deriveUserID is computed modulo 2 ^ 64. A time is a number of nanoseconds since
-- 1970. An operation runs to its end before the next one starts, but for the
-- steps of keyForKid and of refresh of jwks.go, which requests may interleave (IsReached).
--
-- All loops are structural recursion over the lists or the bytes of the source, or over the list
-- of the events that they receive, so no fuel is needed, except
-- for the decimal print of a number n, which is given n + 1 steps and needs one for each digit.
--
-- Not modelled: the lines that the handlers log, with the shadow verdict that is only logged; the
-- deadlines of connections, which show as bytes that do not arrive; the operations of Services as
-- calls of the key caches, the plan resolver and the limiter; the tests but for the command reader,
-- the harness and the deployment files; the vendored libraries.
pub mod Base
pub mod Authz
pub mod Config
pub mod Http
pub mod Helpers
pub mod Jwt
pub mod Registry
pub mod Snapshot
pub mod Plugin
pub mod Caller
pub mod Policy
pub mod Legacy
pub mod Gateway
pub mod Plans
pub mod Setup
pub mod RateLimit
pub mod Redis
pub mod Jwks
pub mod Logger
pub mod Polling
pub mod Examples
