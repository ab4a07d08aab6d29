-- ===== src/Examples/Runs.antt =====
-- The definitions run.
use traefik_plugin.Base.{ℕ, true, false, some, none, [], ◌∷◌, Bytes, codes, ◌≡◌, refl, str_eq}
use traefik_plugin.Base.Int.{pos}
use traefik_plugin.Authz.{
  match_action, granted, is_wildcard, covers_app, some_action, qualify_roles, add_role, add_roles,
}
use traefik_plugin.Helpers.{normalize_host, split_host_port}
use traefik_plugin.Base.Int.{pos, negsuc}
use traefik_plugin.Base.Decimal.{decimal}
use traefik_plugin.Jwt.{derive_user_id, fnv, is_positive_int}
use traefik_plugin.Plugin.{origin_matches, seconds_until}
use traefik_plugin.Snapshot.{match_endpoint, scan}
use traefik_plugin.Examples.Fixtures.{acme, snapshot, public_endpoint, protected_endpoint, buyer}

nil_uuid : derive_user_id (codes "00000000-0000-0000-0000-000000000000") ≡ 8950988243607919089
unfolding derive_user_id fnv
nil_uuid = refl

prefix_action : match_action (codes "order.*") (codes "order.read") ≡ true
unfolding match_action str_eq traefik_plugin.Base.has_suffix traefik_plugin.Base.drop_last
prefix_action = refl

bare_prefix_action : match_action (codes "order.*") (codes "order") ≡ false
unfolding match_action str_eq traefik_plugin.Base.has_suffix traefik_plugin.Base.drop_last
bare_prefix_action = refl

port_and_dot : normalize_host (codes " Shop.Example.:443 ") ≡ codes "shop.example"
unfolding normalize_host split_host_port traefik_plugin.Base.has_suffix traefik_plugin.Base.to_lower
    traefik_plugin.Base.trim_space traefik_plugin.Base.cut traefik_plugin.Base.drop_last
port_and_dot = refl

ip_six : split_host_port (codes "[::1]:80") ≡ some (codes "::1")
unfolding split_host_port traefik_plugin.Base.cut
ip_six = refl

two_colons : split_host_port (codes "::1") ≡ none
unfolding split_host_port traefik_plugin.Base.cut
two_colons = refl

subdomain_origin :
    origin_matches (codes "https://*.example.com") (codes "https://a.example.com") ≡ true
unfolding origin_matches str_eq traefik_plugin.Base.has_prefix traefik_plugin.Base.has_suffix
subdomain_origin = refl

leading_zeros : is_positive_int (codes "0000000000000000001") ≡ true
unfolding is_positive_int decimal
leading_zeros = refl

too_large : is_positive_int (codes "9223372036854775808") ≡ false
unfolding is_positive_int decimal
too_large = refl

late_reset : seconds_until 5000000000 (pos 3500000000) ≡ negsuc 0
unfolding seconds_until
late_reset = refl

matched : match_endpoint snapshot acme (codes "GET") (codes "/b") ≡ some protected_endpoint
unfolding match_endpoint scan str_eq
matched = refl

shared : match_endpoint snapshot (codes "other") (codes "GET") (codes "/a") ≡ some public_endpoint
unfolding match_endpoint scan str_eq
shared = refl

buyer_reads : granted (some buyer) (codes "order.read") acme ≡ true
unfolding granted some_action covers_app traefik_plugin.Authz.match_app str_eq match_action
    traefik_plugin.Base.has_suffix traefik_plugin.Base.drop_last
buyer_reads = refl

buyer_elsewhere : granted (some buyer) (codes "order.read") (codes "other") ≡ false
unfolding granted some_action covers_app traefik_plugin.Authz.match_app str_eq
buyer_elsewhere = refl
