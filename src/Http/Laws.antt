-- ===== src/Http/Laws.antt =====
-- Laws of the header map.
use traefik_plugin.Base.{[], Bytes, str_eq, ◌≡◌, arith, if◌then◌else◌}
use traefik_plugin.Http.{Headers, get, set, del, canonical}

pub get-set :
    (h : Headers) (k j v : Bytes)
    → get (set h k v) j ≡ (if str_eq (canonical k) (canonical j) then v else get h j)
unfolding get set
get-set h k j v = ground arith

pub get-del :
    (h : Headers) (k j : Bytes)
    → get (del h k) j ≡ (if str_eq (canonical k) (canonical j) then [] else get h j)
unfolding get del
get-del h k j = ground arith
