-- ===== src/Logger.antt =====
-- logger.go: the levels of the log and what its lines show of requests and of Redis commands. A line
-- is what the logger passes to log.Printf; fmt's %q is the parameter quote.
pub mod Redaction
use traefik_plugin.Base.{
  ℕ, zero, suc, ◌≤◌, Bool, true, false, not, ◌&&◌, Option, none, some, List, [], ◌∷◌, ◌++◌, map,
  Bytes, codes, str_eq, has_prefix, trim_space, to_lower, equal_fold, join, is_empty, length, leb,
  ◌==◌, if◌then◌else◌,
}
use traefik_plugin.Base.Int.{ℤ, pos, negsuc, leb_ℤ, format_nat, format_int}
use traefik_plugin.Base.Sort.{sort_strings}
use traefik_plugin.Http.{Headers, canonical}
use traefik_plugin.Redis.Resp.{Reply, nil, text, integer}

-- logLevel and its constants
abbrev pub LogLevel : Type 0
LogLevel = ℤ

abbrev pub level_none : LogLevel
level_none = negsuc 0

abbrev pub level_error : LogLevel
level_error = pos 0

abbrev pub level_warn : LogLevel
level_warn = pos 1

abbrev pub level_info : LogLevel
level_info = pos 2

abbrev pub level_debug : LogLevel
level_debug = pos 3

abbrev is_one_of : Bytes → List Bytes → Bool
is_one_of s [] = false
is_one_of s (t ∷ ts) = if str_eq s t then true else is_one_of s ts

unfoldable pub parse_log_level : Bytes → LogLevel
parse_log_level s =
    let name = to_lower (trim_space s) in
    if str_eq name (codes "error")
    then level_error
    else if is_one_of name (codes "warn" ∷ codes "warning" ∷ [])
    then level_warn
    else if is_one_of name ([] ∷ codes "info" ∷ [])
    then level_info
    else if str_eq name (codes "debug")
    then level_debug
    else if is_one_of name (codes "none" ∷ codes "off" ∷ codes "silent" ∷ [])
    then level_none
    else level_info

abbrev is_silent : LogLevel → Bool
is_silent (pos n) = false
is_silent (negsuc n) = n == 0

-- enabled; a nil logger is none.
unfoldable pub enabled : Option LogLevel → LogLevel → Bool
enabled none least = false
enabled (some level) least = if is_silent level then false else leb_ℤ least level

-- errorf, warnf, infof and debugf, given the formatted text: the line that is written.
abbrev written : Option LogLevel → LogLevel → Bytes → Bytes → Option Bytes
written l least prefix s = if not (enabled l least) then none else some (prefix ++ s)

unfoldable pub errorf : Option LogLevel → Bytes → Option Bytes
errorf l s = written l level_error (codes "[gateway-plugin][ERROR] ") s

unfoldable pub warnf : Option LogLevel → Bytes → Option Bytes
warnf l s = written l level_warn (codes "[gateway-plugin][WARN] ") s

unfoldable pub infof : Option LogLevel → Bytes → Option Bytes
infof l s = written l level_info (codes "[gateway-plugin][INFO] ") s

unfoldable pub debugf : Option LogLevel → Bytes → Option Bytes
debugf l s = written l level_debug (codes "[gateway-plugin][DEBUG] ") s

-- s[:n]
unfoldable pub prefix_of : ℕ → Bytes → Bytes
prefix_of zero s = []
prefix_of (suc n) [] = []
prefix_of (suc n) (c ∷ s) = c ∷ prefix_of n s

unfoldable pub truncate_for_log : Bytes → ℕ → Bytes
truncate_for_log s max =
    if leb (length s) max
    then s
    else prefix_of max s
      ++ (codes " ... [truncated, total " ++ (format_nat (length s) ++ codes " bytes]"))

unfoldable pub redact_auth_header : Bytes → Bytes
redact_auth_header v =
    if is_empty v
    then []
    else if has_prefix (to_lower (trim_space v)) (codes "bearer ")
    then codes "Bearer ***"
    else codes "***"

-- What is shown of a value of the header with this name.
abbrev pub shown : Bytes → Bytes → Bytes
shown name v = if str_eq (canonical name) (codes "Authorization") then redact_auth_header v else v

-- The values of one header.
abbrev pub format_values : (Bytes → Bytes) → Bytes → List Bytes → Bytes
format_values quote name vals =
    join (map (λ v. name ++ (codes ": " ++ quote (shown name v))) vals) (codes ", ")

abbrev pub format_headers : (Bytes → Bytes) → List Bytes → Headers → List Bytes
format_headers quote [] h = []
format_headers quote (n ∷ names) h = format_values quote n (h n) ∷ format_headers quote names h

-- formatRequestHeaders of a request whose header has these names.
unfoldable pub format_request_headers : (Bytes → Bytes) → List Bytes → Headers → Bytes
format_request_headers quote names h =
    join (format_headers quote (sort_strings names) h) (codes "; ")

abbrev redacted : List Bytes → List Bytes
redacted [] = []
redacted (c ∷ []) = c ∷ []
redacted (c ∷ secret ∷ args) =
    if equal_fold c (codes "AUTH") then c ∷ codes "***" ∷ args else c ∷ secret ∷ args

unfoldable pub format_redis_cmd : List Bytes → Bytes
format_redis_cmd args = join (redacted args) (codes " ")

unfoldable pub format_redis_result : Reply → Bytes
format_redis_result nil = codes "<nil>"
format_redis_result (text s) = truncate_for_log s 256
format_redis_result (integer n) = format_int n
