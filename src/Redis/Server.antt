-- ===== src/Redis/Server.antt =====
-- readRespCommand of redis_resp_test.go, the test server's own reader of commands. An error and a
-- panic of it are none.
use traefik_plugin.Base.{
  ℕ, zero, suc, ◌+◌, ◌&&◌, ◌||◌, Option, none, some, List, [], ◌∷◌, ◌++◌, Bytes, cut, is_empty,
  ◌==◌, if◌then◌else◌,
}
use traefik_plugin.Base.Int.{ℤ, pos, negsuc}
use traefik_plugin.Base.Decimal.{parse_int}
use traefik_plugin.Redis.Resp.{read_full}

-- strings.TrimRight(s, "\r\n")
unfoldable pub trim_crlf : Bytes → Bytes
trim_crlf [] = []
trim_crlf (c ∷ s) =
    let rest = trim_crlf s in if is_empty rest && (c == 13 || c == 10) then [] else c ∷ rest

abbrev pub trimmed_of : Bytes × Option Bytes → Option (Bytes × Bytes)
trimmed_of (before, none) = none
trimmed_of (before, some rest) = some (trim_crlf (before ++ 10 ∷ []), rest)

-- ReadString('\n') with the line break taken off.
unfoldable pub read_trimmed : Bytes → Option (Bytes × Bytes)
read_trimmed s = trimmed_of (cut s 10)

-- The number behind the mark of a header.
unfoldable pub header_number : ℕ → Bytes → Option ℤ
header_number mark [] = none
header_number mark (c ∷ s) = if c == mark then parse_int s else none

abbrev pub header_of : ℕ → Option (Bytes × Bytes) → Option (ℤ × Bytes)
header_of mark none = none
header_of mark (some (line, rest)) = elim (header_number mark line) [
  | none ↦ none
  | some n ↦ some (n, rest)
]

unfoldable pub read_header : ℕ → Bytes → Option (ℤ × Bytes)
read_header mark s = header_of mark (read_trimmed s)

-- buf[:blen]
abbrev pub argument_of : ℕ → Option (Bytes × Bytes) → Option (Bytes × Bytes)
argument_of n none = none
argument_of n (some (buf, rest)) = elim (read_full n buf) [
  | none ↦ none
  | some (a, _) ↦ some (a, rest)
]

abbrev pub bulk_of : Option (ℤ × Bytes) → Option (Bytes × Bytes)
bulk_of none = none
bulk_of (some (negsuc n, s)) = none
bulk_of (some (pos n, s)) = argument_of n (read_full (n + 2) s)

unfoldable pub read_argument : Bytes → Option (Bytes × Bytes)
read_argument s = bulk_of (read_header b'$' s)

unfoldable pub read_arguments : ℕ → Bytes → Option (List Bytes × Bytes)
read_arguments zero s = some ([], s)
read_arguments (suc n) s = elim (read_argument s) [
  | none ↦ none
  | some (a, rest) ↦ elim (read_arguments n rest) [
    | none ↦ none
    | some (args, end) ↦ some (a ∷ args, end)
  ]
]

abbrev pub command_of : Option (ℤ × Bytes) → Option (List Bytes × Bytes)
command_of none = none
command_of (some (negsuc n, s)) = none
command_of (some (pos n, s)) = read_arguments n s

unfoldable pub read_resp_command : Bytes → Option (List Bytes × Bytes)
read_resp_command s = command_of (read_header b'*' s)
