-- ===== src/Redis/Resp.antt =====
-- redis_resp.go: the wire format RESP2, as writeRespArgs prints a command and readRespReply reads a
-- reply. A bufio.Reader is the bytes that will arrive before the connection ends or times out;
-- reading past them is an I/O error. Memory is unbounded, but a Go slice holds at most 2 ^ 63 - 1 bytes.
pub mod Lines
pub mod Commands
pub mod Replies
use traefik_plugin.Base.{
  ℕ, zero, suc, ◌+◌, ◌-◌, ◌^◌, Bool, true, false, ◌&&◌, ◌||◌, not, Option, none, some, List, [],
  ◌∷◌, ◌++◌, Bytes, codes, cut, is_empty, length, ltb, leb, ◌==◌, if◌then◌else◌,
}
use traefik_plugin.Base.Int.{ℤ, pos, negsuc, format_nat}
use traefik_plugin.Base.Decimal.{max_int64, parse_int}

-- nil, a string or an int64.
pub data Reply : Type 0 where
  nil : Reply
  text : Bytes → Reply
  integer : ℤ → Reply

-- A reply, a redisReplyError, any other error, or a panic.
pub data Read : Type 0 where
  value : Reply → Read
  error_reply : Bytes → Read
  broken : Read
  panicked : Read

abbrev pub crlf : Bytes
crlf = 13 ∷ 10 ∷ []

-- One argument, as a bulk string.
unfoldable pub write_bulk : Bytes → Bytes → Bytes
write_bulk a rest = b'$' ∷ (format_nat (length a) ++ (crlf ++ (a ++ (crlf ++ rest))))

unfoldable pub write_bulks : List Bytes → Bytes → Bytes
write_bulks [] rest = rest
write_bulks (a ∷ args) rest = write_bulk a (write_bulks args rest)

unfoldable pub write_resp_args : List Bytes → Bytes
write_resp_args args = b'*' ∷ (format_nat (length args) ++ (crlf ++ write_bulks args []))

-- A line without its carriage return; none where that is missing.
unfoldable pub strip_cr : Bytes → Option Bytes
strip_cr [] = none
strip_cr (c ∷ []) = if c == 13 then some [] else none
strip_cr (c ∷ d ∷ s) = elim (strip_cr (d ∷ s)) [ none ↦ none | some body ↦ some (c ∷ body) ]

abbrev pub line_of : Bytes × Option Bytes → Option Bytes × Bytes
line_of (before, none) = (none, [])
line_of (before, some rest) = (strip_cr before, rest)

-- ReadBytes('\n') with the check of "\r\n", and what follows the line.
unfoldable pub read_line : Bytes → Option Bytes × Bytes
read_line s = line_of (cut s 10)

abbrev pub integer_of : Option ℤ → Read
integer_of none = broken
integer_of (some z) = value (integer z)

abbrev pub simple_of : ℕ → Option Bytes → Read
simple_of c none = broken
simple_of c (some body) =
    if c == b'-'
    then error_reply body
    else if c == b':'
    then integer_of (parse_int body)
    else value (text body)

-- io.ReadFull: the next n bytes and what follows them.
unfoldable pub read_full : ℕ → Bytes → Option (Bytes × Bytes)
read_full zero s = some ([], s)
read_full (suc n) [] = none
read_full (suc n) (c ∷ s) = elim (read_full n s) [
  | none ↦ none
  | some (front, rest) ↦ some (c ∷ front, rest)
]

-- buf[n], buf[n+1]
abbrev pub ends_line : Bytes → Bytes → Read
ends_line payload (a ∷ b ∷ []) =
    if not (a == 13) || not (b == 10) then broken else value (text payload)
ends_line payload _ = broken

-- buf[:n] and buf[n:] of the n + 2 bytes that were read.
abbrev pub payload_of : ℕ → Option (Bytes × Bytes) → Read × Bytes
payload_of n none = (broken, [])
payload_of n (some (buf, rest)) = elim (read_full n buf) [
  | none ↦ (broken, rest)
  | some (payload, end) ↦ (ends_line payload end, rest)
]

-- n + 2 is computed in int64: where it is negative, make panics, and where it is 0, buf[n] does.
unfoldable pub read_bulk : Option ℤ → Bytes → Read × Bytes
read_bulk none s = (broken, s)
read_bulk (some (negsuc zero)) s = (value nil, s)
read_bulk (some (negsuc (suc n))) s = (panicked, s)
read_bulk (some (pos n)) s =
    if leb (n + 2) max_int64 then payload_of n (read_full (n + 2) s) else (panicked, s)

abbrev pub bulk_length : Option Bytes → Option ℤ
bulk_length none = none
bulk_length (some body) = parse_int body

unfoldable pub read_resp_reply : Bytes → Read × Bytes
read_resp_reply [] = (broken, [])
read_resp_reply (c ∷ s) =
    let line = read_line s in
    if c == b'+' || c == b'-' || c == b':'
    then (simple_of c line.0, line.1)
    else if c == b'$'
    then read_bulk (bulk_length line.0) line.1
    else (broken, s)
