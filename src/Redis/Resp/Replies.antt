-- ===== src/Redis/Resp/Replies.antt =====
-- Replies as a server prints them in RESP2, and as readRespReply reads them.
use traefik_plugin.Base.{
  ℕ, suc, ◌+◌, ◌≤◌, true, some, ◌∷◌, ◌++◌, Bytes, length, ◌≡◌, ◌⊎◌, inl, inr, refl, ap, ◌∙◌, arith,
}
use traefik_plugin.Base.Int.{ℤ, pos, negsuc, format_nat, format_int}
use traefik_plugin.Base.Decimal.{max_int64, IsInt64}
use traefik_plugin.Base.DecimalLaws.{parse_int-format_int}
use traefik_plugin.Redis.Resp.{
  nil, text, integer, Read, value, error_reply, panicked, crlf, simple_of, integer_of, payload_of,
  read_bulk, read_resp_reply,
}
use traefik_plugin.Redis.Resp.Lines.{
  is_line, format_int-is_line, read_line-line, read_full-append, read_full-crlf,
}

-- The replies of RESP2 that are not arrays.
pub data ServerReply : Type 0 where
  status : Bytes → ServerReply
  failure : Bytes → ServerReply
  number : ℤ → ServerReply
  bulk : Bytes → ServerReply
  missing : ServerReply

unfoldable pub print_reply : ServerReply → Bytes → Bytes
print_reply (status s) rest = b'+' ∷ (s ++ (crlf ++ rest))
print_reply (failure s) rest = b'-' ∷ (s ++ (crlf ++ rest))
print_reply (number z) rest = b':' ∷ (format_int z ++ (crlf ++ rest))
print_reply (bulk s) rest = b'$' ∷ (format_nat (length s) ++ (crlf ++ (s ++ (crlf ++ rest))))
print_reply missing rest = b'$' ∷ (format_int (negsuc 0) ++ (crlf ++ rest))

-- A status and an error are single lines, a number is an int64, a bulk string has a length.
abbrev pub IsPrintable : ServerReply → Type 0
IsPrintable (status s) = is_line s ≡ true
IsPrintable (failure s) = is_line s ≡ true
IsPrintable (number z) = IsInt64 z
IsPrintable (bulk s) = length s + 2 ≤ max_int64
IsPrintable missing = Unit

abbrev pub meaning : ServerReply → Read
meaning (status s) = value (text s)
meaning (failure s) = error_reply s
meaning (number z) = value (integer z)
meaning (bulk s) = value (text s)
meaning missing = value nil

read_simple :
    (c : ℕ) (body rest : Bytes)
    → (c ≡ b'+') ⊎ (c ≡ b'-') ⊎ (c ≡ b':')
    → is_line body ≡ true
    → read_resp_reply (c ∷ (body ++ (crlf ++ rest))) ≡ (simple_of c (some body), rest)
unfolding read_resp_reply
read_simple c body rest h line = ground (arith, read_line-line body rest line)

read_dollar :
    (z : ℤ) (rest : Bytes)
    → IsInt64 z
    → read_resp_reply (b'$' ∷ (format_int z ++ (crlf ++ rest))) ≡ read_bulk (some z) rest
unfolding read_resp_reply
read_dollar z rest h =
    rw (read_line-line (format_int z) rest (format_int-is_line z))
      (ap (λ n. read_bulk n rest) (parse_int-format_int z h))

payload_of_whole :
    (s rest : Bytes) → payload_of (length s) (some (s ++ crlf, rest)) ≡ (value (text s), rest)
payload_of_whole s rest = rw (payload_of, read_full-append s crlf)

read_bulk-payload :
    (s rest : Bytes)
    → length s + 2 ≤ max_int64
    → read_bulk (some (pos (length s))) (s ++ (crlf ++ rest)) ≡ (value (text s), rest)
unfolding read_bulk
read_bulk-payload s rest h = ground (arith, read_full-crlf s rest, payload_of_whole s rest)

-- Every reply that a server prints is read back as what it means, and what follows it is left for
-- the next command, whatever bytes a bulk string holds.
pub read_resp_reply-print_reply :
    (r : ServerReply) (rest : Bytes)
    → IsPrintable r
    → read_resp_reply (print_reply r rest) ≡ (meaning r, rest)
unfolding print_reply format_int
read_resp_reply-print_reply (status s) rest h = read_simple b'+' s rest (inl refl) h
read_resp_reply-print_reply (failure s) rest h = read_simple b'-' s rest (inr (inl refl)) h
read_resp_reply-print_reply (number z) rest h =
    read_simple b':' (format_int z) rest (inr (inr refl)) (format_int-is_line z)
    ∙ ap (λ n. (integer_of n, rest)) (parse_int-format_int z h)
read_resp_reply-print_reply (bulk s) rest h =
    read_dollar (pos (length s)) _ (omega (arith, h)) ∙ read_bulk-payload s rest h
read_resp_reply-print_reply missing rest h =
    read_dollar (negsuc 0) rest (omega arith) ∙ (unfold read_bulk in refl)

-- A bulk reply whose length is an int64 below -1 makes the client panic.
pub read_resp_reply_panics :
    (n : ℕ) (rest : Bytes)
    → suc n ≤ max_int64
    → read_resp_reply (b'$' ∷ (format_int (negsuc (suc n)) ++ (crlf ++ rest))) ≡ (panicked, rest)
unfolding read_bulk
read_resp_reply_panics n rest h = read_dollar (negsuc (suc n)) rest h
