-- ===== src/Redis/Resp/Commands.antt =====
-- Commands as writeRespArgs prints them, and as the test server reads them.
use traefik_plugin.Base.{
  ℕ, suc, ◌+◌, ◌≤◌, true, some, List, [], ◌∷◌, ◌++◌, append_assoc, Bytes, length, All, ◌≡◌, ◌⊎◌,
  inl, inr, refl, ap, ◌∙◌, arith,
}
use traefik_plugin.Base.Int.{pos, format_nat}
use traefik_plugin.Base.Decimal.{all, is_digit, max_int64}
use traefik_plugin.Base.DecimalLaws.{format_nat-all_digits, parse_int-format_nat}
use traefik_plugin.Redis.Resp.{crlf, write_bulk, write_bulks, write_resp_args}
use traefik_plugin.Redis.Resp.Lines.{cut-line, format_nat-is_line, read_full-append, read_full-crlf}
use traefik_plugin.Redis.Server.{
  trim_crlf, trimmed_of, read_trimmed, header_number, header_of, read_header, argument_of, bulk_of,
  read_argument, read_arguments, command_of, read_resp_command,
}

trim_crlf-digits : (s : Bytes) → all is_digit s ≡ true → trim_crlf (s ++ crlf) ≡ s
unfolding trim_crlf
trim_crlf-digits [] h = refl
trim_crlf-digits (c ∷ s) h = ground (arith, trim_crlf-digits s)

trim_crlf-header :
    (mark n : ℕ)
    → (mark ≡ b'$') ⊎ (mark ≡ b'*')
    → trim_crlf (mark ∷ (format_nat n ++ crlf)) ≡ mark ∷ format_nat n
unfolding trim_crlf
trim_crlf-header mark n h =
    ground (arith, trim_crlf-digits (format_nat n) (format_nat-all_digits n))

-- A header is read back with its number.
read_header-format_nat :
    (mark n : ℕ) (rest : Bytes)
    → (mark ≡ b'$') ⊎ (mark ≡ b'*')
    → n ≤ max_int64
    → read_header mark (mark ∷ (format_nat n ++ (crlf ++ rest))) ≡ some (pos n, rest)
unfolding read_header read_trimmed header_number
read_header-format_nat mark n rest h fits =
    ap (λ x. header_of mark (trimmed_of x))
      (cut-line (mark ∷ format_nat n) rest (ground (arith, format_nat-is_line n)))
    ∙ rw (append_assoc (format_nat n) (13 ∷ []) (10 ∷ []), trim_crlf-header mark n h)
        (ground (arith, parse_int-format_nat n fits))

-- A Go string and the two bytes behind it fit in a slice.
abbrev pub Fits : Bytes → Type 0
Fits a = length a + 2 ≤ max_int64

read_argument-write_bulk :
    (a rest : Bytes) → Fits a → read_argument (write_bulk a rest) ≡ some (a, rest)
unfolding read_argument write_bulk
read_argument-write_bulk a rest fits =
    ap bulk_of (read_header-format_nat b'$' (length a) _ (inl refl) (omega (arith, fits)))
    ∙ rw (read_full-crlf a rest, argument_of, read_full-append a crlf)

read_arguments_step :
    (n : ℕ) (s a rest end : Bytes) (args : List Bytes)
    → read_argument s ≡ some (a, rest)
    → read_arguments n rest ≡ some (args, end)
    → read_arguments (suc n) s ≡ some (a ∷ args, end)
unfolding read_arguments
read_arguments_step n s a rest end args h k = ground arith

write_bulks-append :
    (args : List Bytes) (rest : Bytes) → write_bulks args [] ++ rest ≡ write_bulks args rest
unfolding write_bulks write_bulk
write_bulks-append [] rest = refl
write_bulks-append (a ∷ args) rest = simp (append_assoc, write_bulks-append args rest)

read_arguments-write_bulks :
    (args : List Bytes) (rest : Bytes)
    → All Fits args
    → read_arguments (length args) (write_bulks args rest) ≡ some (args, rest)
unfolding read_arguments write_bulks
read_arguments-write_bulks [] rest h = refl
read_arguments-write_bulks (a ∷ args) rest (fits, h) =
    read_arguments_step (length args) (write_bulk a (write_bulks args rest)) a
      (write_bulks args rest) rest args (read_argument-write_bulk a (write_bulks args rest) fits)
      (read_arguments-write_bulks args rest h)

-- Whatever bytes the arguments of a command hold, line breaks included, the server reads exactly
-- these arguments back, and what follows the command is left: no argument can smuggle in a command.
pub read_resp_command-write_resp_args :
    (args : List Bytes) (rest : Bytes)
    → length args ≤ max_int64
    → All Fits args
    → read_resp_command (write_resp_args args ++ rest) ≡ some (args, rest)
unfolding read_resp_command write_resp_args
read_resp_command-write_resp_args args rest few h =
    simp (append_assoc, write_bulks-append args rest)
      (ap command_of
          (read_header-format_nat b'*' (length args) (write_bulks args rest) (inr refl) few)
        ∙ read_arguments-write_bulks args rest h)
