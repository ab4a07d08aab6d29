-- ===== src/Redis/Resp/Lines.antt =====
-- Lines and counted bytes as the reader of redis_resp.go takes them off the input.
use traefik_plugin.Base.{
  ℕ, suc, ◌+◌, Bool, true, not, some, [], ◌∷◌, ◌++◌, Bytes, cut, length, ◌==◌, ◌≡◌, refl, ap, ◌∙◌,
  arith,
}
use traefik_plugin.Base.Int.{ℤ, pos, negsuc, format_nat, format_int}
use traefik_plugin.Base.Decimal.{all, is_digit}
use traefik_plugin.Base.DecimalLaws.{format_nat-all_digits}
use traefik_plugin.Redis.Resp.{crlf, strip_cr, line_of, read_line, read_full}

-- No line feed.
abbrev pub is_line : Bytes → Bool
is_line body = all (λ c. not (c == 10)) body

pub digits-is_line : (s : Bytes) → all is_digit s ≡ true → is_line s ≡ true
digits-is_line [] h = refl
digits-is_line (c ∷ s) h = ground (arith, digits-is_line s)

pub format_nat-is_line : (n : ℕ) → is_line (format_nat n) ≡ true
format_nat-is_line n = digits-is_line (format_nat n) (format_nat-all_digits n)

pub format_int-is_line : (z : ℤ) → is_line (format_int z) ≡ true
unfolding format_int
format_int-is_line (pos n) = format_nat-is_line n
format_int-is_line (negsuc n) = format_nat-is_line (suc n)

pub cut-line :
    (body rest : Bytes)
    → is_line body ≡ true
    → cut (body ++ 13 ∷ 10 ∷ rest) 10 ≡ (body ++ 13 ∷ [], some rest)
unfolding cut
cut-line [] rest h = refl
cut-line (c ∷ body) rest h = ground (arith, cut-line body rest)

strip_cr-append : (body : Bytes) → strip_cr (body ++ 13 ∷ []) ≡ some body
unfolding strip_cr
strip_cr-append [] = refl
strip_cr-append (c ∷ []) = refl
strip_cr-append (c ∷ d ∷ body) = ground (arith, strip_cr-append (d ∷ body))

-- A line is read whole, up to its line break.
pub read_line-line :
    (body rest : Bytes)
    → is_line body ≡ true
    → read_line (body ++ (crlf ++ rest)) ≡ (some body, rest)
unfolding read_line
read_line-line body rest h = ap line_of (cut-line body rest h) ∙ rw (strip_cr-append body)

-- The next bytes are read whole.
pub read_full-append : (a rest : Bytes) → read_full (length a) (a ++ rest) ≡ some (a, rest)
unfolding read_full
read_full-append [] rest = refl
read_full-append (c ∷ a) rest = ground (arith, read_full-append a rest)

-- Counted bytes are read together with the line break behind them.
pub read_full-crlf :
    (a rest : Bytes) → read_full (length a + 2) (a ++ (crlf ++ rest)) ≡ some (a ++ crlf, rest)
unfolding read_full
read_full-crlf [] rest = refl
read_full-crlf (c ∷ a) rest = ground (arith, read_full-crlf a rest)
