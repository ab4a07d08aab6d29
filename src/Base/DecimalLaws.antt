-- ===== src/Base/DecimalLaws.antt =====
-- The decimal print of integers and what strconv reads of it.
use Prim.Native.Nat.{ℕ, zero, suc, ◌+◌, ◌/◌, ◌%◌, ◌^◌, ◌≤◌, ◌<◌}
use mathlib.Core.Path.{◌≡◌, refl}
use mathlib.Core.Bool.{true, false}
use mathlib.Core.Option.{some}
use mathlib.Core.List.{[], ◌∷◌}
use native.Mathlib.Nat.{pow-suc}
use native.Mathlib.Omega.{arith}
use traefik_plugin.Base.Lists.{length, is_empty}
use traefik_plugin.Base.Text.{Bytes}
use traefik_plugin.Base.Int.{ℤ, pos, negsuc, digits_from, format_nat, format_int}
use traefik_plugin.Base.Decimal.{max_int64, IsInt64, is_digit, all, decimal, parse_int}

-- Reading the digits of n before a text reads the text behind n.
decimal-digits_from :
    (fuel n : ℕ) (out : Bytes) → n < fuel → decimal 0 (digits_from fuel n out) ≡ decimal n out
unfolding decimal digits_from
decimal-digits_from zero n out h = absurd (omega arith)
decimal-digits_from (suc fuel) n out h =
    ground (arith, decimal-digits_from fuel (n / 10) ((b'0' + n % 10) ∷ out))

-- A decimal print is read back.
pub decimal-format_nat : (n : ℕ) → decimal 0 (format_nat n) ≡ n
unfolding format_nat decimal
decimal-format_nat n = decimal-digits_from (suc n) n [] (omega arith)

all_digits-digits_from :
    (fuel n : ℕ) (out : Bytes)
    → all is_digit out ≡ true
    → all is_digit (digits_from fuel n out) ≡ true
unfolding digits_from
all_digits-digits_from zero n out h = h
all_digits-digits_from (suc fuel) n out h =
    ground (arith, all_digits-digits_from fuel (n / 10) ((b'0' + n % 10) ∷ out))

-- n < 10 ^ (k + 1) has at most k + 1 digits.
length-digits_from :
    (k fuel n : ℕ) (out : Bytes)
    → n < 10 ^ suc k
    → length (digits_from fuel n out) ≤ suc k + length out
unfolding digits_from
length-digits_from k zero n out h = omega arith
length-digits_from zero (suc fuel) n out h = ground arith
length-digits_from (suc k) (suc fuel) n out h =
    ground (arith, pow-suc 10 (suc k), length-digits_from k fuel (n / 10) ((b'0' + n % 10) ∷ out))

digits_from-nonempty :
    (fuel n : ℕ) (out : Bytes) → is_empty out ≡ false → is_empty (digits_from fuel n out) ≡ false
unfolding digits_from
digits_from-nonempty zero n out h = h
digits_from-nonempty (suc fuel) n out h =
    ground (arith, digits_from-nonempty fuel (n / 10) ((b'0' + n % 10) ∷ out))

pub format_nat-nonempty : (n : ℕ) → is_empty (format_nat n) ≡ false
unfolding format_nat digits_from
format_nat-nonempty n = ground (arith, digits_from-nonempty n (n / 10) ((b'0' + n % 10) ∷ []))

pub format_nat-length : (n : ℕ) → n ≤ max_int64 → length (format_nat n) ≤ 19
unfolding format_nat
format_nat-length n h = length-digits_from 18 (suc n) n [] (omega arith)

pub format_nat-all_digits : (n : ℕ) → all is_digit (format_nat n) ≡ true
unfolding format_nat
format_nat-all_digits n = all_digits-digits_from (suc n) n [] refl

pub parse_int-digits :
    (s : Bytes)
    → is_empty s ≡ false
    → all is_digit s ≡ true
    → decimal 0 s ≤ max_int64
    → parse_int s ≡ some (pos (decimal 0 s))
unfolding parse_int decimal
parse_int-digits [] h k m = cc
parse_int-digits (c ∷ s) h k m = ground arith

parse_int-minus :
    (s : Bytes) (n : ℕ)
    → is_empty s ≡ false
    → all is_digit s ≡ true
    → decimal 0 s ≡ suc n
    → n ≤ max_int64
    → parse_int (b'-' ∷ s) ≡ some (negsuc n)
unfolding parse_int
parse_int-minus s n h k e m = ground arith

-- An int64 is read back from its decimal print.
pub parse_int-format_int : (z : ℤ) → IsInt64 z → parse_int (format_int z) ≡ some z
unfolding format_int
parse_int-format_int (pos n) h = ground (
  arith,
  parse_int-digits (format_nat n),
  format_nat-nonempty n,
  format_nat-all_digits n,
  decimal-format_nat n,
)
parse_int-format_int (negsuc n) h =
    parse_int-minus (format_nat (suc n)) n (format_nat-nonempty (suc n))
      (format_nat-all_digits (suc n)) (decimal-format_nat (suc n)) h

pub parse_int-format_nat : (n : ℕ) → n ≤ max_int64 → parse_int (format_nat n) ≡ some (pos n)
unfolding format_int
parse_int-format_nat n h = parse_int-format_int (pos n) h
