-- ===== src/Jwt/UserId.antt =====
-- numericUserID, isPositiveInt and deriveUserID of jwt.go.
use traefik_plugin.Base.{ℕ, ◌≤◌, some, true, Bytes, ◌≡◌, arith}
use traefik_plugin.Base.Int.{pos, format_nat}
use traefik_plugin.Base.Decimal.{max_int64, decimal, parse_int}
use traefik_plugin.Base.DecimalLaws.{
  decimal-format_nat, format_nat-nonempty, format_nat-length, format_nat-all_digits,
  parse_int-digits,
}
use traefik_plugin.Jwt.{is_positive_int, derive_user_id, numeric_user_id}

-- The derived id is a positive int64, whatever the subject.
pub derive_user_id_bounds :
    (sub : Bytes) → (1 ≤ derive_user_id sub) × (derive_user_id sub ≤ max_int64)
unfolding derive_user_id
derive_user_id_bounds sub = ground arith

-- The decimal print of a positive int64 is recognised as one.
pub is_positive_int-format_nat :
    (n : ℕ) → 1 ≤ n → n ≤ max_int64 → is_positive_int (format_nat n) ≡ true
unfolding is_positive_int
is_positive_int-format_nat n lo hi = ground (
  arith,
  format_nat-nonempty n,
  format_nat-length n hi,
  format_nat-all_digits n,
  decimal-format_nat n,
)

pub numeric_user_id-positive :
    (claim_value sub : Bytes) → is_positive_int (numeric_user_id claim_value sub) ≡ true
unfolding numeric_user_id
numeric_user_id-positive claim_value sub =
    let (lo, hi) = derive_user_id_bounds sub in
    ground (arith, is_positive_int-format_nat (derive_user_id sub) lo hi)

-- A text that is recognised spells a positive int64.
is_positive_int-parse_int :
    (s : Bytes)
    → is_positive_int s ≡ true
    → (n : ℕ) × (parse_int s ≡ some (pos n)) × (1 ≤ n) × (n ≤ max_int64)
unfolding is_positive_int
is_positive_int-parse_int s h = (
  decimal 0 s,
  parse_int-digits s (ground arith) (ground arith) (ground arith),
  ground arith,
  ground arith,
)

-- The user id of a caller is always a text that strconv.ParseInt reads as an int64 of at least 1,
-- whatever the claim and the subject are.
pub numeric_user_id-parse_int :
    (claim_value sub : Bytes)
    → (n : ℕ) × (parse_int (numeric_user_id claim_value sub) ≡ some (pos n))
      × (1 ≤ n)
      × (n ≤ max_int64)
numeric_user_id-parse_int claim_value sub =
    is_positive_int-parse_int (numeric_user_id claim_value sub)
      (numeric_user_id-positive claim_value sub)
