-- ===== src/Base/Decimal.antt =====
-- strconv.Atoi and strconv.ParseInt in base 10, on int64, and the ranges of int64.
use Prim.Native.Nat.{ℕ, ◌+◌, ◌-◌, ◌*◌, ◌^◌, ◌≤◌}
use mathlib.Core.Bool.{Bool, true, false, ◌&&◌, ◌||◌, not}
use mathlib.Core.List.{List, [], ◌∷◌}
use mathlib.Core.Option.{Option, none, some}
use traefik_plugin.Base.Tests.{leb, ◌==◌, if◌then◌else◌}
use traefik_plugin.Base.Lists.{is_empty}
use traefik_plugin.Base.Text.{Bytes}
use traefik_plugin.Base.Int.{ℤ, pos, negsuc, neg}

abbrev pub max_int64 : ℕ
max_int64 = 2 ^ 63 - 1

-- The integers that an int64 holds.
abbrev pub IsInt64 : ℤ → Type 0
IsInt64 (pos n) = n ≤ max_int64
IsInt64 (negsuc n) = n ≤ max_int64

abbrev pub is_digit : ℕ → Bool
is_digit c = leb b'0' c && leb c b'9'

abbrev pub all {ℓ} : {A : Type ℓ} → (A → Bool) → List A → Bool
all p [] = true
all p (x ∷ xs) = p x && all p xs

-- The number that decimal digits spell behind n.
unfoldable pub decimal : ℕ → Bytes → ℕ
decimal n [] = n
decimal n (c ∷ s) = decimal (n * 10 + (c - b'0')) s

abbrev pub at_most : ℕ → ℕ → ℤ → Option ℤ
at_most n bound z = if leb n bound then some z else none

-- The integer that the digits and the sign spell, if it is one of an int64.
abbrev pub signed : Bool → Bytes → Option ℤ
signed negative s =
    let n = decimal 0 s in
    if is_empty s || not (all is_digit s)
    then none
    else if negative
    then at_most n (2 ^ 63) (neg n)
    else at_most n max_int64 (pos n)

unfoldable pub parse_int : Bytes → Option ℤ
unfolding decimal
parse_int [] = none
parse_int (c ∷ s) =
    if c == b'-' then signed true s else if c == b'+' then signed false s else signed false (c ∷ s)
