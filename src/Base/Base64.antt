-- ===== src/Base/Base64.antt =====
-- base64.RawURLEncoding.DecodeString: the URL alphabet without padding. Line breaks are skipped,
-- and the unused bits of the last character are not examined.
use Prim.Native.Nat.{ℕ, ◌+◌, ◌-◌, ◌*◌, ◌/◌, ◌%◌}
use mathlib.Core.Bool.{◌&&◌, ◌||◌}
use mathlib.Core.Option.{Option, none, some}
use mathlib.Core.List.{[], ◌∷◌}
use traefik_plugin.Base.Tests.{leb, ◌==◌, if◌then◌else◌}
use traefik_plugin.Base.Text.{Bytes}

sextet : ℕ → Option ℕ
sextet c =
    if leb b'A' c && leb c b'Z'
    then some (c - 65)
    else if leb b'a' c && leb c b'z'
    then some (c - 71)
    else if leb b'0' c && leb c b'9'
    then some (c + 4)
    else if c == b'-'
    then some 62
    else if c == b'_'
    then some 63
    else none

sextets : Bytes → Option Bytes
unfolding sextet
sextets [] = some []
sextets (c ∷ s) =
    let rest = sextets s in
    if c == 10 || c == 13 then rest else elim (sextet c) [
      | none ↦ none
      | some v ↦ elim rest [ none ↦ none | some vs ↦ some (v ∷ vs) ]
    ]

-- Four characters are three bytes; two or three left over are one or two, and one is an error.
regroup : Bytes → Option Bytes
regroup [] = some []
regroup (a ∷ []) = none
regroup (a ∷ b ∷ []) = some ((a * 4 + b / 16) ∷ [])
regroup (a ∷ b ∷ c ∷ []) = some ((a * 4 + b / 16) ∷ (b % 16 * 16 + c / 4) ∷ [])
regroup (a ∷ b ∷ c ∷ d ∷ s) = elim (regroup s) [
  | none ↦ none
  | some bytes ↦ some ((a * 4 + b / 16) ∷ (b % 16 * 16 + c / 4) ∷ (c % 4 * 64 + d) ∷ bytes)
]

unfoldable pub decode_raw_url : Bytes → Option Bytes
unfolding sextets regroup
decode_raw_url s = elim (sextets s) [ none ↦ none | some vs ↦ regroup vs ]
