-- ===== src/Base/Sort.antt =====
-- sort.Strings: the ascending order of byte strings, by insertion.
use traefik_plugin.Base.Tests.{ltb, ◌==◌, if◌then◌else◌}
use traefik_plugin.Base.Text.{Bytes}
use mathlib.Core.Bool.{Bool, true, false}
use mathlib.Core.List.{List, [], ◌∷◌}

unfoldable pub str_le : Bytes → Bytes → Bool
str_le [] t = true
str_le (x ∷ s) [] = false
str_le (x ∷ s) (y ∷ t) =
    let rest = str_le s t in if ltb x y then true else if x == y then rest else false

unfoldable pub insert_string : Bytes → List Bytes → List Bytes
insert_string a [] = a ∷ []
insert_string a (b ∷ bs) =
    let rest = insert_string a bs in if str_le a b then a ∷ b ∷ bs else b ∷ rest

unfoldable pub sort_strings : List Bytes → List Bytes
unfolding insert_string str_le
sort_strings [] = []
sort_strings (a ∷ l) = insert_string a (sort_strings l)
