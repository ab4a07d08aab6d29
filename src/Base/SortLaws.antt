-- ===== src/Base/SortLaws.antt =====
-- The laws of sort.Strings.
use traefik_plugin.Base.Tests.{Bool-cases}
use traefik_plugin.Base.Lists.{In, All}
use traefik_plugin.Base.Text.{Bytes}
use traefik_plugin.Base.Sort.{str_le, insert_string, sort_strings}
use mathlib.Core.Bool.{true, false}
use mathlib.Core.List.{List, [], ◌∷◌}
use mathlib.Core.Path.{◌≡◌, refl}
use mathlib.Core.Logic.{◌⊎◌, ◌↔◌, inl, inr}
use native.Mathlib.Omega.{arith}

-- Every string is at most those behind it.
abbrev pub IsAscending : List Bytes → Type 0
IsAscending [] = Unit
IsAscending (a ∷ l) = All (λ b. str_le a b ≡ true) l × IsAscending l

str_le-total : (s t : Bytes) → str_le s t ≡ false → str_le t s ≡ true
unfolding str_le
str_le-total [] t h = cc
str_le-total (x ∷ s) [] h = refl
str_le-total (x ∷ s) (y ∷ t) h = ground (arith, str_le-total s t)

str_le_trans : (s t u : Bytes) → str_le s t ≡ true → str_le t u ≡ true → str_le s u ≡ true
unfolding str_le
str_le_trans [] t u h k = refl
str_le_trans (x ∷ s) [] u h k = cc
str_le_trans (x ∷ s) (y ∷ t) [] h k = cc
str_le_trans (x ∷ s) (y ∷ t) (z ∷ u) h k = ground (arith, str_le_trans s t u)

All-le :
    (a b : Bytes) (l : List Bytes)
    → str_le a b ≡ true
    → All (λ c. str_le b c ≡ true) l
    → All (λ c. str_le a c ≡ true) l
All-le a b [] h k = tt
All-le a b (c ∷ l) h (k, ks) = (str_le_trans a b c h k, All-le a b l h ks)

All-insert_string :
    (P : Bytes → Type 0) (a : Bytes) (l : List Bytes) → P a → All P l → All P (insert_string a l)
unfolding insert_string
All-insert_string P a [] p h = (p, tt)
All-insert_string P a (b ∷ l) p h = ground (arith, All-insert_string P a l p h.1)

insert_string-IsAscending :
    (a : Bytes) (l : List Bytes) → IsAscending l → IsAscending (insert_string a l)
unfolding insert_string
insert_string-IsAscending a [] h = (tt, tt)
insert_string-IsAscending a (b ∷ l) (h, k) = elim (Bool-cases (str_le a b)) [
  | inl le ↦ rw le ((le, All-le a b l le h), (h, k))
  | inr gt ↦
      rw gt (All-insert_string _ a l (str_le-total a b gt) h, insert_string-IsAscending a l k)
]

pub insert_string-In :
    (a x : Bytes) (l : List Bytes) → In x (insert_string a l) ↔ ((x ≡ a) ⊎ In x l)
unfolding insert_string
insert_string-In a x [] = ground arith
insert_string-In a x (b ∷ l) = ground (arith, insert_string-In a x l)

pub sort_strings-IsAscending : (l : List Bytes) → IsAscending (sort_strings l)
unfolding sort_strings
sort_strings-IsAscending [] = tt
sort_strings-IsAscending (a ∷ l) =
    insert_string-IsAscending a (sort_strings l) (sort_strings-IsAscending l)

pub sort_strings-In : (x : Bytes) (l : List Bytes) → In x (sort_strings l) ↔ In x l
unfolding sort_strings
sort_strings-In x [] = ground arith
sort_strings-In x (a ∷ l) =
    ground (arith, insert_string-In a x (sort_strings l), sort_strings-In x l)
