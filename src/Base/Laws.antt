-- ===== src/Base/Laws.antt =====
-- Laws of the shared definitions.
use Prim.Native.Nat.{ℕ}
use mathlib.Core.Path.{◌≡◌, refl, ap, sym, ◌∙◌, subst}
use mathlib.Core.Logic.{◌↔◌, inl, inr}
use mathlib.Core.Bool.{Bool, true, false, ◌&&◌, ◌||◌}
use mathlib.Core.List.{List, [], ◌∷◌, ◌++◌, reverse, reverse-append, reverse-reverse}
use native.Mathlib.Omega.{arith}
use traefik_plugin.Base.Tests.{◌==◌, ==_iff}
use traefik_plugin.Base.Lists.{any, Some, In}
use traefik_plugin.Base.Text.{Bytes, str_eq, has_prefix, has_suffix, drop_last}

pub and_parts : (a b : Bool) → (a && b) ≡ true → (a ≡ true) × (b ≡ true)
and_parts true b h = (refl, h)
and_parts false b h = cc

pub str_eq_iff : (s t : Bytes) → (str_eq s t ≡ true) ↔ (s ≡ t)
unfolding str_eq
str_eq_iff [] [] = ((λ _. refl), (λ _. refl))
str_eq_iff [] (y ∷ ys) = ((λ h. cc), (λ h. cc))
str_eq_iff (x ∷ xs) [] = ((λ h. cc), (λ h. cc))
str_eq_iff (x ∷ xs) (y ∷ ys) = ground (arith, str_eq_iff xs ys)

pub str_eq_refl : (s : Bytes) → str_eq s s ≡ true
str_eq_refl s = (str_eq_iff s s).1 refl

module _ {ℓ} {A : Type ℓ} {P : A → Type 0} (p : A → Bool) where
  -- The Boolean search decides the existence of an element with the property that its test decides.
  pub any_iff : ((a : A) → (p a ≡ true) ↔ P a) → (xs : List A) → (any p xs ≡ true) ↔ Some P xs
  any_iff h [] = ((λ e. cc), (λ e. elim e [ ]))
  any_iff h (x ∷ xs) = grind (arith, h x, any_iff h xs)

module _ {ℓ} {A : Type ℓ} (p : A → Bool) where
  pub any-append : (xs ys : List A) → any p (xs ++ ys) ≡ (any p xs || any p ys)
  any-append [] ys = refl
  any-append (x ∷ xs) ys = ground (arith, any-append xs ys)

pub has_prefix_append : (p r : Bytes) → has_prefix (p ++ r) p ≡ true
unfolding has_prefix
has_prefix_append [] r = refl
has_prefix_append (c ∷ p) r = ground (arith, has_prefix_append p r)

has_prefix_split : (s p : Bytes) → has_prefix s p ≡ true → (r : Bytes) × (s ≡ p ++ r)
unfolding has_prefix
has_prefix_split s [] h = (s, refl)
has_prefix_split [] (c ∷ p) h = cc
has_prefix_split (a ∷ s) (c ∷ p) h =
    let (same, h') = and_parts (a == c) (has_prefix s p) h in
    let (r, e) = has_prefix_split s p h' in (r, cc ((==_iff a c).0 same))

-- A text has a prefix exactly when it is the prefix with something behind it.
pub has_prefix_iff : (s p : Bytes) → (has_prefix s p ≡ true) ↔ ((r : Bytes) × (s ≡ p ++ r))
has_prefix_iff s p = (has_prefix_split s p, λ h. rw h.1 (has_prefix_append p h.0))

pub has_suffix_iff : (s p : Bytes) → (has_suffix s p ≡ true) ↔ ((r : Bytes) × (s ≡ r ++ p))
unfolding has_suffix
has_suffix_iff s p = (
  (λ h.
      let (r, e) = has_prefix_split (reverse s) (reverse p) h in
      (
        reverse r,
        sym (reverse-reverse s)
            ∙ ap reverse e
            ∙ reverse-append (reverse p) r
            ∙ ap (λ q. reverse r ++ q) (reverse-reverse p),
      )),
  (λ h. rw (h.1, reverse-append h.0 p) (has_prefix_append (reverse p) (reverse h.0))),
)

pub drop_last-append : (s : Bytes) (c : ℕ) → drop_last (s ++ c ∷ []) ≡ s
unfolding drop_last
drop_last-append [] c = refl
drop_last-append (a ∷ []) c = refl
drop_last-append (a ∷ b ∷ s) c = ap (λ t. a ∷ t) (drop_last-append (b ∷ s) c)

pub Some-map :
    {A : Type 0} {P Q : A → Type 0} → ((a : A) → P a → Q a) → (xs : List A) → Some P xs → Some Q xs
Some-map f (x ∷ xs) (inl p) = inl (f x p)
Some-map f (x ∷ xs) (inr h) = inr (Some-map f xs h)
Some-map f [] h = elim h [ ]

pub Some-intro : {A : Type 0} (P : A → Type 0) (xs : List A) (a : A) → In a xs → P a → Some P xs
Some-intro P (x ∷ xs) a (inl e) h = inl (subst P e h)
Some-intro P (x ∷ xs) a (inr m) h = inr (Some-intro P xs a m h)
Some-intro P [] a m h = absurd m
