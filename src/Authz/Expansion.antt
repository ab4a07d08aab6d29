-- ===== src/Authz/Expansion.antt =====
-- permissionsByApp, the table that GET /api/_iam/me returns.
use traefik_plugin.Base.{
  Option, none, some, List, [], ◌∷◌, Bytes, str_eq, str_eq_iff, str_eq_refl, is_empty, In, ◌≡◌, ◌⊎◌,
  ◌↔◌, inl, inr, refl, arith, if◌then◌else◌, Bool-cases, sym, ◌∙◌, subst, or_else, or_else-none,
}
use mathlib.Core.Option.{some-injective}
use traefik_plugin.Base.Sort.{str_le, insert_string, sort_strings}
use traefik_plugin.Base.SortLaws.{
  IsAscending, sort_strings-IsAscending, insert_string-In, sort_strings-In,
}
use traefik_plugin.Authz.{
  Statement, Principal, contains, covers_app, add_seen, add_all, seen_actions, put, expand,
  permissions_by_app,
}
use traefik_plugin.Authz.Resolve.{contains_iff}
use traefik_plugin.Authz.Qualify.{Distinct}
use traefik_plugin.Authz.Grants.{Holds, covers_app_iff}

pub add_seen-In : (seen : List Bytes) (x a : Bytes) → In a (add_seen seen x) ↔ ((a ≡ x) ⊎ In a seen)
add_seen-In seen x a = elim (Bool-cases (contains seen x)) [
  | inl old ↦ rw old (
    inr,
    elim [ inl e ↦ subst (λ y. In y seen) (sym e) ((contains_iff seen x).0 old) | inr m ↦ m ],
  )
  | inr new ↦ rw new ((λ m. m), (λ m. m))
]

add_seen-Distinct : (seen : List Bytes) (x : Bytes) → Distinct seen → Distinct (add_seen seen x)
add_seen-Distinct seen x d = elim (Bool-cases (contains seen x)) [
  | inl old ↦ rw old d
  | inr new ↦ rw new ((λ m. cc ((contains_iff seen x).1 m)), d)
]

add_all-In : (xs seen : List Bytes) (a : Bytes) → In a (add_all xs seen) ↔ (In a xs ⊎ In a seen)
unfolding add_all
add_all-In [] seen a = ground arith
add_all-In (x ∷ xs) seen a = ground (arith, add_all-In xs (add_seen seen x) a, add_seen-In seen x a)

add_all-Distinct : (xs seen : List Bytes) → Distinct seen → Distinct (add_all xs seen)
unfolding add_all
add_all-Distinct [] seen d = d
add_all-Distinct (x ∷ xs) seen d =
    add_all-Distinct xs (add_seen seen x) (add_seen-Distinct seen x d)

seen_actions-In :
    (ss : List Statement) (app home : Bytes) (seen : List Bytes) (a : Bytes)
    → In a (seen_actions ss app home seen) ↔ (Holds (λ x. a ≡ x) ss app home ⊎ In a seen)
unfolding seen_actions
seen_actions-In [] app home seen a = ground arith
seen_actions-In (s ∷ ss) app home seen a = ground (
  arith,
  covers_app_iff s app home,
  seen_actions-In ss app home seen a,
  seen_actions-In ss app home (add_all s.actions seen) a,
  add_all-In s.actions seen a,
)

seen_actions-Distinct :
    (ss : List Statement) (app home : Bytes) (seen : List Bytes)
    → Distinct seen
    → Distinct (seen_actions ss app home seen)
unfolding seen_actions
seen_actions-Distinct [] app home seen d = d
seen_actions-Distinct (s ∷ ss) app home seen d = elim (Bool-cases (covers_app s app home)) [
  | inl e ↦ rw e (seen_actions-Distinct ss app home _ (add_all-Distinct s.actions seen d))
  | inr e ↦ rw e (seen_actions-Distinct ss app home seen d)
]

insert_string-Distinct :
    (a : Bytes) (l : List Bytes) → ¬ In a l → Distinct l → Distinct (insert_string a l)
unfolding insert_string
insert_string-Distinct a [] h d = (h, d)
insert_string-Distinct a (b ∷ l) h (fresh, d) = elim (Bool-cases (str_le a b)) [
  | inl le ↦ rw le (h, (fresh, d))
  | inr gt ↦ rw gt (
    (λ m. elim ((insert_string-In a b l).0 m) [ inl e ↦ h (inl (sym e)) | inr old ↦ fresh old ]),
    insert_string-Distinct a l (λ m. h (inr m)) d,
  )
]

sort_strings-Distinct : (l : List Bytes) → Distinct l → Distinct (sort_strings l)
unfolding sort_strings
sort_strings-Distinct [] d = d
sort_strings-Distinct (a ∷ l) (fresh, d) =
    insert_string-Distinct a (sort_strings l) (λ m. fresh ((sort_strings-In a l).0 m))
      (sort_strings-Distinct l d)

-- What the table holds for one application.
abbrev listing : Principal → Bytes → Option (List Bytes)
listing p app =
    if is_empty (seen_actions p.statements app p.home_app [])
    then none
    else some (sort_strings (seen_actions p.statements app p.home_app []))

abbrev with_listing :
    Principal → Bytes → (Bytes → Option (List Bytes)) → Bytes → Option (List Bytes)
with_listing p x out =
    let seen = seen_actions p.statements x p.home_app [] in
    if is_empty seen then out else put out x (sort_strings seen)

with_listing_self :
    (p : Principal) (x : Bytes) (out : Bytes → Option (List Bytes))
    → with_listing p x out x ≡ or_else (listing p x) (out x)
with_listing_self p x out =
    elim (Bool-cases (is_empty (seen_actions p.statements x p.home_app []))) [
      | inl e ↦ rw e
      | inr e ↦ rw (e, str_eq_refl)
    ]

with_listing_lem :
    (p : Principal) (x : Bytes) (out : Bytes → Option (List Bytes)) (app : Bytes)
    → with_listing p x out app
      ≡ (if str_eq app x then or_else (listing p app) (out app) else out app)
with_listing_lem p x out app = elim (Bool-cases (str_eq app x)) [
  | inl e ↦ rw e (
      subst (λ y. with_listing p x out y ≡ or_else (listing p y) (out y))
        (sym ((str_eq_iff app x).0 e)) (with_listing_self p x out))
  | inr e ↦ elim (Bool-cases (is_empty (seen_actions p.statements x p.home_app []))) [
    | inl z ↦ rw (e, z)
    | inr z ↦ rw (e, z) (ground (arith, str_eq_iff app x, str_eq_iff x app))
  ]
]

expand_lem :
    (p : Principal) (apps : List Bytes) (out : Bytes → Option (List Bytes)) (app : Bytes)
    → expand p apps out app
      ≡ (if contains apps app then or_else (listing p app) (out app) else out app)
unfolding expand
expand_lem p [] out app = refl
expand_lem p (x ∷ apps) out app =
    ground (arith, expand_lem p apps (with_listing p x out) app, with_listing_lem p x out app)

permissions_by_app-listing :
    (p : Principal) (apps : List Bytes) (app : Bytes)
    → permissions_by_app (some p) apps app ≡ (if contains apps app then listing p app else none)
unfolding permissions_by_app
permissions_by_app-listing p apps app =
    ground (arith, expand_lem p apps (λ _. none) app, or_else-none (listing p app))

-- The list is sorted and distinct, and holds exactly the action patterns granted on the application.
pub record IsListing (p : Principal) (app : Bytes) (l : List Bytes) : Type 0 where
  pub ascending : IsAscending l
  pub distinct : Distinct l
  pub exact : (a : Bytes) → In a l ↔ Holds (λ x. a ≡ x) p.statements app p.home_app

sorted-IsListing :
    (p : Principal) (app : Bytes)
    → IsListing p app (sort_strings (seen_actions p.statements app p.home_app []))
sorted-IsListing p app = record {
  ascending = sort_strings-IsAscending _;
  distinct = sort_strings-Distinct _ (seen_actions-Distinct p.statements app p.home_app [] tt);
  exact = λ a. ground (
    arith,
    sort_strings-In a (seen_actions p.statements app p.home_app []),
    seen_actions-In p.statements app p.home_app [] a,
  );
}

listing-cases :
    (p : Principal) (app : Bytes)
    → ((listing p app ≡ none) × (seen_actions p.statements app p.home_app [] ≡ []))
      ⊎ (listing p app ≡ some (sort_strings (seen_actions p.statements app p.home_app [])))
listing-cases p app = ground arith

-- What the table of permissions holds for an application is the sorted list, without repetitions, of
-- exactly the action patterns that the principal's statements hold there, and the application is one
-- of those asked for.
pub permissions_by_app-IsListing :
    (p : Principal) (apps : List Bytes) (app : Bytes) (l : List Bytes)
    → permissions_by_app (some p) apps app ≡ some l
    → In app apps × IsListing p app l
permissions_by_app-IsListing p apps app l h =
    let e = sym (permissions_by_app-listing p apps app) ∙ h in
    elim (Bool-cases (contains apps app)) [
      | inl asked ↦ elim (listing-cases p app) [
        | inl (z, _) ↦ ground arith
        | inr full ↦ (
          (contains_iff apps app).0 asked,
          subst (IsListing p app) (some-injective _ _ (sym full ∙ (rw asked at e)))
              (sorted-IsListing p app),
        )
      ]
      | inr other ↦ ground arith
    ]

-- An application that was asked for and has no entry is one where no action is held.
pub permissions_by_app-none :
    (p : Principal) (apps : List Bytes) (app a : Bytes)
    → permissions_by_app (some p) apps app ≡ none
    → In app apps
    → ¬ Holds (λ x. a ≡ x) p.statements app p.home_app
permissions_by_app-none p apps app a h m held =
    let e = sym (permissions_by_app-listing p apps app) ∙ h in
    elim (listing-cases p app) [
      | inl (_, z) ↦ rw z at ((seen_actions-In p.statements app p.home_app [] a).1 (inl held))
      | inr full ↦ ground (arith, contains_iff apps app)
    ]
