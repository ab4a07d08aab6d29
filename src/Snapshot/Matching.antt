-- ===== src/Snapshot/Matching.antt =====
-- Which endpoint a request is matched to.
use traefik_plugin.Base.{
  Bool, true, false, ◌&&◌, not, Option, none, some, List, [], ◌∷◌, Bytes, str_eq, str_eq_iff,
  is_empty, find, or_else, or_else-none, In, ◌≡◌, ◌≢◌, ◌⊎◌, inl, inr, refl, sym, arith, ◌∙◌,
  if◌then◌else◌, Bool-cases, and_parts,
}
use traefik_plugin.Snapshot.{SnapshotCache, CompiledEndpoint, is_shared, scan, match_endpoint}

-- The first shared endpoint is kept, and so is the first endpoint of any application.
module _ {A : Type 0} where
  keep_shared :
      (s o own sh any_app : Option A) (a : A) (b : Bool)
      → or_else own (or_else (or_else s (some a)) (if b then or_else o (some a) else none))
        ≡ or_else own (
            or_else
              (or_else (or_else s (some a)) sh)
              (if b then or_else (or_else o (some a)) any_app else none))
  keep_shared none o own sh any_app a b = refl
  keep_shared (some x) o own sh any_app a b = refl

  keep_other :
      (s o own sh any_app : Option A) (a : A) (b : Bool)
      → or_else own (or_else (or_else s sh) (if b then or_else o (some a) else none))
        ≡ or_else own
            (or_else (or_else s sh) (if b then or_else (or_else o (some a)) any_app else none))
  keep_other s none own sh any_app a b = refl
  keep_other s (some x) own sh any_app a b = refl

module _ (app_id method path : Bytes) where
  -- The endpoint's method and path are the request's.
  abbrev pub is_candidate : CompiledEndpoint → Bool
  is_candidate ep = str_eq ep.method method && ep.regex.matches path

  -- It is the resolved application's own.
  abbrev pub is_own : CompiledEndpoint → Bool
  is_own ep = not (is_empty app_id) && str_eq ep.app_id app_id

  abbrev pub is_exact : CompiledEndpoint → Bool
  is_exact ep = is_candidate ep && is_own ep

  abbrev pub is_shared_candidate : CompiledEndpoint → Bool
  is_shared_candidate ep = is_candidate ep && is_shared ep

  abbrev chosen :
      List CompiledEndpoint
      → Option CompiledEndpoint
      → Option CompiledEndpoint
      → Option CompiledEndpoint
  chosen eps shared other = or_else (find is_exact eps) (
      or_else (or_else shared (find is_shared_candidate eps))
        (if is_empty app_id then or_else other (find is_candidate eps) else none))

  module _ (ep : CompiledEndpoint) (eps : List CompiledEndpoint)
      (shared other : Option CompiledEndpoint) where
    scan-skip :
        is_candidate ep ≡ false
        → scan app_id method path (ep ∷ eps) shared other ≡ scan app_id method path eps shared other
    unfolding scan
    scan-skip h = ground arith

    scan-own :
        is_candidate ep ≡ true
        → is_own ep ≡ true
        → scan app_id method path (ep ∷ eps) shared other ≡ some ep
    unfolding scan
    scan-own h k = ground arith

    scan-other :
        is_candidate ep ≡ true
        → is_own ep ≡ false
        → scan app_id method path (ep ∷ eps) shared other
          ≡ scan app_id method path eps
              (if is_shared ep then or_else shared (some ep) else shared)
              (or_else other (some ep))
    unfolding scan
    scan-other h k = ground arith

    chosen-skip : is_candidate ep ≡ false → chosen (ep ∷ eps) shared other ≡ chosen eps shared other
    chosen-skip h = rw h

    chosen-own :
        is_candidate ep ≡ true → is_own ep ≡ true → chosen (ep ∷ eps) shared other ≡ some ep
    chosen-own h k = rw (h, k)

    chosen-other :
        is_candidate ep ≡ true
        → is_own ep ≡ false
        → chosen (ep ∷ eps) shared other
          ≡ chosen eps
              (if is_shared ep then or_else shared (some ep) else shared)
              (or_else other (some ep))
    chosen-other h k =
        rw (h, k)
          (elim (Bool-cases (is_shared ep)) [
            | inl e ↦ rw e (keep_shared shared other _ _ _ ep _)
            | inr e ↦ rw e (keep_other shared other _ _ _ ep _)
          ])

  scan_lem :
      (eps : List CompiledEndpoint) (shared other : Option CompiledEndpoint)
      → scan app_id method path eps shared other ≡ chosen eps shared other
  scan_lem [] shared other = unfold scan in ground (arith, or_else-none shared, or_else-none other)
  scan_lem (ep ∷ eps) shared other = elim (Bool-cases (is_candidate ep)) [
    | inr miss ↦
        scan-skip ep eps shared other miss
        ∙ scan_lem eps shared other
        ∙ sym (chosen-skip ep eps shared other miss)
    | inl hit ↦ elim (Bool-cases (is_own ep)) [
      | inl own ↦
          scan-own ep eps shared other hit own ∙ sym (chosen-own ep eps shared other hit own)
      | inr else_ ↦
          scan-other ep eps shared other hit else_
          ∙ scan_lem eps _ _
          ∙ sym (chosen-other ep eps shared other hit else_)
    ]
  ]

-- Among the endpoints whose method and path are the request's, the match is the first of the
-- application itself; if there is none, the first shared one; and if there is none and the
-- application is unresolved, the first of any application.
pub match_endpoint_lem :
    (sc : SnapshotCache) (app_id method path : Bytes)
    → match_endpoint sc app_id method path
      ≡ or_else (find (is_exact app_id method path) sc.compiled) (
          or_else
            (find (is_shared_candidate app_id method path) sc.compiled)
            (if is_empty app_id then find (is_candidate app_id method path) sc.compiled else none))
unfolding match_endpoint
match_endpoint_lem sc app_id method path = scan_lem app_id method path sc.compiled none none

find_sound :
    {A : Type 0} (p : A → Bool) (xs : List A) (x : A) → find p xs ≡ some x → In x xs × (p x ≡ true)
find_sound p [] x h = cc
find_sound p (y ∷ xs) x h = ground (arith, find_sound p xs x)

find_complete :
    {A : Type 0} (p : A → Bool) (xs : List A) (x : A) → In x xs → find p xs ≡ none → p x ≡ false
find_complete p [] x m h = absurd m
find_complete p (y ∷ xs) x m h = ground (arith, find_complete p xs x)

-- What holds of an endpoint that a request is matched to.
pub record IsMatch (sc : SnapshotCache) (app_id method path : Bytes) (ep : CompiledEndpoint)
    : Type 0 where
  pub listed : In ep sc.compiled
  pub same_method : ep.method ≡ method
  pub matched : ep.regex.matches path ≡ true
  pub owner : (app_id ≡ []) ⊎ (ep.app_id ≡ app_id) ⊎ (is_shared ep ≡ true)

or_else-cases :
    {A : Type 0} (o p : Option A) {x : A} → or_else o p ≡ some x → (o ≡ some x) ⊎ (p ≡ some x)
or_else-cases none p h = inr h
or_else-cases (some a) p h = inl h

unresolved :
    {A : Type 0} (app_id : Bytes) {o : Option A} {x : A}
    → (if is_empty app_id then o else none) ≡ some x
    → (app_id ≡ []) × (o ≡ some x)
unresolved [] h = (refl, h)
unresolved (c ∷ app_id) h = cc

candidate-IsMatch :
    {sc : SnapshotCache} {app_id method path : Bytes} {ep : CompiledEndpoint}
    → In ep sc.compiled
    → is_candidate app_id method path ep ≡ true
    → (app_id ≡ []) ⊎ (ep.app_id ≡ app_id) ⊎ (is_shared ep ≡ true)
    → IsMatch sc app_id method path ep
candidate-IsMatch {method} {ep} m fits owner =
    let (same, matched) = and_parts _ _ fits in
    record {
      listed = m;
      same_method = (str_eq_iff ep.method method).0 same;
      matched = matched;
      owner = owner;
    }

-- A matched endpoint is one of the snapshot, of the request's method and path, and, once the
-- application is resolved, of that application or shared: never another application's.
pub match_endpoint-IsMatch :
    (sc : SnapshotCache) (app_id method path : Bytes) (ep : CompiledEndpoint)
    → match_endpoint sc app_id method path ≡ some ep
    → IsMatch sc app_id method path ep
match_endpoint-IsMatch sc app_id method path ep h =
    elim (or_else-cases _ _ (sym (match_endpoint_lem sc app_id method path) ∙ h)) [
      | inl own ↦
          let (m, t) = find_sound (is_exact app_id method path) sc.compiled ep own in
          let (fits, mine) = and_parts _ _ t in
          candidate-IsMatch m fits
            (inr (inl ((str_eq_iff ep.app_id app_id).0 (and_parts _ _ mine).1)))
      | inr later ↦ elim (or_else-cases _ _ later) [
        | inl shared ↦
            let (m, t) =
              find_sound (is_shared_candidate app_id method path) sc.compiled ep shared in
            let (fits, open_to_all) = and_parts _ _ t in
            candidate-IsMatch m fits (inr (inr open_to_all))
        | inr other ↦
            let (blank, found) = unresolved app_id other in
            let (m, fits) = find_sound (is_candidate app_id method path) sc.compiled ep found in
            candidate-IsMatch m fits (inl blank)
      ]
    ]

-- A resolved application's endpoint that fits the request keeps the request from going unmatched.
pub match_endpoint-none :
    (sc : SnapshotCache) (app_id method path : Bytes) (ep : CompiledEndpoint)
    → match_endpoint sc app_id method path ≡ none
    → In ep sc.compiled
    → is_candidate app_id method path ep ≡ true
    → (app_id ≢ []) × (ep.app_id ≢ app_id) × (is_shared ep ≡ false)
match_endpoint-none sc app_id method path ep h m c = ground (
  arith,
  match_endpoint_lem sc app_id method path,
  find_complete (is_exact app_id method path) sc.compiled ep m,
  find_complete (is_shared_candidate app_id method path) sc.compiled ep m,
  find_complete (is_candidate app_id method path) sc.compiled ep m,
  str_eq_iff ep.app_id app_id,
)
