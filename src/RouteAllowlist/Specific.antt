-- ===== src/RouteAllowlist/Specific.antt =====
-- Which rule `validate_route` of gateway/route_allowlist.py chooses.
use erp_security.Prelude.{
  String, ◌≤◌, ◌≡◌, refl, ◌⊎◌, inl, inr, arith, Option, none, some, true, false, List, [], ◌∷◌, All,
  OneOf, Bool-cases, is_some,
}
use erp_security.Prelude.Text.{member, upper}
use erp_security.RouteAllowlist.{
  RouteRule, matches, comes_first, is_wildcard, ends_with_star, size, insert, sorted_routes,
  first_match, validate_route, validation,
}

comes_first-total : (r s : RouteRule) → comes_first r s ≡ false → comes_first s r ≡ true
unfolding comes_first
comes_first-total r s h = ground arith

comes_first_trans :
    (r s t : RouteRule) → comes_first r s ≡ true → comes_first s t ≡ true → comes_first r t ≡ true
unfolding comes_first
comes_first_trans r s t h k = ground arith

-- What holds of the routes holds of the sorted routes, and the other way about.
module _ (P : RouteRule → Type 0) where
  All-insert : (r : RouteRule) (rs : List RouteRule) → P r → All P rs → All P (insert r rs)
  unfolding insert
  All-insert r [] h hs = (h, tt)
  All-insert r (s ∷ rs) h hs = elim (Bool-cases (comes_first r s)) [
    | inl before ↦ rw before (h, hs)
    | inr after ↦ rw after (hs.0, All-insert r rs h hs.1)
  ]

  insert-All : (r : RouteRule) (rs : List RouteRule) → All P (insert r rs) → P r × All P rs
  unfolding insert
  insert-All r [] h = h
  insert-All r (s ∷ rs) h = elim (Bool-cases (comes_first r s)) [
    | inl before ↦ rw before at h
    | inr after ↦
        let (hs, rest) = rw after at h in let (hr, hrs) = insert-All r rs rest in (hr, (hs, hrs))
  ]

  sorted_routes-All : (rs : List RouteRule) → All P (sorted_routes rs) → All P rs
  unfolding sorted_routes
  sorted_routes-All [] h = tt
  sorted_routes-All (r ∷ rs) h =
      let (hr, hrs) = insert-All r (sorted_routes rs) h in (hr, sorted_routes-All rs hrs)

  insert-OneOf : (r : RouteRule) (rs : List RouteRule) → OneOf P (insert r rs) → P r ⊎ OneOf P rs
  unfolding insert
  insert-OneOf r [] h = h
  insert-OneOf r (s ∷ rs) h = elim (Bool-cases (comes_first r s)) [
    | inl before ↦ rw before at h
    | inr after ↦ elim (rw after at h) [
      | inl first ↦ inr (inl first)
      | inr rest ↦ elim (insert-OneOf r rs rest) [
        | inl found ↦ inl found
        | inr later ↦ inr (inr later)
      ]
    ]
  ]

  sorted_routes-OneOf : (rs : List RouteRule) → OneOf P (sorted_routes rs) → OneOf P rs
  unfolding sorted_routes
  sorted_routes-OneOf [] h = h
  sorted_routes-OneOf (r ∷ rs) h = elim (insert-OneOf r (sorted_routes rs) h) [
    | inl first ↦ inl first
    | inr later ↦ inr (sorted_routes-OneOf rs later)
  ]

abbrev IsSorted : List RouteRule → Type 0
IsSorted [] = Unit
IsSorted (r ∷ rs) = All (λ s. comes_first r s ≡ true) rs × IsSorted rs

All-comes_first :
    (r s : RouteRule) (rs : List RouteRule)
    → comes_first r s ≡ true
    → All (λ t. comes_first s t ≡ true) rs
    → All (λ t. comes_first r t ≡ true) rs
All-comes_first r s [] h hs = tt
All-comes_first r s (t ∷ rs) h (st, hs) =
    (comes_first_trans r s t h st, All-comes_first r s rs h hs)

insert-IsSorted : (r : RouteRule) (rs : List RouteRule) → IsSorted rs → IsSorted (insert r rs)
unfolding insert
insert-IsSorted r [] h = (tt, tt)
insert-IsSorted r (s ∷ rs) h = elim (Bool-cases (comes_first r s)) [
  | inl before ↦ rw before ((before, All-comes_first r s rs before h.0), h)
  | inr after ↦ rw after (
    All-insert (λ t. comes_first s t ≡ true) r rs (comes_first-total r s after) h.0,
    insert-IsSorted r rs h.1,
  )
]

sorted_routes-IsSorted : (rs : List RouteRule) → IsSorted (sorted_routes rs)
unfolding sorted_routes
sorted_routes-IsSorted [] = tt
sorted_routes-IsSorted (r ∷ rs) = insert-IsSorted r (sorted_routes rs) (sorted_routes-IsSorted rs)

-- Which of two matching rules is preferred, said with the texts of their patterns: one without a
-- final "/*" to one with it, and among two of the same kind one that is at least as long.
abbrev pub Precedes : RouteRule → RouteRule → Type 0
Precedes r s =
    ((ends_with_star r.raw_pattern ≡ false) × (ends_with_star s.raw_pattern ≡ true))
    ⊎ ((ends_with_star r.raw_pattern ≡ ends_with_star s.raw_pattern)
        × (size s.raw_pattern ≤ size r.raw_pattern))

comes_first-Precedes : (r s : RouteRule) → comes_first r s ≡ true → Precedes r s
unfolding comes_first is_wildcard
comes_first-Precedes r s h = ground arith

-- The rule of a path: none where no route matches, else a route of the catalogue that matches and
-- that precedes every other that does.
unfoldable pub IsBest : String → List RouteRule → Option RouteRule → Type 0
IsBest path rs none = All (λ s. matches s path ≡ false) rs
IsBest path rs (some r) =
    OneOf (λ s. s ≡ r) rs
    × (matches r path ≡ true)
    × All (λ s. (matches s path ≡ false) ⊎ Precedes r s) rs

All-weaken :
    {P Q : RouteRule → Type 0} (f : (r : RouteRule) → P r → Q r) (rs : List RouteRule)
    → All P rs
    → All Q rs
All-weaken f [] h = tt
All-weaken f (r ∷ rs) (hr, hrs) = (f r hr, All-weaken f rs hrs)

Precedes-refl : (r : RouteRule) → Precedes r r
Precedes-refl r = inr (refl, omega arith)

first_match-IsBest :
    (path : String) (rs : List RouteRule) → IsSorted rs → IsBest path rs (first_match path rs)
unfolding first_match IsBest
first_match-IsBest path [] h = tt
first_match-IsBest path (r ∷ rs) h = elim (Bool-cases (matches r path)) [
  | inl found ↦ rw found (
    inl refl,
    found,
    (inr (Precedes-refl r), All-weaken (λ s k. inr (comes_first-Precedes r s k)) rs h.0),
  )
  | inr missed ↦ rw missed (extend (first_match path rs) (first_match-IsBest path rs h.1) missed)
]
  where
    extend :
        (o : Option RouteRule) → IsBest path rs o → matches r path ≡ false → IsBest path (r ∷ rs) o
    extend none k missed = (missed, k)
    extend (some s) (there, hit, first) missed = (inr there, hit, (inl missed, first))

IsBest-sorted :
    (path : String) (routes : List RouteRule) (o : Option RouteRule)
    → IsBest path (sorted_routes routes) o
    → IsBest path routes o
unfolding IsBest
IsBest-sorted path routes none h = sorted_routes-All (λ s. matches s path ≡ false) routes h
IsBest-sorted path routes (some r) (there, hit, first) = (
  sorted_routes-OneOf (λ s. s ≡ r) routes there,
  hit,
  sorted_routes-All (λ s. (matches s path ≡ false) ⊎ Precedes r s) routes first,
)

-- The choice of a route does not depend on the order of the catalogue, but for patterns that are
-- equally long: `validate_route` finds no rule only where no route matches the path; the rule that
-- it finds is a route of the catalogue that matches, and of the routes that match, it is without a
-- final "/*" if one is, and of that kind none has a longer pattern. A path is known when there is a
-- rule, and a method is allowed when the rule lists it in capitals.
pub validate_route-IsBest :
    (path method : String) (routes : List RouteRule)
    → let v = validate_route path method routes in
      IsBest path routes v.matching_rule
      × (v.is_path_known ≡ is_some v.matching_rule)
      × (v.is_method_allowed
          ≡ elim v.matching_rule [ none ↦ false | some r ↦ member (upper method) r.methods ])
unfolding validate_route
validate_route-IsBest path method routes =
    let sorted = sorted_routes routes in
    settle (first_match path sorted) (
      IsBest-sorted path routes (first_match path sorted)
        (first_match-IsBest path sorted (sorted_routes-IsSorted routes)))
  where
    settle :
        (o : Option RouteRule)
        → IsBest path routes o
        → let v = validation (upper method) o in
          IsBest path routes v.matching_rule
          × (v.is_path_known ≡ is_some v.matching_rule)
          × (v.is_method_allowed
              ≡ elim v.matching_rule [ none ↦ false | some r ↦ member (upper method) r.methods ])
    settle none h = (h, refl, refl)
    settle (some r) h = (h, refl, refl)
