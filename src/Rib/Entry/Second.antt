-- ===== src/Rib/Entry/Second.antt =====
-- The route of second lowest cost (daemon/rib/rib-entry.cpp,
-- getRouteWithSecondLowestCostByFaceId).

use nfd.Base.{
  ℕ, ◌≤◌, ◌<◌, ◌≡◌, refl, ap, ◌⊎◌, inl, inr, Bool, true, ◌&&◌, List, [], ◌∷◌, some, none, ltb, leb,
  arith, Bool-cases, count_if, length, ltb→lt, ltb-false→le,
}
use nfd.Base.Permuted.{count-perm}
use nfd.Rib.Entry.{
  Route, RibEntry, is_on_face, matches, IsNthElement, get_route_with_second_lowest_cost_by_face_id,
}

module _ {Announcement : Type 0} where
  count-matches :
      (p q : Route Announcement → Bool) (rs : List (Route Announcement))
      → count_if q (matches p rs) ≡ count_if (λ r. p r && q r) rs
  count-matches p q [] = refl
  count-matches p q (r ∷ rs) = ground (arith, count-matches p q rs)

  length-matches :
      (p : Route Announcement → Bool) (rs : List (Route Announcement))
      → length (matches p rs) ≡ count_if p rs
  length-matches p [] = refl
  length-matches p (r ∷ rs) = ground (arith, length-matches p rs)

  length-count : (rs : List (Route Announcement)) → length rs ≡ count_if (λ _. true) rs
  length-count [] = refl
  length-count (r ∷ rs) = ground (arith, length-count rs)

  second_of :
      (l : List (Route Announcement))
      → 2 ≤ length l
      → (a b : Route Announcement) × (rest : List (Route Announcement)) × (l ≡ a ∷ b ∷ rest)
  second_of [] h = absurd (omega arith)
  second_of (a ∷ []) h = absurd (omega arith)
  second_of (a ∷ b ∷ rest) h = (a, b, rest, refl)

  cheaper-le :
      (a b : Route Announcement) (rest : List (Route Announcement))
      → count_if (λ r. ltb r.cost b.cost) rest ≡ 0
      → count_if (λ r. ltb r.cost b.cost) (a ∷ b ∷ rest) ≤ 1
  cheaper-le a b rest h = ground arith

  at_most-ge :
      (a b : Route Announcement) (rest : List (Route Announcement))
      → a.cost ≤ b.cost
      → 2 ≤ count_if (λ r. leb r.cost b.cost) (a ∷ b ∷ rest)
  at_most-ge a b rest h = ground arith

-- With fewer than two routes of the face there is no second lowest. Otherwise there is one, at
-- most one route of the face costs less, and at least two routes of the face cost no more.
pub get_route_with_second_lowest_cost_lem :
    {Name Announcement : Type 0}
    (nth_element : List (Route Announcement) → List (Route Announcement))
    (e : RibEntry Name Announcement) (face_id : ℕ)
    → IsNthElement nth_element
    → let p = is_on_face {Announcement = Announcement} face_id in
      let found = get_route_with_second_lowest_cost_by_face_id nth_element e face_id in
      ((count_if p e.routes < 2) × (found ≡ none))
      ⊎ ((2 ≤ count_if p e.routes)
          × ((b : Route Announcement) × (found ≡ some b)
              × (count_if (λ r. p r && ltb r.cost b.cost) e.routes ≤ 1)
              × (2 ≤ count_if (λ r. p r && leb r.cost b.cost) e.routes)))
unfolding get_route_with_second_lowest_cost_by_face_id
get_route_with_second_lowest_cost_lem {Name} {Announcement} nth_element e face_id s =
    let p = is_on_face {Announcement = Announcement} face_id in
    let m : List (Route Announcement) = matches p e.routes in
    let len = length-matches p e.routes in
    elim (Bool-cases (ltb (length m) 2)) [
      | inl few ↦ inl (omega (arith, ltb→lt _ _ few, len), rw few refl)
      | inr many ↦
          let two : 2 ≤ length m = ltb-false→le _ _ many in
          let perm = s.permutes m in
          let (a, b, rest, eq) = second_of (nth_element m) (
            omega
              (arith, length-count (nth_element m), length-count m, count-perm (λ _. true) perm)) in
          let (le, zero_less) = s.places m a b rest eq in
          inr (
            omega (arith, len),
            (
              b,
              rw many (rw eq refl),
              (let less = λ (r : Route Announcement). ltb r.cost b.cost in
                  omega (
                    arith,
                    count-matches p less e.routes,
                    count-perm less perm,
                    ap (count_if less) eq,
                    cheaper-le a b rest zero_less,
                  )),
              (let most = λ (r : Route Announcement). leb r.cost b.cost in
                  omega (
                    arith,
                    count-matches p most e.routes,
                    count-perm most perm,
                    ap (count_if most) eq,
                    at_most-ge a b rest le,
                  )),
            ),
          )
    ]
