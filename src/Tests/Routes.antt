-- ===== src/Tests/Routes.antt =====
-- A RIB entry at concrete routes.
use mathlib.Core.List.{Perm}
use mathlib.Core.List.Perm
use mathlib.Core.Path.{subst}
use nfd.Base.{
  ℕ, ◌≡◌, ◌≤◌, ◌<◌, ◌⊎◌, refl, true, false, not, ◌&&◌, List, [], ◌∷◌, ◌++◌, some, none, arith,
  count_if, All, IsOneOf, if◌then◌else◌, leb, ltb, Bool-cases, inl, inr,
}
use nfd.Rib.Entry.{
  Route, RibEntry, IsNthElement, is_child_inherit, is_on_face, insert_route, erase_route,
  update_route, find_route, has_route, get_route_with_lowest_cost_by_face_id,
  get_route_with_lowest_cost_and_child_inherit_by_face_id,
  get_route_with_second_lowest_cost_by_face_id,
}
use nfd.Rib.Announcement.{get_prefix_announcement, of_route, made}
use nfd.Rib.Announcement.Expiry.{IsMade}
use nfd.Rib.Announcement.Best.{Announces, IsCovered, get_prefix_announcement_lem}
use nfd.Rib.Entry.Capture.{IsValid, insert_route_lem, erase_route_lem, update_route_invalid}
use nfd.Rib.Entry.Lowest.{IsLowest, get_route_with_lowest_cost_lem}
use nfd.Rib.Entry.Second.{get_route_with_second_lowest_cost_lem}

abbrev route : ℕ → ℕ → ℕ → ℕ → Route ℕ
route face_id origin cost flags = record {
  face_id = face_id;
  origin = origin;
  cost = cost;
  flags = flags;
  expires = none;
  announcement = none;
  ann_expires = 0;
  expiration_event = none;
}

abbrev entry : RibEntry ℕ ℕ
entry = record {
  name = 7;
  routes = route 258 0 10 2 ∷ route 258 128 5 1 ∷ [];
  n_routes_with_capture_set = 1;
  inherited_routes = [];
}

entry-IsValid : IsValid entry
entry-IsValid = record { counted = refl; distinct = λ r. ground arith; small = omega arith }

insert_route_example :
    IsValid (insert_route entry (route 259 0 1 3)).0
    × ((insert_route entry (route 259 0 1 3)).1 ≡ not (has_route entry (route 259 0 1 3)))
    × ((insert_route entry (route 259 0 1 3)).0.routes ≡ (
        if (insert_route entry (route 259 0 1 3)).1
        then entry.routes ++ route 259 0 1 3 ∷ []
        else entry.routes))
    × (has_route (insert_route entry (route 259 0 1 3)).0 (route 259 0 1 3) ≡ true)
insert_route_example = insert_route_lem entry (route 259 0 1 3) entry-IsValid (omega arith)

erase_route_example :
    IsValid (erase_route entry (route 258 0 0 0))
    × (has_route (erase_route entry (route 258 0 0 0)) (route 258 0 0 0) ≡ false)
erase_route_example = erase_route_lem entry (route 258 0 0 0) entry-IsValid

stored : find_route entry (route 258 0 20 0) ≡ some (route 258 0 10 2)
unfolding find_route
stored = refl

update_route_example : ¬ IsValid (update_route entry (route 258 0 20 0))
update_route_example =
    update_route_invalid entry (route 258 0 20 0) (route 258 0 10 2) entry-IsValid stored refl

cheapest_route_example :
    IsLowest (is_on_face 258) entry.routes (get_route_with_lowest_cost_by_face_id entry 258)
    × IsLowest
        (λ r. is_on_face 258 r && is_child_inherit r)
        entry.routes
        (get_route_with_lowest_cost_and_child_inherit_by_face_id entry 258)
cheapest_route_example = get_route_with_lowest_cost_lem entry 258

-- Insertion sort by cost puts the second smallest at position 1.
abbrev place : Route ℕ → List (Route ℕ) → List (Route ℕ)
place r [] = r ∷ []
place r (x ∷ xs) = if leb r.cost x.cost then r ∷ x ∷ xs else x ∷ place r xs

abbrev sort : List (Route ℕ) → List (Route ℕ)
sort [] = []
sort (r ∷ rs) = place r (sort rs)

place-Perm : (r : Route ℕ) (xs : List (Route ℕ)) → Perm (place r xs) (r ∷ xs)
place-Perm r [] = Perm.refl (r ∷ [])
place-Perm r (x ∷ xs) = elim (Bool-cases (leb r.cost x.cost)) [
  | inl first ↦ rw first (Perm.refl (r ∷ x ∷ xs))
  | inr later ↦ rw later (Perm.trans (Perm.cons x (place-Perm r xs)) (Perm.swap r x xs))
]

sort-Perm : (rs : List (Route ℕ)) → Perm (sort rs) rs
sort-Perm [] = Perm.refl []
sort-Perm (r ∷ rs) = Perm.trans (place-Perm r (sort rs)) (Perm.cons r (sort-Perm rs))

-- No later route costs less than an earlier one.
abbrev InOrder : List (Route ℕ) → Type 0
InOrder [] = Unit {0}
InOrder (r ∷ rs) = (count_if (λ x. ltb x.cost r.cost) rs ≡ 0) × InOrder rs

count-place :
    (c : ℕ) (r : Route ℕ) (xs : List (Route ℕ))
    → count_if (λ x. ltb x.cost c) (place r xs) ≡ count_if (λ x. ltb x.cost c) (r ∷ xs)
count-place c r [] = refl
count-place c r (x ∷ xs) = ground (arith, count-place c r xs)

count_mono :
    (a b : ℕ) (xs : List (Route ℕ))
    → a ≤ b
    → count_if (λ x. ltb x.cost b) xs ≡ 0
    → count_if (λ x. ltb x.cost a) xs ≡ 0
count_mono a b [] le h = refl
count_mono a b (x ∷ xs) le h = ground (arith, count_mono a b xs)

place-InOrder : (r : Route ℕ) (xs : List (Route ℕ)) → InOrder xs → InOrder (place r xs)
place-InOrder r [] h = (refl, tt)
place-InOrder r (x ∷ xs) (least, h) = elim (Bool-cases (leb r.cost x.cost)) [
  | inl first ↦ rw first (ground (arith, count_mono r.cost x.cost xs), (least, h))
  | inr later ↦ rw later (ground (arith, count-place x.cost r xs), place-InOrder r xs h)
]

sort-InOrder : (rs : List (Route ℕ)) → InOrder (sort rs)
sort-InOrder [] = tt
sort-InOrder (r ∷ rs) = place-InOrder r (sort rs) (sort-InOrder rs)

sort-IsNthElement : IsNthElement sort
sort-IsNthElement = record {
  permutes = sort-Perm;
  places = λ rs a b rest eq.
      let ordered = subst InOrder eq (sort-InOrder rs) in (ground (arith, ordered.0), ordered.1.0);
}

get_route_with_second_lowest_cost_example :
    ((count_if (is_on_face 258) entry.routes < 2)
      × (get_route_with_second_lowest_cost_by_face_id sort entry 258 ≡ none))
    ⊎ ((2 ≤ count_if (is_on_face 258) entry.routes)
        × ((b : Route ℕ) × (get_route_with_second_lowest_cost_by_face_id sort entry 258 ≡ some b)
            × (count_if (λ r. is_on_face 258 r && ltb r.cost b.cost) entry.routes ≤ 1)
            × (2 ≤ count_if (λ r. is_on_face 258 r && leb r.cost b.cost) entry.routes)))
get_route_with_second_lowest_cost_example =
    get_route_with_second_lowest_cost_lem sort entry 258 sort-IsNthElement

abbrev announced : RibEntry ℕ ℕ
announced = record entry {
  routes =
      record (route 258 0 10 2) { expires = some 5000000; announcement = some 41 }
      ∷ record (route 259 0 10 2) { expires = some 9000000; announcement = some 42 }
      ∷ [];
}

announced-latest : get_prefix_announcement announced 1 5 1000 ≡ some (of_route 42)
unfolding get_prefix_announcement
announced-latest = refl

-- Without routes the subtraction overflows.
no_routes-undefined : get_prefix_announcement (record announced { routes = [] }) 1 5 1000 ≡ none
unfolding get_prefix_announcement
no_routes-undefined = refl

get_prefix_announcement_example :
    ((r : Route ℕ) × (a : ℕ) × (t : ℕ) × (IsOneOf r announced.routes
        × (Announces r a t
            × ((get_prefix_announcement announced 1 5 1000 ≡ some (of_route a))
                × All (IsCovered (some (a, t))) announced.routes))))
    ⊎ ((d : ℕ) × ((get_prefix_announcement announced 1 5 1000 ≡ some (made 7 d))
          × (IsMade announced.routes 1000 1 5 d × All (IsCovered none) announced.routes)))
get_prefix_announcement_example =
    get_prefix_announcement_lem announced 1 5 1000
      (record (route 258 0 10 2) { expires = some 5000000; announcement = some 41 })
      (record (route 259 0 10 2) { expires = some 9000000; announcement = some 42 } ∷ []) refl
      (omega arith)
