-- ===== src/Rib/Entry.antt =====
-- daemon/rib/route.hpp and rib-entry.{hpp,cpp}: the routes of one RIB entry.
--
-- A prefix announcement (ndn-cxx) is a value of the parameter type `Announcement`, a name of
-- `Name`. Route flags are the bit mask of the NFD management protocol: child-inherit is 1, capture
-- is 2. The counter of capturing routes is a uint64_t and wraps. Links between entries belong to
-- the RIB and are left out. `std::nth_element` leaves ties and the order of the rest unspecified,
-- so it is a parameter; `IsNthElement` states what the standard promises at position 1.
pub mod Capture
pub mod Lowest
pub mod Second
use mathlib.Core.List.{Perm}
use nfd.Base.{
  ℕ, ◌+◌, ◌-◌, ◌/◌, ◌%◌, ◌^◌, ◌≤◌, min, max, ◌≡◌, Bool, true, false, ◌&&◌, not, List, [], ◌∷◌, ◌++◌,
  Option, some, none, find_if, erase_if, update_if, any_of, count_if, ◌==◌, ltb, leb, if◌then◌else◌,
  length,
}

pub record Route (Announcement : Type 0) : Type 0 where
  pub face_id : ℕ
  pub origin : ℕ
  pub cost : ℕ
  pub flags : ℕ
  pub expires : Option ℕ
  pub announcement : Option Announcement
  pub ann_expires : ℕ
  pub expiration_event : Option ℕ

abbrev pub uint64_mod : ℕ
uint64_mod = 2 ^ 64

pub record RibEntry (Name Announcement : Type 0) : Type 0 where
  pub name : Name
  pub routes : List (Route Announcement)
  pub n_routes_with_capture_set : ℕ
  pub inherited_routes : List (Route Announcement)

module _ {Announcement : Type 0} where
  -- `flags & ROUTE_FLAG_CHILD_INHERIT`
  abbrev pub is_child_inherit : Route Announcement → Bool
  is_child_inherit r = r.flags % 2 == 1

  -- `flags & ROUTE_FLAG_CAPTURE`
  abbrev pub is_capture : Route Announcement → Bool
  is_capture r = (r.flags / 2) % 2 == 1

  abbrev pub compare_face_id_and_origin : Route Announcement → Route Announcement → Bool
  compare_face_id_and_origin route r = r.face_id == route.face_id && r.origin == route.origin

  abbrev pub is_on_face : ℕ → Route Announcement → Bool
  is_on_face face_id r = r.face_id == face_id

  -- The loops that look for the lowest cost among the routes that pass.
  unfoldable pub lowest_loop :
      (Route Announcement → Bool)
      → List (Route Announcement)
      → Option (Route Announcement)
      → Option (Route Announcement)
  lowest_loop p [] candidate = candidate
  lowest_loop p (r ∷ rs) candidate = lowest_loop p rs (
      if p r
      then (elim candidate [
        | none ↦ some r
        | some c ↦ if ltb r.cost c.cost then some r else some c
      ])
      else candidate)

  abbrev pub matches :
      (Route Announcement → Bool) → List (Route Announcement) → List (Route Announcement)
  matches p [] = []
  matches p (r ∷ rs) = if p r then r ∷ matches p rs else matches p rs

  -- What `nth_element(begin, begin + 1, end)` promises.
  pub record IsNthElement (nth_element : List (Route Announcement) → List (Route Announcement))
      : Type 0 where
    pub permutes : (rs : List (Route Announcement)) → Perm (nth_element rs) rs
    pub places :
        (rs : List (Route Announcement)) (a b : Route Announcement)
        (rest : List (Route Announcement))
        → nth_element rs ≡ a ∷ b ∷ rest
        → (a.cost ≤ b.cost) × (count_if (λ r. ltb r.cost b.cost) rest ≡ 0)

  abbrev pub second : List (Route Announcement) → Option (Route Announcement)
  second [] = none
  second (a ∷ []) = none
  second (a ∷ b ∷ rest) = some b

module _ {Name Announcement : Type 0} where
  abbrev pub new_rib_entry : Name → RibEntry Name Announcement
  new_rib_entry name = record {
    name = name;
    routes = [];
    n_routes_with_capture_set = 0;
    inherited_routes = [];
  }

  unfoldable pub find_route :
      RibEntry Name Announcement → Route Announcement → Option (Route Announcement)
  find_route e route = find_if (compare_face_id_and_origin route) e.routes

  -- The entry after the call, and whether the route is new.
  unfoldable pub insert_route :
      RibEntry Name Announcement → Route Announcement → RibEntry Name Announcement × Bool
  insert_route e route = elim (find_if (compare_face_id_and_origin route) e.routes) [
    | none ↦ (
      record e {
        routes = e.routes ++ route ∷ [];
        n_routes_with_capture_set =
            if is_capture route
            then (e.n_routes_with_capture_set + 1) % uint64_mod
            else e.n_routes_with_capture_set;
      },
      true,
    )
    | some _ ↦ (e, false)
  ]

  unfoldable pub erase_route :
      RibEntry Name Announcement → Route Announcement → RibEntry Name Announcement
  erase_route e route = elim (find_if (compare_face_id_and_origin route) e.routes) [
    | none ↦ e
    | some r ↦ record e {
      routes = erase_if (compare_face_id_and_origin route) e.routes;
      n_routes_with_capture_set =
          if is_capture r
          then (e.n_routes_with_capture_set + uint64_mod - 1) % uint64_mod
          else e.n_routes_with_capture_set;
    }
  ]

  -- Rib::insert where the route exists: `*entryIt = route`.
  unfoldable pub update_route :
      RibEntry Name Announcement → Route Announcement → RibEntry Name Announcement
  update_route e route = record e {
    routes = update_if (compare_face_id_and_origin route) (λ _. route) e.routes;
  }

  unfoldable pub has_route : RibEntry Name Announcement → Route Announcement → Bool
  has_route e route = any_of (compare_face_id_and_origin route) e.routes

  unfoldable pub has_face_id : RibEntry Name Announcement → ℕ → Bool
  has_face_id e face_id = any_of (is_on_face face_id) e.routes

  unfoldable pub get_n_routes : RibEntry Name Announcement → ℕ
  get_n_routes e = length e.routes

  unfoldable pub add_inherited_route :
      RibEntry Name Announcement → Route Announcement → RibEntry Name Announcement
  add_inherited_route e route = record e { inherited_routes = e.inherited_routes ++ route ∷ [] }

  unfoldable pub remove_inherited_route :
      RibEntry Name Announcement → Route Announcement → RibEntry Name Announcement
  remove_inherited_route e route = record e {
    inherited_routes = matches (λ r. not (is_on_face route.face_id r)) e.inherited_routes;
  }

  unfoldable pub find_inherited_route :
      RibEntry Name Announcement → Route Announcement → Option (Route Announcement)
  find_inherited_route e route = find_if (is_on_face route.face_id) e.inherited_routes

  unfoldable pub has_inherited_route : RibEntry Name Announcement → Route Announcement → Bool
  has_inherited_route e route = any_of (is_on_face route.face_id) e.inherited_routes

  unfoldable pub has_capture : RibEntry Name Announcement → Bool
  has_capture e = ltb 0 e.n_routes_with_capture_set

  unfoldable pub has_child_inherit_on_face_id : RibEntry Name Announcement → ℕ → Bool
  has_child_inherit_on_face_id e face_id =
      any_of (λ r. is_on_face face_id r && is_child_inherit r) e.routes

  unfoldable pub get_route_with_lowest_cost_by_face_id :
      RibEntry Name Announcement → ℕ → Option (Route Announcement)
  get_route_with_lowest_cost_by_face_id e face_id = lowest_loop (is_on_face face_id) e.routes none

  unfoldable pub get_route_with_second_lowest_cost_by_face_id :
      (List (Route Announcement) → List (Route Announcement))
      → RibEntry Name Announcement
      → ℕ
      → Option (Route Announcement)
  get_route_with_second_lowest_cost_by_face_id nth_element e face_id =
      if ltb (length (matches (is_on_face face_id) e.routes)) 2
      then none
      else second (nth_element (matches (is_on_face face_id) e.routes))

  unfoldable pub get_route_with_lowest_cost_and_child_inherit_by_face_id :
      RibEntry Name Announcement → ℕ → Option (Route Announcement)
  get_route_with_lowest_cost_and_child_inherit_by_face_id e face_id =
      lowest_loop (λ r. is_on_face face_id r && is_child_inherit r) e.routes none
