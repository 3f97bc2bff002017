-- ===== src/Rib/Entry/Capture.antt =====
-- The counter of capturing routes (daemon/rib/rib-entry.cpp, insertRoute, eraseRoute, hasCapture,
-- and the update of a route in daemon/rib/rib.cpp, insert).
use nfd.Base.{
  ◌+◌, ◌≤◌, ◌<◌, ◌≡◌, refl, inl, inr, true, false, not, List, [], ◌∷◌, ◌++◌, some, none, find_if,
  erase_if, any_of, count_if, count_if-append, if◌then◌else◌, length, length-append, arith,
  Option-cases, any_of-count, find_if-any_of, find_if-any_of-none, count_if-erase, count_if-replace,
  length-erase_if, find_if_holds, count_if-le-length, any_of-append_self,
}
use nfd.Rib.Entry.{
  Route, RibEntry, uint64_mod, is_capture, compare_face_id_and_origin, find_route, insert_route,
  erase_route, update_route, has_capture, has_route,
}

module _ {Announcement : Type 0} where
  count_absent_route :
      (route other : Route Announcement) (rs : List (Route Announcement))
      → find_if (compare_face_id_and_origin route) rs ≡ none
      → compare_face_id_and_origin other route ≡ true
      → count_if (compare_face_id_and_origin other) rs ≡ 0
  count_absent_route route other [] h same = refl
  count_absent_route route other (r ∷ rs) h same = ground (arith, count_absent_route route other rs)

module _ {Name Announcement : Type 0} where
  -- The counter counts the capturing routes, no two routes have the same face and origin, and the
  -- counter has not wrapped.
  pub record IsValid (e : RibEntry Name Announcement) : Type 0 where
    pub counted : e.n_routes_with_capture_set ≡ count_if is_capture e.routes
    pub distinct :
        (route : Route Announcement) → count_if (compare_face_id_and_origin route) e.routes ≤ 1
    pub small : length e.routes < uint64_mod

  -- `insertRoute` adds the route at the end if no route has its face and origin, and reports that;
  -- otherwise it changes nothing. The counter stays the number of capturing routes.
  pub insert_route_lem :
      (e : RibEntry Name Announcement) (route : Route Announcement)
      → IsValid e
      → length e.routes + 1 < uint64_mod
      → let (e', is_new) = insert_route e route in
        IsValid e'
        × (is_new ≡ not (has_route e route))
        × (e'.routes ≡ (if is_new then e.routes ++ route ∷ [] else e.routes))
        × (has_route e' route ≡ true)
  unfolding insert_route has_route
  insert_route_lem e route v room =
      elim (Option-cases (find_if (compare_face_id_and_origin route) e.routes)) [
        | inl absent ↦
            let none_has = find_if-any_of-none (compare_face_id_and_origin route) e.routes absent in
            rw (absent, insert_route)
              (
                record {
                  counted = ground (
                    arith,
                    v.counted,
                    count_if-append is_capture e.routes (route ∷ []),
                    count_if-le-length is_capture e.routes,
                  );
                  distinct = λ other. ground (
                    arith,
                    v.distinct other,
                    count_if-append (compare_face_id_and_origin other) e.routes (route ∷ []),
                    count_absent_route route other e.routes absent,
                  );
                  small = omega (arith, length-append e.routes (route ∷ []));
                },
                rw none_has refl,
                refl,
                any_of-append_self (compare_face_id_and_origin route) e.routes route (ground arith),
              )
        | inr (r, found) ↦
            let has = find_if-any_of (compare_face_id_and_origin route) e.routes r found in
            rw (found, insert_route) (v, rw has refl, refl, has)
      ]

  -- `eraseRoute` removes the route with the face and origin, and the counter stays the number of
  -- capturing routes.
  pub erase_route_lem :
      (e : RibEntry Name Announcement) (route : Route Announcement)
      → IsValid e
      → IsValid (erase_route e route) × (has_route (erase_route e route) route ≡ false)
  unfolding erase_route has_route
  erase_route_lem e route v =
      elim (Option-cases (find_if (compare_face_id_and_origin route) e.routes)) [
        | inl absent ↦
            rw (absent, erase_route)
              (v, find_if-any_of-none (compare_face_id_and_origin route) e.routes absent)
        | inr (r, found) ↦
            let q = compare_face_id_and_origin route in
            rw (found, erase_route)
              (
                record {
                  counted = ground (
                    arith,
                    v.counted,
                    v.small,
                    count_if-erase is_capture q e.routes r,
                    count_if-le-length is_capture e.routes,
                  );
                  distinct = λ other. omega (
                    arith,
                    v.distinct other,
                    count_if-erase (compare_face_id_and_origin other) q e.routes r found,
                  );
                  small = omega (arith, v.small, length-erase_if q e.routes r found);
                },
                ground (
                  arith,
                  any_of-count q (erase_if q e.routes),
                  count_if-erase q q e.routes r,
                  v.distinct route,
                  find_if_holds q e.routes r,
                ),
              )
      ]

  -- In a valid entry `hasCapture` says whether some route has the capture flag.
  has_capture_lem :
      (e : RibEntry Name Announcement) → IsValid e → has_capture e ≡ any_of is_capture e.routes
  unfolding has_capture
  has_capture_lem e v = ground (arith, any_of-count is_capture e.routes, v.counted)

  -- The defect: the update of a route in place does not touch the counter, so that after an update
  -- that changes the capture flag of the stored route the entry is never valid.
  pub update_route_invalid :
      (e : RibEntry Name Announcement) (route stored : Route Announcement)
      → IsValid e
      → find_route e route ≡ some stored
      → is_capture route ≡ not (is_capture stored)
      → ¬ IsValid (update_route e route)
  unfolding update_route find_route
  update_route_invalid e route stored v found changed w = ground (
    arith,
    v.counted,
    w.counted,
    count_if-replace is_capture (compare_face_id_and_origin route) e.routes stored route found,
  )
