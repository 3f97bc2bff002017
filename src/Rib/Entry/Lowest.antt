-- ===== src/Rib/Entry/Lowest.antt =====
-- The routes of lowest cost (daemon/rib/rib-entry.cpp, getRouteWithLowestCostByFaceId and
-- getRouteWithLowestCostAndChildInheritByFaceId).
use nfd.Base.{
  ℕ, ◌≤◌, ◌<◌, ◌≡◌, refl, ◌⊎◌, inl, inr, Bool, true, false, ◌&&◌, List, [], ◌∷◌, Option, some, none,
  ltb, ltb→lt, ltb-false→le, arith, Bool-cases, All, IsOneOf,
}
use mathlib.Core.Path.{sym, subst}
use nfd.Rib.Entry.{
  Route, RibEntry, lowest_loop, is_on_face, is_child_inherit, get_route_with_lowest_cost_by_face_id,
  get_route_with_lowest_cost_and_child_inherit_by_face_id,
}

module _ {Announcement : Type 0} (p : Route Announcement → Bool) where
  -- No route passes, or the result is a route that passes, and none that passes costs less.
  abbrev pub IsLowest : List (Route Announcement) → Option (Route Announcement) → Type 0
  IsLowest rs none = All (λ r. p r ≡ false) rs
  IsLowest rs (some c) = IsOneOf c rs × (p c ≡ true) × All (λ r. p r ≡ true → c.cost ≤ r.cost) rs

  -- The same from a candidate found before.
  abbrev Outcome :
      List (Route Announcement) → Option (Route Announcement) → Option (Route Announcement) → Type 0
  Outcome rs none res = IsLowest rs res
  Outcome rs (some c) none = ⊥
  Outcome rs (some c) (some b) =
      (c ≡ b ⊎ (IsOneOf b rs × (p b ≡ true)))
      × (b.cost ≤ c.cost)
      × All (λ r. p r ≡ true → b.cost ≤ r.cost) rs

  lowest_candidate :
      (rs : List (Route Announcement)) (c : Route Announcement)
      → Outcome rs (some c) (lowest_loop p rs (some c))
  unfolding lowest_loop
  lowest_candidate [] c = (inl refl, omega arith, tt)
  lowest_candidate (r ∷ rs) c = elim (Bool-cases (p r)) [
    | inr out ↦ rw out (widen (lowest_loop p rs (some c)) out (lowest_candidate rs c))
    | inl passes ↦ elim (Bool-cases (ltb r.cost c.cost)) [
      | inl less ↦
          rw (passes, less)
            (better (lowest_loop p rs (some r)) passes (ltb→lt _ _ less) (lowest_candidate rs r))
      | inr more ↦
          rw (passes, more)
            (keep (lowest_loop p rs (some c)) (ltb-false→le _ _ more) (lowest_candidate rs c))
    ]
  ]
    where
      widen :
          (res : Option (Route Announcement))
          → p r ≡ false
          → Outcome rs (some c) res
          → Outcome (r ∷ rs) (some c) res
      widen none out o = o
      widen (some b) out (from, le, all) = (
        elim from [ inl same ↦ inl same | inr (there, pb) ↦ inr (inr there, pb) ],
        le,
        (λ passes. absurd (ground arith), all),
      )

      better :
          (res : Option (Route Announcement))
          → p r ≡ true
          → r.cost < c.cost
          → Outcome rs (some r) res
          → Outcome (r ∷ rs) (some c) res
      better none passes less o = o
      better (some b) passes less (from, le, all) = (
        elim from [
          | inl same ↦ inr (inl (sym same), subst (λ x. p x ≡ true) same passes)
          | inr (there, pb) ↦ inr (inr there, pb)
        ],
        omega arith,
        (λ _. le, all),
      )

      keep :
          (res : Option (Route Announcement))
          → c.cost ≤ r.cost
          → Outcome rs (some c) res
          → Outcome (r ∷ rs) (some c) res
      keep none more o = o
      keep (some b) more (from, le, all) = (
        elim from [ inl same ↦ inl same | inr (there, pb) ↦ inr (inr there, pb) ],
        le,
        (λ _. omega arith, all),
      )

  lowest_loop-IsLowest : (rs : List (Route Announcement)) → IsLowest rs (lowest_loop p rs none)
  unfolding lowest_loop
  lowest_loop-IsLowest [] = tt
  lowest_loop-IsLowest (r ∷ rs) = elim (Bool-cases (p r)) [
    | inr out ↦ rw out (widen (lowest_loop p rs none) out (lowest_loop-IsLowest rs))
    | inl passes ↦ rw passes (found (lowest_loop p rs (some r)) passes (lowest_candidate rs r))
  ]
    where
      widen :
          (res : Option (Route Announcement))
          → p r ≡ false
          → IsLowest rs res
          → IsLowest (r ∷ rs) res
      widen none out all = (out, all)
      widen (some b) out (there, pb, all) = (inr there, pb, (λ passes. absurd (ground arith), all))

      found :
          (res : Option (Route Announcement))
          → p r ≡ true
          → Outcome rs (some r) res
          → IsLowest (r ∷ rs) res
      found none passes o = absurd o
      found (some b) passes (from, le, all) = elim from [
        | inl same ↦ (inl (sym same), subst (λ x. p x ≡ true) same passes, (λ _. le, all))
        | inr (there, pb) ↦ (inr there, pb, (λ _. le, all))
      ]

-- Both searches return a route of the given face, the second one with the child-inherit flag, such
-- that no route of that kind costs less, or nothing if there is no such route.
pub get_route_with_lowest_cost_lem :
    {Name Announcement : Type 0} (e : RibEntry Name Announcement) (face_id : ℕ)
    → IsLowest (is_on_face face_id) e.routes (get_route_with_lowest_cost_by_face_id e face_id)
      × IsLowest
          (λ r. is_on_face face_id r && is_child_inherit r)
          e.routes
          (get_route_with_lowest_cost_and_child_inherit_by_face_id e face_id)
unfolding get_route_with_lowest_cost_by_face_id
    get_route_with_lowest_cost_and_child_inherit_by_face_id
get_route_with_lowest_cost_lem e face_id = (
  lowest_loop-IsLowest (is_on_face face_id) e.routes,
  lowest_loop-IsLowest (λ r. is_on_face face_id r && is_child_inherit r) e.routes,
)
