-- ===== src/Table/Fib.antt =====
-- daemon/table/fib-nexthop.hpp and fib-entry.{hpp,cpp}: a FIB entry and its next hops.
--
-- The order in which `std::sort` leaves next hops of equal cost is unspecified, so the sort is a
-- parameter; `IsSort` states what the standard promises.
pub mod NextHops
pub mod Iterator
use mathlib.Core.List.{Perm}
use nfd.Base.{
  ℕ, ◌≤◌, ◌≡◌, Bool, true, false, not, List, [], ◌∷◌, ◌++◌, Option, some, none, length, find_if,
  erase_if, update_if, ◌==◌, if◌then◌else◌, suc, get_elem?,
}
use nfd.Base.Keyed.{has_key}
use nfd.Packet.{Face}

pub record NextHop : Type 0 where
  pub face : Face
  pub cost : ℕ

abbrev pub hop_face : NextHop → ℕ
hop_face h = h.face.ref

pub record Entry (Name : Type 0) : Type 0 where
  pub prefix : Name
  pub next_hops : List NextHop

abbrev pub IsSorted : List NextHop → Type 0
IsSorted [] = Unit {0}
IsSorted (h ∷ []) = Unit {0}
IsSorted (h ∷ h' ∷ hs) = (h.cost ≤ h'.cost) × IsSorted (h' ∷ hs)

pub record IsSort (sort : List NextHop → List NextHop) : Type 0 where
  pub permutes : (hs : List NextHop) → Perm (sort hs) hs
  pub sorts : (hs : List NextHop) → IsSorted (sort hs)

-- The position at which `std::find_if` stops; the length for the end iterator.
abbrev pub find_position : (NextHop → Bool) → List NextHop → ℕ
find_position p [] = 0
find_position p (h ∷ hs) = if p h then 0 else suc (find_position p hs)

-- The cost is written to the record found, or to a new record at the end.
unfoldable pub upsert_next_hop : Face → ℕ → List NextHop → List NextHop
upsert_next_hop face cost hops = elim (find_if (has_key hop_face face.ref) hops) [
  | none ↦ hops ++ (record { face = face; cost = cost }) ∷ []
  | some _ ↦ update_if (has_key hop_face face.ref) (λ h. record h { cost = cost }) hops
]

module _ {Name : Type 0} where
  unfoldable pub find_next_hop : Entry Name → Face → Option NextHop
  find_next_hop e face = find_if (has_key hop_face face.ref) e.next_hops

  unfoldable pub has_next_hop : Entry Name → Face → Bool
  unfolding find_next_hop
  has_next_hop e face = elim (find_next_hop e face) [ none ↦ false | some _ ↦ true ]

  unfoldable pub has_next_hops : Entry Name → Bool
  has_next_hops e = elim e.next_hops [ [] ↦ false | _ ∷ _ ↦ true ]

  -- The entry after the call, the position of the returned iterator and whether the next hop is
  -- new. The position is taken before the sort, and `std::sort` moves values, not iterators.
  unfoldable pub add_or_update_next_hop :
      (List NextHop → List NextHop) → Entry Name → Face → ℕ → Entry Name × ℕ × Bool
  unfolding upsert_next_hop
  add_or_update_next_hop sort e face cost = (
    record e { next_hops = sort (upsert_next_hop face cost e.next_hops) },
    find_position (has_key hop_face face.ref) e.next_hops,
    not (has_next_hop e face),
  )

  unfoldable pub remove_next_hop : Entry Name → Face → Entry Name × Bool
  remove_next_hop e face =
      if has_next_hop e face
      then (record e { next_hops = erase_if (has_key hop_face face.ref) e.next_hops }, true)
      else (e, false)
