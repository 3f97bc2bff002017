-- ===== src/Table/FibTable/AsMap.antt =====
-- The FIB as a map from names to next hops (daemon/table/fib.cpp).
use nfd.Base.{ℕ, Bool, List, [], ◌∷◌, Option, some, none, erase_if, any_of, if◌then◌else◌, is_empty}
use nfd.Base.Keyed.{has_key}
use nfd.Packet.{Face}
use nfd.Table.Fib.{Entry, NextHop, hop_face, upsert_next_hop}
use nfd.Table.PitTable.{PitOps}
use nfd.Table.FibTable.{
  Fib, find_exact_match, insert, erase, add_or_update_next_hop, remove_next_hop,
}

-- A call that changes the table.
pub data Call (Name : Type 0) : Type 0 where
  inserts : Name → Call Name
  erases : Name → Bool → Call Name
  adds : Name → Face → ℕ → Call Name
  removes : Name → Face → Call Name

module _ {Name : Type 0} (ops : PitOps Name) (sort : List NextHop → List NextHop) where
  unfoldable pub step : Fib Name → Call Name → Fib Name
  unfolding insert erase add_or_update_next_hop remove_next_hop
  step fib (inserts prefix) = (insert ops fib prefix).0
  step fib (erases prefix other_node) = erase ops fib prefix other_node
  step fib (adds prefix face cost) = (add_or_update_next_hop ops sort fib prefix face cost).0
  step fib (removes prefix face) = (remove_next_hop ops fib prefix face).0

  unfoldable pub run : Fib Name → List (Call Name) → Fib Name
  unfolding step
  run fib [] = fib
  run fib (call ∷ calls) = run (step fib call) calls

  -- A map from names to the next hops of an entry, `none` where there is no entry.
  abbrev pub NextHopMap : Type 0
  NextHopMap = Name → Option (List NextHop)

  abbrev pub next_hops_of : Option (Entry Name) → Option (List NextHop)
  next_hops_of none = none
  next_hops_of (some e) = some e.next_hops

  -- What the table means.
  abbrev pub meaning : Fib Name → NextHopMap
  meaning fib name = next_hops_of (find_exact_match ops fib name)

  abbrev pub write : Name → Option (List NextHop) → NextHopMap → NextHopMap
  write name hops map other = if ops.same_name name other then hops else map other

  abbrev pub inserted : Option (List NextHop) → Option (List NextHop)
  inserted none = some []
  inserted (some hops) = some hops

  abbrev pub added : Face → ℕ → Option (List NextHop) → Option (List NextHop)
  added face cost none = none
  added face cost (some hops) = some (sort (upsert_next_hop face cost hops))

  -- An entry whose last next hop is removed goes away, one that had none stays.
  abbrev pub removed : Face → Option (List NextHop) → Option (List NextHop)
  removed face none = none
  removed face (some hops) =
      if any_of (has_key hop_face face.ref) hops
      then (let rest = erase_if (has_key hop_face face.ref) hops in
          if is_empty rest then none else some rest)
      else some hops

  -- The calls on a map.
  unfoldable pub map_step : NextHopMap → Call Name → NextHopMap
  unfolding upsert_next_hop
  map_step map (inserts prefix) = write prefix (inserted (map prefix)) map
  map_step map (erases prefix other_node) = write prefix none map
  map_step map (adds prefix face cost) = write prefix (added face cost (map prefix)) map
  map_step map (removes prefix face) = write prefix (removed face (map prefix)) map

  unfoldable pub map_run : NextHopMap → List (Call Name) → NextHopMap
  unfolding map_step
  map_run map [] = map
  map_run map (call ∷ calls) = map_run (map_step map call) calls
