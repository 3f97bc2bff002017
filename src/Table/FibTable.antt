-- ===== src/Table/FibTable.antt =====
-- daemon/table/fib.{hpp,cpp}: the Forwarding Information Base, and the look-up of the longest
-- prefix in daemon/table/name-tree.cpp.
--
-- The FIB entries that hang on the nodes of the name tree are a list, with at most one entry for a
-- name. `PitOps` has what the table asks of the names of ndn-cxx. A look-up for a PIT entry or a
-- measurements entry goes up from the node of that entry, and is the look-up by its name here. A
-- new next hop is announced by the flag for the signal `afterNewNextHop`. `n_items` is m_nItems, a
-- size_t: it wraps, since `erase` of a prefix decrements it for every node of the name tree, also
-- one without a FIB entry. The assertion of the name tree's look-up, that a prefix is not longer
-- than the largest depth, is left out.
pub mod Longest
pub mod Replacing
pub mod Removal
pub mod AsMap
pub mod Meaning
pub mod Refinement
use nfd.Base.{
  ℕ, zero, suc, ◌+◌, ◌-◌, ◌%◌, ◌^◌, min, any_of, ◌||◌, Bool, true, false, List, [], ◌∷◌, ◌++◌,
  Option, some, none, find_if, erase_if, if◌then◌else◌,
}
use nfd.Packet.{Face}
use nfd.Table.Fib.{
  Entry, NextHop, has_next_hops, add_or_update_next_hop as add_or_update, remove_next_hop as remove,
}
use nfd.Table.PitTable.{PitOps, max_depth}

pub data RemoveNextHopResult : Type 0 where
  no_such_nexthop fib_entry_removed nexthop_removed : RemoveNextHopResult

pub record Fib (Name : Type 0) : Type 0 where
  pub entries : List (Entry Name)
  pub n_items : ℕ

abbrev pub size_mod : ℕ
size_mod = 2 ^ 64

-- `++` and `--` of a size_t.
abbrev pub incremented : ℕ → ℕ
incremented n = (n + 1) % size_mod

abbrev pub decremented : ℕ → ℕ
decremented n = (n + size_mod - 1) % size_mod

-- The count after a removal of a next hop.
abbrev pub count_removed : RemoveNextHopResult → ℕ → ℕ
count_removed no_such_nexthop n = n
count_removed fib_entry_removed n = decremented n
count_removed nexthop_removed n = n

module _ {Name : Type 0} where
  -- The entries and the result, by whether a next hop is removed and whether one is left.
  abbrev pub put_back :
      Entry Name
      → Entry Name
      → List (Entry Name)
      → Bool
      → Bool
      → List (Entry Name) × RemoveNextHopResult
  put_back e e' rest false is_left = (e ∷ rest, no_such_nexthop)
  put_back e e' rest true false = (rest, fib_entry_removed)
  put_back e e' rest true true = (e' ∷ rest, nexthop_removed)

  -- What becomes of an entry, in front of the others.
  abbrev pub remove_at :
      Face → Entry Name → List (Entry Name) → List (Entry Name) × RemoveNextHopResult
  remove_at face e rest =
      let (e', is_removed) = remove e face in put_back e e' rest is_removed (has_next_hops e')

  module _ (ops : PitOps Name) where
    abbrev pub has_prefix : Name → Entry Name → Bool
    has_prefix prefix e = ops.same_name e.prefix prefix

    unfoldable pub find_exact_match : Fib Name → Name → Option (Entry Name)
    find_exact_match fib prefix = find_if (has_prefix prefix) fib.entries

    -- From a depth up to the root.
    unfoldable pub longest_from : Fib Name → Name → ℕ → Option (Entry Name)
    unfolding find_exact_match
    longest_from fib name zero = find_exact_match fib (ops.prefix_of 0 name)
    longest_from fib name (suc depth) =
        let shorter = longest_from fib name depth in
        elim (find_exact_match fib (ops.prefix_of (suc depth) name)) [
          | none ↦ shorter
          | some e ↦ some e
        ]

    -- The empty entry, when there is none.
    unfoldable pub find_longest_prefix_match : Fib Name → Name → Entry Name
    unfolding longest_from
    find_longest_prefix_match fib name =
        elim (longest_from fib name (min (ops.size_of name) max_depth)) [
          | none ↦ record { prefix = ops.prefix_of 0 name; next_hops = [] }
          | some e ↦ e
        ]

    -- The table, the entry, and whether it is new.
    unfoldable pub insert : Fib Name → Name → Fib Name × Entry Name × Bool
    unfolding find_exact_match
    insert fib prefix = elim (find_exact_match fib prefix) [
      | some e ↦ (fib, e, false)
      | none ↦
          let e : Entry Name = record { prefix = prefix; next_hops = [] } in
          (record { entries = fib.entries ++ e ∷ []; n_items = incremented fib.n_items }, e, true)
    ]

    -- `other_node` says whether the name tree has a node of the prefix for another reason than a
    -- FIB entry.
    unfoldable pub erase : Fib Name → Name → Bool → Fib Name
    erase fib prefix other_node = record {
      entries = erase_if (has_prefix prefix) fib.entries;
      n_items =
          if any_of (has_prefix prefix) fib.entries || other_node
          then decremented fib.n_items
          else fib.n_items;
    }

    abbrev pub update_entries :
        (List NextHop → List NextHop)
        → List (Entry Name)
        → Name
        → Face
        → ℕ
        → List (Entry Name) × Bool
    update_entries sort [] prefix face cost = ([], false)
    update_entries sort (e ∷ rest) prefix face cost =
        let later = update_entries sort rest prefix face cost in
        if has_prefix prefix e
        then (let updated = add_or_update sort e face cost in (updated.0 ∷ rest, updated.2))
        else (e ∷ later.0, later.1)

    -- The table, and whether a new next hop is announced.
    unfoldable pub add_or_update_next_hop :
        (List NextHop → List NextHop) → Fib Name → Name → Face → ℕ → Fib Name × Bool
    unfolding add_or_update
    add_or_update_next_hop sort fib prefix face cost =
        let updated = update_entries sort fib.entries prefix face cost in
        (record fib { entries = updated.0 }, updated.1)

    abbrev pub remove_entries :
        List (Entry Name) → Name → Face → List (Entry Name) × RemoveNextHopResult
    remove_entries [] prefix face = ([], no_such_nexthop)
    remove_entries (e ∷ rest) prefix face =
        let later = remove_entries rest prefix face in
        if has_prefix prefix e then remove_at face e rest else (e ∷ later.0, later.1)

    unfoldable pub remove_next_hop : Fib Name → Name → Face → Fib Name × RemoveNextHopResult
    unfolding remove
    remove_next_hop fib prefix face =
        let removed = remove_entries fib.entries prefix face in
        (record { entries = removed.0; n_items = count_removed removed.1 fib.n_items }, removed.1)
