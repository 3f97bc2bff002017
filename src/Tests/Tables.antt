-- ===== src/Tests/Tables.antt =====
-- The FIB and the removal of a face at concrete entries.
use nfd.Base.{ℕ, List, ◌∷◌, some, ==_iff, min, ◌≡◌, ◌⊎◌, refl, true, false, [], none, arith, All}
use nfd.Table.Pit.{get_in_record, get_out_record}
use nfd.Table.PitTable.{max_depth}
use nfd.Table.PitTable.Invariant
use nfd.Table.Fib.{has_next_hop, has_next_hops}
use nfd.Table.Fib.NextHops
use nfd.Table.FibTable.{find_longest_prefix_match}
use nfd.Table.FibTable.Longest.{IsLongest, IsAbsent, find_longest_prefix_match_lem}
use nfd.Table.FibTable.Refinement.{run-empty_table}
use nfd.Table.FibTable.Replacing.{DecidesEquality}
use nfd.Table.FibTable.AsMap.{Call, inserts, adds, removes, run, meaning, map_run}
use nfd.Table.Cleanup.{cleanup_on_face_removal, cleanup_on_face_removal_lem}
use nfd.Tests.Data.{east, west}
use nfd.Tests.Network.{pit_ops, fib}
use nfd.Tests.Forwarder.{waiting}

find_longest_prefix_match-next_hops : (find_longest_prefix_match pit_ops fib 9).next_hops ≡ []
unfolding find_longest_prefix_match
find_longest_prefix_match-next_hops = refl

find_longest_prefix_match_example :
    let e = find_longest_prefix_match pit_ops fib 7 in
    IsLongest pit_ops fib 7 (min 1 max_depth) e
    ⊎ (IsAbsent pit_ops fib 7 (min 1 max_depth) × (e.next_hops ≡ []))
find_longest_prefix_match_example = find_longest_prefix_match_lem pit_ops fib 7

fib-IsValid : All NextHops.IsValid fib.entries
fib-IsValid = (record { sorted = (omega arith, tt); distinct = λ k. ground arith }, tt)

waiting-IsValid : Invariant.IsValid waiting.pit
waiting-IsValid = record {
  distinct = λ i. ground arith;
  below = λ i above. ground arith;
  records = (record { ins = λ i. ground arith; outs = λ i. ground arith }, tt);
}

cleanup_on_face_removal_example :
    let (fib', pit') = cleanup_on_face_removal fib waiting.pit east in
    Invariant.IsValid pit'
    × All
        (λ s. (get_in_record s.entry east ≡ none) × (get_out_record s.entry east ≡ none))
        pit'.stored
    × All
        (λ e. NextHops.IsValid e × (has_next_hops e ≡ true) × (has_next_hop e east ≡ false))
        fib'.entries
unfolding has_next_hops
cleanup_on_face_removal_example =
    cleanup_on_face_removal_lem fib waiting.pit east fib-IsValid (refl, tt) waiting-IsValid

-- The entry goes away with its only next hop, and the second `adds` finds none.
abbrev calls : List (Call ℕ)
calls =
    inserts 7 ∷ adds 7 east 10 ∷ inserts 8 ∷ adds 8 west 5 ∷ removes 7 east ∷ adds 7 west 20 ∷ []

pit_ops-DecidesEquality : DecidesEquality pit_ops
pit_ops-DecidesEquality a b = ==_iff a b

run-empty_table_example :
    meaning pit_ops
      (λ hops. hops)
      (run pit_ops (λ hops. hops) (record { entries = []; n_items = 0 }) calls)
      8
    ≡ map_run pit_ops (λ hops. hops) (λ other. none) calls 8
run-empty_table_example = run-empty_table pit_ops (λ hops. hops) pit_ops-DecidesEquality calls 8

map_run-calls :
    map_run pit_ops (λ hops. hops) (λ other. none) calls 8
    ≡ some (record { face = west; cost = 5 } ∷ [])
unfolding map_run
map_run-calls = refl
