-- ===== src/Fw/Forwarder/NewNextHop.antt =====
-- daemon/fw/forwarder.cpp: what the forwarder does when a FIB entry gets a new next hop
-- (onNewNextHop, by the signal of Fib::addOrUpdateNextHop).
--
-- The enumeration of the name tree visits the nodes under the prefix and skips the subtree of each
-- node, other than that of the prefix, that has a FIB entry; the nodes that are left are those with
-- no FIB entry at a prefix of theirs that is longer than the prefix.
use nfd.Base.{
  ℕ, Bool, true, false, not, ◌&&◌, List, [], ◌∷◌, Option, some, none, any_of, ltb, get_elem?,
}
use nfd.Packet.{Face}
use nfd.Table.PitTable.{Stored, get, ids_where}
use nfd.Table.Fib.{Entry, NextHop, add_or_update_next_hop as add_or_update}
use nfd.Table.FibTable.{find_exact_match, add_or_update_next_hop}
use nfd.Fw.Forwarder.{Forwarder, Env}
use nfd.Fw.Strategy.{Strategy}

module _ {Name : Type 0} (env : Env Name) (strategy_of : Name → Strategy env) where
  -- A FIB entry that stands between the prefix and a node.
  abbrev pub is_between : Name → Name → Entry Name → Bool
  is_between prefix node e =
      ltb (env.pit_ops.size_of prefix) (env.pit_ops.size_of e.prefix)
      && env.names.is_prefix_of e.prefix node

  abbrev pub is_affected : Forwarder Name → Name → Stored Name → Bool
  is_affected fw prefix s =
      env.names.is_prefix_of prefix s.nte && not (any_of (is_between prefix s.nte) fw.fib.entries)

  abbrev pub tell_strategy :
      Forwarder Name → NextHop → ℕ → ℕ → Option (Stored Name) → Forwarder Name
  tell_strategy fw hop i now none = fw
  tell_strategy fw hop i now (some s) =
      (strategy_of s.entry.interest.name).after_new_next_hop fw hop i now

  abbrev pub affected_loop : List ℕ → Forwarder Name → NextHop → ℕ → Forwarder Name
  affected_loop [] fw hop now = fw
  affected_loop (i ∷ is) fw hop now =
      affected_loop is (tell_strategy fw hop i now (get fw.pit i)) hop now

  unfoldable pub on_new_next_hop : Forwarder Name → Name → NextHop → ℕ → Forwarder Name
  on_new_next_hop fw prefix hop now =
      affected_loop (ids_where (is_affected fw prefix) fw.pit.stored) fw hop now

  abbrev pub announce : Forwarder Name → Name → ℕ → Option NextHop → Forwarder Name
  announce fw prefix now none = fw
  announce fw prefix now (some hop) = on_new_next_hop fw prefix hop now

  -- The next hop that the returned iterator refers to, if the next hop is new.
  abbrev pub new_next_hop : Entry Name × ℕ × Bool → Option NextHop
  new_next_hop (e, position, true) = get_elem? e.next_hops position
  new_next_hop (e, position, false) = none

  abbrev pub update_entry :
      Forwarder Name → Name → Face → ℕ → ℕ → Option (Entry Name) → Forwarder Name
  update_entry fw prefix face cost now none = fw
  update_entry fw prefix face cost now (some e) =
      announce
        (record fw {
          fib = (add_or_update_next_hop env.pit_ops env.sort_next_hops fw.fib prefix face cost).0;
        })
        prefix now (new_next_hop (add_or_update env.sort_next_hops e face cost))

  -- Fib::addOrUpdateNextHop on the entry of a prefix, with the slot of its signal.
  unfoldable pub add_fib_next_hop : Forwarder Name → Name → Face → ℕ → ℕ → Forwarder Name
  unfolding find_exact_match add_or_update_next_hop add_or_update on_new_next_hop
  add_fib_next_hop fw prefix face cost now =
      update_entry fw prefix face cost now (find_exact_match env.pit_ops fw.fib prefix)
