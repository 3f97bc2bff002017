-- ===== src/Fw/Strategy/Lookup.antt =====
-- daemon/fw/strategy.cpp: `lookupFib`, the FIB entry for a PIT entry.
--
-- The assertions on the FIB entries without next hops are left out.
use nfd.Base.{List, [], ◌∷◌, if◌then◌else◌}
use nfd.Table.Pit.{Entry}
use nfd.Table.Fib
use nfd.Table.Fib.{has_next_hops}
use nfd.Table.FibTable.{find_longest_prefix_match}
use nfd.Fw.Forwarder.{Forwarder, Env}

module _ {Name : Type 0} (env : Env Name) where
  -- The loop over the delegations, from the FIB entry of the one before.
  abbrev pub delegation_loop : Forwarder Name → List Name → Fib.Entry Name → Fib.Entry Name
  delegation_loop fw [] last = last
  delegation_loop fw (delegation ∷ hint) last =
      let e = find_longest_prefix_match env.pit_ops fw.fib delegation in
      let later = delegation_loop fw hint e in if has_next_hops e then e else later

  unfoldable pub lookup_fib : Forwarder Name → Entry Name → Fib.Entry Name
  unfolding find_longest_prefix_match has_next_hops
  lookup_fib fw e =
      delegation_loop fw e.interest.forwarding_hint
        (find_longest_prefix_match env.pit_ops fw.fib e.interest.name)
