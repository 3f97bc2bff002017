-- ===== src/Fw/Forwarder/Invariant/NextHops.antt =====
-- A new next hop keeps the forwarder valid (daemon/fw/forwarder.cpp, onNewNextHop).
use nfd.Base.{ℕ, List, [], ◌∷◌, Option, some, none}
use nfd.Packet.{Face}
use nfd.Table.PitTable.{Stored, get, ids_where}
use nfd.Table.Fib.{Entry, NextHop, add_or_update_next_hop as add_or_update}
use nfd.Table.FibTable.{Fib, find_exact_match}
use nfd.Fw.Forwarder.{Forwarder, Env}
use nfd.Fw.Forwarder.NewNextHop.{
  is_affected, tell_strategy, affected_loop, on_new_next_hop, announce, new_next_hop, update_entry,
  add_fib_next_hop,
}
use nfd.Fw.Forwarder.Invariant.{IsValid, Acts-IsValid}
use nfd.Fw.Strategy.{Strategy}

module _ {Name : Type 0} (env : Env Name) (strategy_of : Name → Strategy env) where
  pub fib-IsValid :
      (fw : Forwarder Name) (fib : Fib Name)
      → IsValid env.names fw
      → IsValid env.names (record fw { fib = fib })
  fib-IsValid fw fib v = record {
    pit_valid = v.pit_valid;
    cs_valid = v.cs_valid;
    nonces_valid = v.nonces_valid;
    sent_allowed = v.sent_allowed;
  }

  tell-IsValid :
      (fw : Forwarder Name) (hop : NextHop) (i now : ℕ) (stored : Option (Stored Name))
      → IsValid env.names fw
      → IsValid env.names (tell_strategy env strategy_of fw hop i now stored)
  tell-IsValid fw hop i now none v = v
  tell-IsValid fw hop i now (some s) v =
      Acts-IsValid env ((strategy_of s.entry.interest.name).next_hop-Acts fw hop i now) v

  affected-IsValid :
      (is : List ℕ) (fw : Forwarder Name) (hop : NextHop) (now : ℕ)
      → IsValid env.names fw
      → IsValid env.names (affected_loop env strategy_of is fw hop now)
  affected-IsValid [] fw hop now v = v
  affected-IsValid (i ∷ is) fw hop now v =
      affected-IsValid is _ hop now (tell-IsValid fw hop i now (get fw.pit i) v)

  announce-IsValid :
      (fw : Forwarder Name) (prefix : Name) (now : ℕ) (hop : Option NextHop)
      → IsValid env.names fw
      → IsValid env.names (announce env strategy_of fw prefix now hop)
  unfolding on_new_next_hop
  announce-IsValid fw prefix now none v = v
  announce-IsValid fw prefix now (some hop) v =
      affected-IsValid (ids_where (is_affected env strategy_of fw prefix) fw.pit.stored) fw hop now
        v

  update-IsValid :
      (fw : Forwarder Name) (prefix : Name) (face : Face) (cost now : ℕ)
      (found : Option (Entry Name))
      → IsValid env.names fw
      → IsValid env.names (update_entry env strategy_of fw prefix face cost now found)
  update-IsValid fw prefix face cost now none v = v
  update-IsValid fw prefix face cost now (some e) v =
      announce-IsValid _ prefix now
        (new_next_hop env strategy_of (add_or_update env.sort_next_hops e face cost))
        (fib-IsValid fw _ v)

  pub next_hop-IsValid :
      (fw : Forwarder Name) (prefix : Name) (face : Face) (cost now : ℕ)
      → IsValid env.names fw
      → IsValid env.names (add_fib_next_hop env strategy_of fw prefix face cost now)
  unfolding add_fib_next_hop
  next_hop-IsValid fw prefix face cost now v =
      update-IsValid fw prefix face cost now (find_exact_match env.pit_ops fw.fib prefix) v
