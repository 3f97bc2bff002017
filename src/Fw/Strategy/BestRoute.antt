-- ===== src/Fw/Strategy/BestRoute.antt =====
-- daemon/fw/best-route-strategy.{hpp,cpp}: the strategy that sends to the next hop of lowest cost.
--
-- `retx` holds the parameters of the suppression and `is_less_severe` is lp::isLessSevere. Where
-- the source would dereference an end iterator, the forwarder is left as it is. A PIT entry that
-- the forwarder passes to a trigger is always there.
pub mod Actions
pub mod Choice
use nfd.Base.{ℕ, Bool, true, false, List, [], ◌∷◌, Option, some, none, find_if}
use nfd.Packet.{Face, Interest, Nack, NackReason, no_route}
use nfd.Table.Pit.{Entry}
use nfd.Table.PitTable.{Stored, get}
use nfd.Table.Fib.{NextHop}
use nfd.Fw.Algorithm.{is_next_hop_eligible, find_eligible_next_hop_with_earliest_out_record}
use nfd.Fw.RetxSuppression.{
  RetxSuppressionExponential, RetxSuppressionResult, new, forward, suppress, decide_per_pit_entry,
}
use nfd.Fw.ProcessNack.{Decision, nacks_face, waits, nacks_all, process_nack}
use nfd.Fw.Forwarder.{Forwarder, Env, FaceEndpoint, modify_entry}
use nfd.Fw.Strategy.Base.{reject_pending_interest, send_interest, send_nack, send_nacks}
use nfd.Fw.Strategy.Lookup.{lookup_fib}

module _ {Name : Type 0} (env : Env Name) where
  -- What a strategy does for the decision on a Nack (ProcessNackTraits).
  abbrev pub carry_out : Forwarder Name → ℕ → Decision → Forwarder Name
  carry_out fw i (nacks_face face reason) = (send_nack env fw reason face i).0
  carry_out fw i waits = fw
  carry_out fw i (nacks_all reason) = send_nacks env fw reason i []

  abbrev pub process_nack_at :
      (NackReason → NackReason → Bool) → Forwarder Name → ℕ → Option (Stored Name) → Forwarder Name
  process_nack_at is_less_severe fw i none = fw
  process_nack_at is_less_severe fw i (some s) =
      carry_out fw i (process_nack is_less_severe s.entry)

  module _ (retx : RetxSuppressionExponential)
      (is_less_severe : NackReason → NackReason → Bool) where
    -- What the suppression stores on the entry.
    unfoldable pub store_interval : ℕ → Entry Name → Entry Name
    unfolding decide_per_pit_entry
    store_interval now e = elim (decide_per_pit_entry retx e now) [ none ↦ e | some (e', _) ↦ e' ]

    abbrev pub first_next_hop :
        Face → Interest Name → Entry Name → List NextHop → Bool → ℕ → Option NextHop
    first_next_hop in_face interest e hops want_unused now =
        find_if (λ hop. is_next_hop_eligible env.names in_face interest e hop want_unused now) hops

    -- A new Interest goes to the eligible next hop of lowest cost; without one it is Nacked.
    abbrev pub send_new :
        Forwarder Name → Interest Name → Face → ℕ → ℕ → Option NextHop → Forwarder Name
    send_new fw interest in_face i now none =
        reject_pending_interest (send_nack env fw no_route in_face i).0 i now
    send_new fw interest in_face i now (some hop) = (send_interest env fw interest hop.face i now).0

    -- To the eligible next hop that was used earliest.
    abbrev pub send_earliest :
        Forwarder Name → Interest Name → ℕ → ℕ → Option (Option (NextHop × ℕ)) → Forwarder Name
    send_earliest fw interest i now none = fw
    send_earliest fw interest i now (some none) = fw
    send_earliest fw interest i now (some (some (hop, _))) =
        (send_interest env fw interest hop.face i now).0

    -- To the eligible unused next hop of lowest cost, if there is one.
    abbrev pub send_again :
        Forwarder Name
        → Interest Name
        → ℕ
        → ℕ
        → Option (Option (NextHop × ℕ))
        → Option NextHop
        → Forwarder Name
    send_again fw interest i now earliest (some hop) =
        (send_interest env fw interest hop.face i now).0
    send_again fw interest i now earliest none = send_earliest fw interest i now earliest

    abbrev pub forward_by :
        Forwarder Name
        → Interest Name
        → Face
        → Entry Name
        → ℕ
        → ℕ
        → RetxSuppressionResult
        → Forwarder Name
    forward_by fw interest in_face e i now suppress = fw
    forward_by fw interest in_face e i now new =
        send_new fw interest in_face i now
          (first_next_hop in_face interest e (lookup_fib env fw e).next_hops false 0)
    forward_by fw interest in_face e i now forward =
        let hops = (lookup_fib env fw e).next_hops in
        send_again fw interest i now
          (find_eligible_next_hop_with_earliest_out_record env.names in_face interest e hops)
          (first_next_hop in_face interest e hops true now)

    abbrev pub forward_entry :
        Forwarder Name
        → Interest Name
        → Face
        → ℕ
        → ℕ
        → Option (Entry Name × RetxSuppressionResult)
        → Forwarder Name
    forward_entry fw interest in_face i now none = fw
    forward_entry fw interest in_face i now (some (e, suppression)) =
        forward_by fw interest in_face e i now suppression

    -- The decision on the entry that is there.
    abbrev pub decide_at : ℕ → Option (Stored Name) → Option (Entry Name × RetxSuppressionResult)
    decide_at now none = none
    decide_at now (some s) = decide_per_pit_entry retx s.entry now

    unfoldable pub after_receive_interest :
        Forwarder Name → Interest Name → FaceEndpoint → ℕ → ℕ → Forwarder Name
    unfolding store_interval lookup_fib send_interest send_nack is_next_hop_eligible
        find_eligible_next_hop_with_earliest_out_record
    after_receive_interest fw interest ingress i now =
        forward_entry (modify_entry (store_interval now) i fw) interest ingress.face i now
          (decide_at now (get fw.pit i))

    unfoldable pub after_receive_nack :
        Forwarder Name → Nack Name → FaceEndpoint → ℕ → ℕ → Forwarder Name
    unfolding process_nack send_nack send_nacks
    after_receive_nack fw nack ingress i now = process_nack_at is_less_severe fw i (get fw.pit i)
