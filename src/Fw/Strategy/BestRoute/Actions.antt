-- ===== src/Fw/Strategy/BestRoute/Actions.antt =====
-- The best-route strategy fills the interface of a strategy (daemon/fw/best-route-strategy.cpp).
use nfd.Base.{
  ℕ, Bool, true, false, [], Option, some, none, inl, inr, Bool-cases, Option-cases, ◌-◌, ltb,
}
use nfd.Packet.{Face, Interest, NackReason, no_route}
use nfd.Table.Pit.{Entry}
use nfd.Table.Pit.Records.{IsValid}
use nfd.Table.PitTable.{Stored, get}
use nfd.Table.Fib.{NextHop}
use nfd.Fw.Algorithm.{
  has_pending_out_records, get_last_outgoing, find_eligible_next_hop_with_earliest_out_record,
}
use nfd.Fw.RetxSuppression.{
  RetxSuppressionExponential, RetxSuppressionResult, new, forward, suppress, decide_per_pit_entry,
  us, stored_interval,
}
use nfd.Fw.ProcessNack.{Decision, nacks_face, waits, nacks_all, process_nack}
use nfd.Fw.Forwarder.{Forwarder, Env, FaceEndpoint}
use nfd.Fw.Strategy.{Strategy, Acts, Acts-trans, acts_none, acts_write}
use nfd.Fw.Strategy.Base
use nfd.Fw.Strategy.Base.Actions.{
  timer-Acts, send_interest-Acts, send_data-Acts, send_nack-Acts, send_nacks-Acts,
}
use nfd.Fw.Strategy.Lookup.{lookup_fib}
use nfd.Fw.Strategy.BestRoute.{
  carry_out, process_nack_at, store_interval, first_next_hop, send_new, send_earliest, send_again,
  forward_by, forward_entry, decide_at, after_receive_interest, after_receive_nack,
}

module _ {Name : Type 0} (env : Env Name) (retx : RetxSuppressionExponential)
    (is_less_severe : NackReason → NackReason → Bool) where
  store_interval-IsValid :
      (now : ℕ) (e : Entry Name)
      → IsValid e
      → IsValid (store_interval env retx is_less_severe now e)
  unfolding store_interval decide_per_pit_entry
  store_interval-IsValid now e v = elim (Bool-cases (has_pending_out_records e now)) [
    | inr none_pending ↦ rw (none_pending, store_interval, decide_per_pit_entry) v
    | inl pending ↦ elim (Option-cases (get_last_outgoing e)) [
      | inl absent ↦ rw (pending, absent, store_interval, decide_per_pit_entry) v
      | inr (last, found) ↦
          elim (Bool-cases (ltb (now - last) (us (stored_interval retx e.suppression_interval)))) [
            | inl soon ↦
                rw (pending, found, soon, store_interval, decide_per_pit_entry)
                  (record { ins = v.ins; outs = v.outs })
            | inr late ↦
                rw (pending, found, late, store_interval, decide_per_pit_entry)
                  (record { ins = v.ins; outs = v.outs })
          ]
    ]
  ]

module _ {Name : Type 0} (env : Env Name) {i now : ℕ} where
  carry_out-Acts :
      (fw : Forwarder Name) (decision : Decision) → Acts env i now fw (carry_out env fw i decision)
  carry_out-Acts fw (nacks_face face reason) = send_nack-Acts env reason face acts_none
  carry_out-Acts fw waits = acts_none
  carry_out-Acts fw (nacks_all reason) = send_nacks-Acts env fw reason []

  pub process_nack-Acts :
      (is_less_severe : NackReason → NackReason → Bool) (fw : Forwarder Name)
      (stored : Option (Stored Name))
      → Acts env i now fw (process_nack_at env is_less_severe fw i stored)
  process_nack-Acts is_less_severe fw none = acts_none
  process_nack-Acts is_less_severe fw (some s) =
      carry_out-Acts fw (process_nack is_less_severe s.entry)

  module _ (retx : RetxSuppressionExponential)
      (is_less_severe : NackReason → NackReason → Bool) where
    send_new-Acts :
        (fw : Forwarder Name) (interest : Interest Name) (in_face : Face) (hop : Option NextHop)
        → Acts env i now fw (send_new env retx is_less_severe fw interest in_face i now hop)
    send_new-Acts fw interest in_face none =
        timer-Acts env 0 (send_nack-Acts env no_route in_face acts_none)
    send_new-Acts fw interest in_face (some hop) = send_interest-Acts env fw interest hop.face

    send_earliest-Acts :
        (fw : Forwarder Name) (interest : Interest Name) (earliest : Option (Option (NextHop × ℕ)))
        → Acts env i now fw (send_earliest env retx is_less_severe fw interest i now earliest)
    send_earliest-Acts fw interest none = acts_none
    send_earliest-Acts fw interest (some none) = acts_none
    send_earliest-Acts fw interest (some (some (hop, _))) =
        send_interest-Acts env fw interest hop.face

    send_again-Acts :
        (fw : Forwarder Name) (interest : Interest Name) (earliest : Option (Option (NextHop × ℕ)))
        (hop : Option NextHop)
        → Acts env i now fw (send_again env retx is_less_severe fw interest i now earliest hop)
    send_again-Acts fw interest earliest (some hop) = send_interest-Acts env fw interest hop.face
    send_again-Acts fw interest earliest none = send_earliest-Acts fw interest earliest

    forward_by-Acts :
        (fw : Forwarder Name) (interest : Interest Name) (in_face : Face) (e : Entry Name)
        (suppression : RetxSuppressionResult)
        → Acts env i now fw
            (forward_by env retx is_less_severe fw interest in_face e i now suppression)
    forward_by-Acts fw interest in_face e suppress = acts_none
    forward_by-Acts fw interest in_face e new = send_new-Acts fw interest in_face (
        first_next_hop env retx is_less_severe in_face interest e (lookup_fib env fw e).next_hops
          false 0)
    forward_by-Acts fw interest in_face e forward =
        send_again-Acts fw interest
          (find_eligible_next_hop_with_earliest_out_record env.names in_face interest e
            (lookup_fib env fw e).next_hops)
          (first_next_hop env retx is_less_severe in_face interest e (lookup_fib env fw e).next_hops
            true now)

    forward_entry-Acts :
        (fw : Forwarder Name) (interest : Interest Name) (in_face : Face)
        (decision : Option (Entry Name × RetxSuppressionResult))
        → Acts env i now fw
            (forward_entry env retx is_less_severe fw interest in_face i now decision)
    forward_entry-Acts fw interest in_face none = acts_none
    forward_entry-Acts fw interest in_face (some (e, suppression)) =
        forward_by-Acts fw interest in_face e suppression

    pub after_receive_interest-Acts :
        (fw : Forwarder Name) (interest : Interest Name) (ingress : FaceEndpoint)
        → Acts env i now fw
            (after_receive_interest env retx is_less_severe fw interest ingress i now)
    unfolding after_receive_interest
    after_receive_interest-Acts fw interest ingress =
        Acts-trans
          (acts_write (store_interval env retx is_less_severe now)
            (record { keeps = store_interval-IsValid env retx is_less_severe now }) acts_none)
          (forward_entry-Acts _ interest ingress.face
            (decide_at env retx is_less_severe now (get fw.pit i)))

module _ {Name : Type 0} (env : Env Name) (retx : RetxSuppressionExponential)
    (is_less_severe : NackReason → NackReason → Bool) where
  -- The triggers that BestRouteStrategy overrides, and those of the base class.
  unfoldable pub best_route : Strategy env
  unfolding after_receive_nack Base.satisfy_interest Base.after_content_store_hit
  best_route = record {
    after_receive_interest = after_receive_interest env retx is_less_severe;
    after_receive_looped_interest = λ fw ingress interest i now. fw;
    before_satisfy_interest = λ fw packet ingress i now. fw;
    satisfy_interest = Base.satisfy_interest env;
    after_content_store_hit = Base.after_content_store_hit env;
    after_receive_nack = after_receive_nack env retx is_less_severe;
    after_new_next_hop = λ fw hop i now. fw;
    interest-Acts = λ fw interest ingress i now.
        after_receive_interest-Acts env {i = i} {now = now} retx is_less_severe fw interest ingress;
    looped-Acts = λ fw ingress interest i now. acts_none;
    before-Acts = λ fw packet ingress i now. acts_none;
    satisfy-Acts = λ fw i ingress packet downstreams now. acts_none;
    hit-Acts = λ fw packet ingress i now. send_data-Acts env packet ingress.face acts_none;
    nack-Acts = λ fw nack ingress i now.
        process_nack-Acts env {i = i} {now = now} is_less_severe fw (get fw.pit i);
    next_hop-Acts = λ fw hop i now. acts_none;
  }
