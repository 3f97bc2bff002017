-- ===== src/Fw/Strategy/Multicast/Actions.antt =====
-- The multicast strategy fills the interface of a strategy (daemon/fw/multicast-strategy.cpp).
use nfd.Base.{
  ℕ, ◌≡◌, refl, Bool, true, false, not, List, [], ◌∷◌, Option, some, none, inl, inr, Option-cases,
  arith,
}
use nfd.Base.Keyed.{count-update}
use nfd.Packet.{Face, Interest}
use nfd.Table.Pit.{Entry, OutRecord, out_face, get_out_record}
use nfd.Table.Pit.Records.{IsValid}
use nfd.Table.PitTable.{Stored, get}
use nfd.Table.Fib.{NextHop}
use nfd.Fw.Algorithm.{is_next_hop_eligible}
use nfd.Fw.RetxSuppression.{
  RetxSuppressionExponential, RetxSuppressionResult, new, forward, suppress, decide_per_upstream,
  increment_interval_for_out_record, stored_interval,
}
use nfd.Fw.Forwarder.{Forwarder, Env, FaceEndpoint}
use nfd.Fw.Strategy.{Strategy, Acts, Acts-trans, acts_none, acts_write}
use nfd.Fw.Strategy.Base
use nfd.Fw.Strategy.Base.Actions.{if-Acts, send_interest-Acts, send_data-Acts}
use nfd.Fw.Strategy.Lookup.{lookup_fib}
use nfd.Fw.Strategy.Multicast.{
  increment_interval, increment_sent, send_upstream, send_hop, hop_loop, multicast_entry,
  after_receive_interest, is_eligible_for_any, send_new_hop, after_new_next_hop,
}

module _ {Name : Type 0} (env : Env Name) (retx : RetxSuppressionExponential) where
  out_face-increment :
      (r : OutRecord) → out_face (increment_interval_for_out_record retx r) ≡ out_face r
  unfolding increment_interval_for_out_record
  out_face-increment r = refl

  increment-IsValid :
      (face : Face) (e : Entry Name) → IsValid e → IsValid (increment_interval env retx face e)
  increment-IsValid face e v = record {
    ins = v.ins;
    outs = λ j. omega (
      arith,
      count-update out_face (increment_interval_for_out_record retx) out_face-increment face.ref j
          e.out_records,
      v.outs j,
    );
  }

  decide-IsValid :
      (face : Face) (now : ℕ) (e : Entry Name)
      → IsValid e
      → IsValid (decide_per_upstream retx e face now).0
  unfolding decide_per_upstream
  decide-IsValid face now e v = elim (Option-cases (get_out_record e face)) [
    | inl absent ↦ rw (absent, decide_per_upstream) v
    | inr (r, found) ↦
        rw (found, decide_per_upstream)
          (record {
            ins = v.ins;
            outs = λ j. omega (
              arith,
              count-update out_face
                  (λ o. record o {
                    suppression_interval = some (stored_interval retx r.suppression_interval);
                  })
                  (λ o. refl) face.ref j e.out_records,
              v.outs j,
            );
          })
  ]

  module _ {i now : ℕ} where
    increment-Acts :
        {fw : Forwarder Name} (face : Face) (result : RetxSuppressionResult)
        (sent : Forwarder Name × Bool)
        → Acts env i now fw sent.0
        → Acts env i now fw (increment_sent env retx face i result sent)
    increment-Acts face forward (fw', true) acts =
        acts_write (increment_interval env retx face) (record { keeps = increment-IsValid face })
          acts
    increment-Acts face forward (fw', false) acts = acts
    increment-Acts face new (fw', sent) acts = acts
    increment-Acts face suppress (fw', sent) acts = acts

    upstream-Acts :
        (fw : Forwarder Name) (interest : Interest Name) (in_face : Face) (hop : NextHop)
        (e : Entry Name) (result : RetxSuppressionResult)
        → Acts env i now fw (send_upstream env retx fw interest in_face hop e i now result)
    upstream-Acts fw interest in_face hop e suppress = acts_none
    upstream-Acts fw interest in_face hop e new =
        if-Acts env (not (is_next_hop_eligible env.names in_face interest e hop false 0)) acts_none
          (increment-Acts hop.face new (Base.send_interest env fw interest hop.face i now)
            (send_interest-Acts env fw interest hop.face))
    upstream-Acts fw interest in_face hop e forward =
        if-Acts env (not (is_next_hop_eligible env.names in_face interest e hop false 0)) acts_none
          (increment-Acts hop.face forward (Base.send_interest env fw interest hop.face i now)
            (send_interest-Acts env fw interest hop.face))

    hop-Acts :
        (fw : Forwarder Name) (interest : Interest Name) (in_face : Face) (hop : NextHop)
        (stored : Option (Stored Name))
        → Acts env i now fw (send_hop env retx fw interest in_face hop i now stored)
    hop-Acts fw interest in_face hop none = acts_none
    hop-Acts fw interest in_face hop (some s) =
        let decided = decide_per_upstream retx s.entry hop.face now in
        Acts-trans
          (acts_write (λ e. (decide_per_upstream retx e hop.face now).0)
            (record { keeps = decide-IsValid hop.face now }) acts_none)
          (upstream-Acts _ interest in_face hop decided.0 decided.1)

    loop-Acts :
        (hops : List NextHop) (fw : Forwarder Name) (interest : Interest Name) (in_face : Face)
        → Acts env i now fw (hop_loop env retx hops fw interest in_face i now)
    unfolding hop_loop
    loop-Acts [] fw interest in_face = acts_none
    loop-Acts (hop ∷ hops) fw interest in_face =
        Acts-trans (hop-Acts fw interest in_face hop (get fw.pit i))
          (loop-Acts hops _ interest in_face)

    entry-Acts :
        (fw : Forwarder Name) (interest : Interest Name) (in_face : Face)
        (stored : Option (Stored Name))
        → Acts env i now fw (multicast_entry env retx fw interest in_face i now stored)
    entry-Acts fw interest in_face none = acts_none
    entry-Acts fw interest in_face (some s) =
        loop-Acts (lookup_fib env fw s.entry).next_hops fw interest in_face

    pub after_receive_interest-Acts :
        (fw : Forwarder Name) (interest : Interest Name) (ingress : FaceEndpoint)
        → Acts env i now fw (after_receive_interest env retx fw interest ingress i now)
    unfolding after_receive_interest
    after_receive_interest-Acts fw interest ingress =
        entry-Acts fw interest ingress.face (get fw.pit i)

    new_hop-Acts :
        (fw : Forwarder Name) (hop : NextHop) (stored : Option (Stored Name))
        → Acts env i now fw (send_new_hop env retx fw hop i now stored)
    new_hop-Acts fw hop none = acts_none
    new_hop-Acts fw hop (some s) =
        if-Acts env (is_eligible_for_any env retx s.entry hop)
          (send_interest-Acts env fw s.entry.interest hop.face) acts_none

    pub after_new_next_hop-Acts :
        (fw : Forwarder Name) (hop : NextHop)
        → Acts env i now fw (after_new_next_hop env retx fw hop i now)
    unfolding after_new_next_hop
    after_new_next_hop-Acts fw hop = new_hop-Acts fw hop (get fw.pit i)

  -- The triggers that MulticastStrategy overrides, and those of the base class.
  unfoldable pub multicast : Strategy env
  unfolding Base.satisfy_interest Base.after_content_store_hit after_receive_interest
      after_new_next_hop
  multicast = record {
    after_receive_interest = after_receive_interest env retx;
    after_receive_looped_interest = λ fw ingress interest i now. fw;
    before_satisfy_interest = λ fw packet ingress i now. fw;
    satisfy_interest = Base.satisfy_interest env;
    after_content_store_hit = Base.after_content_store_hit env;
    after_receive_nack = λ fw nack ingress i now. fw;
    after_new_next_hop = after_new_next_hop env retx;
    interest-Acts = λ fw interest ingress i now.
        after_receive_interest-Acts {i = i} {now = now} fw interest ingress;
    looped-Acts = λ fw ingress interest i now. acts_none;
    before-Acts = λ fw packet ingress i now. acts_none;
    satisfy-Acts = λ fw i ingress packet downstreams now. acts_none;
    hit-Acts = λ fw packet ingress i now. send_data-Acts env packet ingress.face acts_none;
    nack-Acts = λ fw nack ingress i now. acts_none;
    next_hop-Acts = λ fw hop i now. after_new_next_hop-Acts {i = i} {now = now} fw hop;
  }
