-- ===== src/Fw/Forwarder/Invariant/Interests.antt =====
-- The pipelines of an incoming Interest keep the forwarder valid (daemon/fw/forwarder.cpp).
use nfd.Base.{
  ℕ, suc, Bool, true, false, Option, some, none, inl, inr, Bool-cases, find_if, if◌then◌else◌,
  is_empty,
}
use nfd.Base.Keyed.{has_key}
use nfd.Packet.{Face, Interest, Data, is_point_to_point, NameOps}
use nfd.Table.PitTable
use nfd.Table.PitTable.Invariant
use nfd.Table.Cs
use nfd.Table.Cs.History
use nfd.Table.DeadNonceList
use nfd.Fw.Forwarder.{
  Forwarder, Env, FaceEndpoint, ForwarderCounters, count, modify_entry, violates_localhost, is_zero,
}
use nfd.Fw.Strategy.{Strategy, acts_interest, acts_none}
use nfd.Fw.Strategy.Base.{in_records_of}
use nfd.Fw.Forwarder.Incoming.{
  on_interest_loop, on_content_store_miss, on_content_store_hit, process_interest,
  on_incoming_interest, dispatch_interest, send_to_next_hop, process_inserted, attach_hop_limit,
  entry_has_duplicate, record_pending, share_hop_limit, answer_cs,
}
use nfd.Fw.Forwarder.Invariant.{
  IsValid, write-IsValid, timer-IsValid, insert_in-keeps, Acts-IsValid,
}
use nfd.Table.Pit.{insert_or_update_in_record}

pub if-IsValid :
    {Name : Type 0} (names : NameOps Name) {fw fw' : Forwarder Name} (b : Bool)
    → IsValid names fw
    → IsValid names fw'
    → IsValid names (if b then fw else fw')
if-IsValid names true v w = v
if-IsValid names false v w = w

module _ {Name : Type 0} (env : Env Name) where
  pub count-IsValid :
      (f : ForwarderCounters → ForwarderCounters) (fw : Forwarder Name)
      → IsValid env.names fw
      → IsValid env.names (count f fw)
  count-IsValid f fw v = record {
    pit_valid = v.pit_valid;
    cs_valid = v.cs_valid;
    nonces_valid = v.nonces_valid;
    sent_allowed = v.sent_allowed;
  }

  pub cs-IsValid :
      (fw : Forwarder Name) (event : History.Event Name)
      → IsValid env.names fw
      → IsValid env.names (record fw { cs = History.step env.cs_ops fw.cs event })
  cs-IsValid fw event v = record {
    pit_valid = v.pit_valid;
    cs_valid = History.step-IsWithin env.cs_ops fw.cs event v.cs_valid;
    nonces_valid = v.nonces_valid;
    sent_allowed = v.sent_allowed;
  }

  loop-IsValid :
      (fw : Forwarder Name) (interest : Interest Name) (ingress : FaceEndpoint)
      → IsValid env.names fw
      → IsValid env.names (on_interest_loop fw interest ingress)
  unfolding on_interest_loop
  loop-IsValid fw interest ingress v =
      elim (Bool-cases (is_point_to_point ingress.face.link_type)) [
        | inr other ↦ rw (other, on_interest_loop) v
        | inl p2p ↦
            rw (p2p, on_interest_loop)
              (record {
                pit_valid = v.pit_valid;
                cs_valid = v.cs_valid;
                nonces_valid = v.nonces_valid;
                sent_allowed = (p2p, v.sent_allowed);
              })
      ]

  insert-IsValid :
      (fw : Forwarder Name) (interest : Interest Name)
      → IsValid env.names fw
      → IsValid env.names
          (record fw { pit = (PitTable.insert env.names env.pit_ops fw.pit interest).0 })
  insert-IsValid fw interest v = record {
    pit_valid = Invariant.insert-IsValid env.names env.pit_ops fw.pit interest v.pit_valid;
    cs_valid = v.cs_valid;
    nonces_valid = v.nonces_valid;
    sent_allowed = v.sent_allowed;
  }

  module _ (strategy_of : Name → Strategy env) where
    next_hop-IsValid :
        (fw : Forwarder Name) (interest : Interest Name) (i now : ℕ) (face : Option Face)
        → IsValid env.names fw
        → IsValid env.names (send_to_next_hop env strategy_of fw interest i now face)
    next_hop-IsValid fw interest i now none v = v
    next_hop-IsValid fw interest i now (some face) v =
        Acts-IsValid env {i = i} {now = now} (acts_interest interest face acts_none) v

    dispatch-IsValid :
        (fw : Forwarder Name) (interest : Interest Name) (ingress : FaceEndpoint) (i now : ℕ)
        (next_hop : Option ℕ)
        → IsValid env.names fw
        → IsValid env.names (dispatch_interest env strategy_of fw interest ingress i now next_hop)
    dispatch-IsValid fw interest ingress i now none v =
        Acts-IsValid env
          ((strategy_of interest.name).interest-Acts fw interest
            (record { face = ingress.face; endpoint = 0 }) i now)
          v
    dispatch-IsValid fw interest ingress i now (some id) v =
        next_hop-IsValid fw interest i now (find_if (has_key (λ (f : Face). f.id) id) fw.face_table)
          v

    record-IsValid :
        (fw : Forwarder Name) (interest : Interest Name) (face : Face) (i now : ℕ)
        → IsValid env.names fw
        → IsValid env.names (record_pending fw interest face i now)
    unfolding record_pending
    record-IsValid fw interest face i now v =
        timer-IsValid env.names
          (modify_entry (λ e. insert_or_update_in_record e face interest now) i fw) i _ now
          (write-IsValid env.names (λ e. insert_or_update_in_record e face interest now) i fw
            (insert_in-keeps face interest now) v)

    share-IsValid :
        (is_new : Bool) (hop_limit : Option ℕ) (i : ℕ) (fw : Forwarder Name)
        → IsValid env.names fw
        → IsValid env.names (share_hop_limit is_new hop_limit i fw)
    share-IsValid true hop_limit i fw v =
        write-IsValid env.names
          (λ e. record e { interest = record e.interest { hop_limit = hop_limit } }) i fw
          (λ e w. record { ins = w.ins; outs = w.outs }) v
    share-IsValid false hop_limit i fw v = v

    miss-IsValid :
        (fw : Forwarder Name) (interest : Interest Name) (ingress : FaceEndpoint) (i : ℕ)
        (is_new : Bool) (now : ℕ)
        → IsValid env.names fw
        → IsValid env.names (on_content_store_miss env strategy_of fw interest ingress i is_new now)
    unfolding on_content_store_miss
    miss-IsValid fw interest ingress i is_new now v =
        let interest' = attach_hop_limit env strategy_of interest in
        dispatch-IsValid _ interest' ingress i now interest'.next_hop_face_id (
          record-IsValid _ interest' ingress.face i now (
            share-IsValid is_new interest'.hop_limit i _
              (count-IsValid (λ c. record c { n_cs_misses = suc c.n_cs_misses }) fw v)))

    hit-IsValid :
        (fw : Forwarder Name) (interest : Interest Name) (ingress : FaceEndpoint) (i : ℕ)
        (packet : Data Name) (now : ℕ)
        → IsValid env.names fw
        → IsValid env.names (on_content_store_hit env strategy_of fw interest ingress i packet now)
    unfolding on_content_store_hit
    hit-IsValid fw interest ingress i packet now v =
        let counted = count (λ c. record c { n_cs_hits = suc c.n_cs_hits }) fw in
        Acts-IsValid env ((strategy_of interest.name).hit-Acts _ _ ingress i now) (
          Acts-IsValid env ((strategy_of interest.name).before-Acts _ _ _ i now) (
            timer-IsValid env.names _ i 0 now (
              write-IsValid env.names
                (λ e. record e {
                  is_satisfied = true;
                  data_freshness_period = packet.freshness_period;
                })
                i counted (λ e w. record { ins = w.ins; outs = w.outs })
                (count-IsValid (λ c. record c { n_cs_hits = suc c.n_cs_hits }) fw v))))

    answer-IsValid :
        (fw : Forwarder Name) (interest : Interest Name) (ingress : FaceEndpoint) (i : ℕ)
        (is_new : Bool) (now : ℕ) (answer : Option (Data Name))
        → IsValid env.names fw
        → IsValid env.names (answer_cs env strategy_of fw interest ingress i is_new now answer)
    answer-IsValid fw interest ingress i is_new now none v =
        miss-IsValid fw interest ingress i is_new now v
    answer-IsValid fw interest ingress i is_new now (some packet) v =
        hit-IsValid fw interest ingress i packet now v

    process_inserted-IsValid :
        (fw : Forwarder Name) (interest : Interest Name) (ingress : FaceEndpoint) (i : ℕ)
        (is_new : Bool) (now : ℕ)
        → IsValid env.names fw
        → IsValid env.names (process_inserted env strategy_of fw interest ingress i is_new now)
    unfolding History.step
    process_inserted-IsValid fw interest ingress i is_new now v =
        if-IsValid env.names (entry_has_duplicate fw i interest.nonce ingress.face)
          (Acts-IsValid env
            ((strategy_of interest.name).looped-Acts (on_interest_loop fw interest ingress) ingress
              interest i now)
            (loop-IsValid fw interest ingress v))
          (if-IsValid env.names (is_empty (in_records_of fw i))
            (answer-IsValid _ interest ingress i is_new now
              (Cs.find env.cs_ops fw.cs interest now).1
              (cs-IsValid fw (History.finds interest now) v))
            (miss-IsValid fw interest ingress i is_new now v))

    process-IsValid :
        (fw : Forwarder Name) (interest : Interest Name) (ingress : FaceEndpoint) (now : ℕ)
        → IsValid env.names fw
        → IsValid env.names (process_interest env strategy_of fw interest ingress now)
    unfolding process_interest
    process-IsValid fw interest ingress now v =
        let inserted = PitTable.insert env.names env.pit_ops fw.pit interest in
        process_inserted-IsValid _ interest ingress inserted.1 inserted.2 now
          (insert-IsValid fw interest v)

    pub incoming_interest-IsValid :
        (fw : Forwarder Name) (interest : Interest Name) (ingress : FaceEndpoint) (now : ℕ)
        → IsValid env.names fw
        → IsValid env.names (on_incoming_interest env strategy_of fw interest ingress now)
    unfolding on_incoming_interest
    incoming_interest-IsValid fw interest ingress now v =
        let counted =
          count-IsValid (λ c. record c { n_in_interests = suc c.n_in_interests }) fw v in
        if-IsValid env.names (is_zero interest.hop_limit)
          (record {
            pit_valid = v.pit_valid;
            cs_valid = v.cs_valid;
            nonces_valid = v.nonces_valid;
            sent_allowed = v.sent_allowed;
          })
          (if-IsValid env.names (violates_localhost env.names ingress.face interest.name) counted (
            if-IsValid env.names
              (DeadNonceList.has env.make_entry fw.dead_nonce_list interest.name interest.nonce)
              (loop-IsValid _ _ ingress counted) (process-IsValid _ _ ingress now counted)))
