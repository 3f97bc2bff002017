-- ===== src/Fw/Forwarder/Invariant/Datas.antt =====
-- The pipelines of incoming Data, of an incoming Nack and of the expiry timer keep the forwarder
-- valid (daemon/fw/forwarder.cpp).
use nfd.Base.{
  ℕ, suc, true, false, not, List, [], ◌∷◌, Option, some, none, is_empty, ◌==◌, any_of, ◌≡◌, refl,
  inl, inr, Bool-cases, arith,
}
use nfd.Packet.{Face, Data, Nack, is_point_to_point}
use nfd.Table.Pit.{Entry, OutRecord, out_face, set_incoming_nack}
use nfd.Table.Pit.Records
use nfd.Base.Keyed.{count-update}
use nfd.Table.PitTable
use nfd.Table.PitTable.{Stored, get}
use nfd.Table.PitTable.Invariant.{erase-IsValid}
use nfd.Table.Cs
use nfd.Table.Cs.History
use nfd.Fw.Algorithm.{has_pending_out_records}
use nfd.Fw.UnsolicitedData.{decide, is_cache}
use nfd.Fw.Forwarder.{
  Forwarder, Env, FaceEndpoint, violates_localhost, on_interest_finalize, finalize, count_finalized,
}
use nfd.Fw.Strategy.{Strategy, Downstreams, same_endpoint}
use nfd.Fw.Strategy.Base.{close_down, mark_satisfied}
use nfd.Fw.Forwarder.IncomingData.{
  on_data_unsolicited, delete_in_records, add_entry_nonce, satisfy_entry, strategy_at, match_loop,
  unsatisfied_loop, is_ingress, send_loop, satisfy_matches, on_incoming_data, record_nack,
  expire_nacked, accept_nack, check_nack, on_incoming_nack,
}
use nfd.Fw.Forwarder.Invariant.{
  IsValid, write-IsValid, timer-IsValid, delete_in-keeps, delete_out-keeps, outgoing_data-IsValid,
  Acts-IsValid, nonces-IsValid,
}
use nfd.Fw.Forwarder.Invariant.Interests.{if-IsValid, count-IsValid, cs-IsValid}

module _ {Name : Type 0} (env : Env Name) where
  -- A Nack leaves an out-record at its face.
  set_nack_face :
      (nack : Nack Name) (r : OutRecord) → out_face (set_incoming_nack r nack).0 ≡ out_face r
  unfolding set_incoming_nack
  set_nack_face nack r = elim (Bool-cases (nack.interest.nonce == r.base.last_nonce)) [
    | inl same ↦ rw (same, set_incoming_nack) refl
    | inr other ↦ rw (other, set_incoming_nack) refl
  ]

  erase-keeps :
      (fw : Forwarder Name) (i : ℕ)
      → IsValid env.names fw
      → IsValid env.names (record fw { pit = PitTable.erase fw.pit i })
  erase-keeps fw i v = record {
    pit_valid = erase-IsValid i fw.pit v.pit_valid;
    cs_valid = v.cs_valid;
    nonces_valid = v.nonces_valid;
    sent_allowed = v.sent_allowed;
  }

  finalize-IsValid :
      (fw : Forwarder Name) (stored : Option (Stored Name))
      → IsValid env.names fw
      → IsValid env.names (finalize env stored fw)
  finalize-IsValid fw none v = v
  finalize-IsValid fw (some s) v = erase-keeps _ s.id (
      count-IsValid env (count_finalized env s.entry.is_satisfied) _
        (nonces-IsValid env fw s.entry none v))

  pub finalized-IsValid :
      (fw : Forwarder Name) (i : ℕ)
      → IsValid env.names fw
      → IsValid env.names (on_interest_finalize env fw i)
  unfolding on_interest_finalize
  finalized-IsValid fw i v = finalize-IsValid fw (get fw.pit i) v

  close-IsValid :
      (fw : Forwarder Name) (i now : ℕ)
      → IsValid env.names fw
      → IsValid env.names (close_down fw i now)
  close-IsValid fw i now v =
      write-IsValid env.names mark_satisfied i _ (λ e w. record { ins = w.ins; outs = w.outs })
        (timer-IsValid env.names fw i 0 now v)

  module _ (strategy_of : Name → Strategy env) where
    delete_ins-keeps :
        (ds : List FaceEndpoint) (e : Entry Name)
        → Records.IsValid e
        → Records.IsValid (delete_in_records env strategy_of ds e)
    delete_ins-keeps [] e v = v
    delete_ins-keeps (d ∷ ds) e v = delete_ins-keeps ds _ (delete_in-keeps d.face e v)

    record_nack-keeps :
        (nack : Nack Name) (face : Face) (e : Entry Name)
        → Records.IsValid e
        → Records.IsValid (record_nack env strategy_of nack face e)
    record_nack-keeps nack face e v = record {
      ins = v.ins;
      outs = λ j. omega (
        arith,
        count-update out_face (λ r. (set_incoming_nack r nack).0) (set_nack_face nack) face.ref j
            e.out_records,
        v.outs j,
      );
    }

    entry_nonce-IsValid :
        (fw : Forwarder Name) (upstream : Face) (stored : Option (Stored Name))
        → IsValid env.names fw
        → IsValid env.names (add_entry_nonce env strategy_of fw upstream stored)
    entry_nonce-IsValid fw upstream none v = v
    entry_nonce-IsValid fw upstream (some s) v = nonces-IsValid env fw s.entry (some upstream) v

    send_loop-IsValid :
        (ds : List FaceEndpoint) (fw : Forwarder Name) (packet : Data Name) (ingress : FaceEndpoint)
        → IsValid env.names fw
        → IsValid env.names (send_loop env strategy_of ds fw packet ingress)
    unfolding send_loop
    send_loop-IsValid [] fw packet ingress v = v
    send_loop-IsValid (d ∷ ds) fw packet ingress v = send_loop-IsValid ds _ packet ingress (
        if-IsValid env.names (is_ingress env strategy_of ingress d) v
          (outgoing_data-IsValid env fw packet d.face v))

    unsatisfied-IsValid :
        (pairs : List (FaceEndpoint × ℕ)) (fw : Forwarder Name) (satisfied : List FaceEndpoint)
        (now : ℕ)
        → IsValid env.names fw
        → IsValid env.names (unsatisfied_loop env strategy_of pairs fw satisfied now)
    unfolding unsatisfied_loop
    unsatisfied-IsValid [] fw satisfied now v = v
    unsatisfied-IsValid ((d, i) ∷ pairs) fw satisfied now v =
        let deleted = write-IsValid env.names _ i fw (delete_in-keeps d.face) v in
        unsatisfied-IsValid pairs _ satisfied now (
          if-IsValid env.names (any_of (same_endpoint d) satisfied)
            (if-IsValid env.names _ (close-IsValid _ i now deleted) deleted) v)

    unsolicited-IsValid :
        (fw : Forwarder Name) (packet : Data Name) (ingress : FaceEndpoint) (now : ℕ)
        → IsValid env.names fw
        → IsValid env.names (on_data_unsolicited env strategy_of fw packet ingress now)
    unfolding on_data_unsolicited History.step
    unsolicited-IsValid fw packet ingress now v =
        count-IsValid env (λ c. record c { n_unsolicited_data = suc c.n_unsolicited_data }) _
          (if-IsValid env.names (is_cache (decide env.unsolicited_data_policy ingress.face))
            (cs-IsValid env fw (History.inserts packet true now) v) v)

    satisfy-IsValid :
        (fw : Forwarder Name) (i : ℕ) (packet : Data Name) (ingress : FaceEndpoint)
        (chosen : Downstreams) (now : ℕ)
        → IsValid env.names fw
        → IsValid env.names (satisfy_entry env strategy_of fw i packet ingress chosen now)
    satisfy-IsValid fw i packet ingress chosen now v =
        write-IsValid env.names _ i _
          (λ e w.
            delete_out-keeps ingress.face _
              (delete_ins-keeps chosen.satisfied _ (record { ins = w.ins; outs = w.outs })))
          (entry_nonce-IsValid _ ingress.face _
            (if-IsValid env.names (is_empty chosen.unsatisfied) (close-IsValid fw i now v) v))

    match-IsValid :
        (is : List ℕ) (fw : Forwarder Name) (packet : Data Name) (ingress : FaceEndpoint)
        (satisfied : List FaceEndpoint) (now : ℕ)
        → IsValid env.names fw
        → IsValid env.names (match_loop env strategy_of is fw packet ingress satisfied now).0
    unfolding match_loop
    match-IsValid [] fw packet ingress satisfied now v = v
    match-IsValid (i ∷ is) fw packet ingress satisfied now v =
        let strategy = strategy_at env strategy_of fw packet i in
        let chosen =
          (strategy.satisfy_interest fw i ingress packet
            (record { satisfied = satisfied; unsatisfied = [] }) now).1 in
        match-IsValid is _ packet ingress chosen.satisfied now (
          satisfy-IsValid _ i packet ingress chosen now (
            Acts-IsValid env
              (strategy.satisfy-Acts fw i ingress packet
                (record { satisfied = satisfied; unsatisfied = [] }) now)
              v))

    matches-IsValid :
        (matches : List ℕ) (fw : Forwarder Name) (packet : Data Name) (ingress : FaceEndpoint)
        (now : ℕ)
        → IsValid env.names fw
        → IsValid env.names (satisfy_matches env strategy_of matches fw packet ingress now)
    unfolding satisfy_matches History.step
    matches-IsValid matches fw packet ingress now v =
        let cached = record fw { cs = Cs.insert env.cs_ops fw.cs packet false now } in
        let matched = match_loop env strategy_of matches cached packet ingress [] now in
        send_loop-IsValid matched.1 _ packet ingress (
          unsatisfied-IsValid matched.2 _ matched.1 now (
            match-IsValid matches _ packet ingress [] now
              (cs-IsValid env fw (History.inserts packet false now) v)))

    pub incoming_data-IsValid :
        (fw : Forwarder Name) (packet : Data Name) (ingress : FaceEndpoint) (now : ℕ)
        → IsValid env.names fw
        → IsValid env.names (on_incoming_data env strategy_of fw packet ingress now)
    unfolding on_incoming_data
    incoming_data-IsValid fw packet ingress now v =
        let counted = count-IsValid env (λ c. record c { n_in_data = suc c.n_in_data }) fw v in
        if-IsValid env.names (violates_localhost env.names ingress.face packet.name) counted (
          if-IsValid env.names
            (is_empty (PitTable.find_all_data_matches env.names env.pit_ops fw.pit packet))
            (unsolicited-IsValid _ packet ingress now counted)
            (matches-IsValid (PitTable.find_all_data_matches env.names env.pit_ops fw.pit packet) _
              packet ingress now counted))

    expire-IsValid :
        (fw : Forwarder Name) (i now : ℕ) (stored : Option (Stored Name))
        → IsValid env.names fw
        → IsValid env.names (expire_nacked env strategy_of fw i now stored)
    expire-IsValid fw i now none v = v
    expire-IsValid fw i now (some s) v =
        if-IsValid env.names (has_pending_out_records s.entry now) v
          (timer-IsValid env.names fw i 0 now v)

    accept-IsValid :
        (fw : Forwarder Name) (nack : Nack Name) (ingress : FaceEndpoint) (i now : ℕ)
        → IsValid env.names fw
        → IsValid env.names (accept_nack env strategy_of fw nack ingress i now)
    accept-IsValid fw nack ingress i now v =
        Acts-IsValid env ((strategy_of nack.interest.name).nack-Acts _ nack ingress i now) (
          expire-IsValid _ i now _
            (write-IsValid env.names _ i fw (record_nack-keeps nack ingress.face) v))

    check-IsValid :
        (fw : Forwarder Name) (nack : Nack Name) (ingress : FaceEndpoint) (now : ℕ)
        (found : Option (ℕ × OutRecord))
        → IsValid env.names fw
        → IsValid env.names (check_nack env strategy_of fw nack ingress now found)
    check-IsValid fw nack ingress now none v = v
    check-IsValid fw nack ingress now (some (i, r)) v =
        if-IsValid env.names (nack.interest.nonce == r.base.last_nonce)
          (accept-IsValid fw nack ingress i now v) v

    pub incoming_nack-IsValid :
        (fw : Forwarder Name) (nack : Nack Name) (ingress : FaceEndpoint) (now : ℕ)
        → IsValid env.names fw
        → IsValid env.names (on_incoming_nack env strategy_of fw nack ingress now)
    unfolding on_incoming_nack
    incoming_nack-IsValid fw nack ingress now v =
        let counted = count-IsValid env (λ c. record c { n_in_nacks = suc c.n_in_nacks }) fw v in
        if-IsValid env.names (not (is_point_to_point ingress.face.link_type)) counted
          (check-IsValid _ nack ingress now _ counted)
