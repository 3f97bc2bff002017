-- ===== src/Fw/Forwarder/Delivery.antt =====
-- Data reaches the faces that wait for it (daemon/fw/forwarder.cpp, onIncomingData, with
-- satisfyInterest of the base class of strategies).
pub mod Gathered
pub mod Writes
pub mod Sending
use mathlib.Core.Path.{subst}
use nfd.Base.{
  ℕ, suc, ◌≡◌, refl, inl, inr, true, false, List, [], ◌∷◌, IsOneOf, Bool-cases, Option-cases, arith,
  ltb, ◌==◌, ==_iff, is_empty,
}
use nfd.Packet.{Face, Data}
use nfd.Table.Pit.{InRecord}
use nfd.Table.PitTable
use nfd.Table.PitTable.{get}
use nfd.Table.Cs
use nfd.Fw.Forwarder.{Forwarder, Env, FaceEndpoint, count, violates_localhost}
use nfd.Fw.Strategy.{Strategy, Downstreams}
use nfd.Fw.Strategy.Base
use nfd.Fw.Strategy.Base.{add_unexpired, in_records_of}
use nfd.Fw.Forwarder.Delivery.Gathered.{
  downstream, AllAgree, add_keeps, add-AllAgree, add-downstream,
}
use nfd.Fw.Forwarder.Delivery.Sending.{IsServed, send-IsServed}
use nfd.Fw.Forwarder.Delivery.Writes.{FacesAgree, get-satisfy_entry, satisfy_entry-FacesAgree}
use nfd.Fw.Forwarder.IncomingData.{match_loop, strategy_at, satisfy_matches, on_incoming_data}

is_empty-false : (i : ℕ) (is : List ℕ) → IsOneOf i is → is_empty is ≡ false
is_empty-false i [] none_there = elim none_there [ ]
is_empty-false i (j ∷ is) there = refl

module _ {Name : Type 0} (env : Env Name) (strategy_of : Name → Strategy env) where
  -- The strategies choose the downstreams as the base class does.
  abbrev pub IsBase : Type 0
  IsBase =
      (name : Name) (fw : Forwarder Name) (i : ℕ) (ingress : FaceEndpoint) (packet : Data Name)
      (downstreams : Downstreams) (now : ℕ)
      → (strategy_of name).satisfy_interest fw i ingress packet downstreams now
        ≡ Base.satisfy_interest env fw i ingress packet downstreams now

  module _ (base : IsBase) (packet : Data Name) (ingress : FaceEndpoint) (now : ℕ) where
    chosen_at :
        (fw : Forwarder Name) (i : ℕ) (downstreams : Downstreams)
        → (strategy_at env strategy_of fw packet i).satisfy_interest fw i ingress packet downstreams
            now
          ≡ Base.satisfy_interest env fw i ingress packet downstreams now
    chosen_at fw i downstreams = elim (Option-cases (get fw.pit i)) [
      | inl absent ↦ rw (absent, strategy_at) (base packet.name fw i ingress packet downstreams now)
      | inr (s, found) ↦
          rw (found, strategy_at) (base s.entry.interest.name fw i ingress packet downstreams now)
    ]

    module _ (face : Face) where
      match_keeps :
          (is : List ℕ) (fw : Forwarder Name) (satisfied : List FaceEndpoint)
          → IsOneOf (downstream face) satisfied
          → IsOneOf
              (downstream face)
              (match_loop env strategy_of is fw packet ingress satisfied now).1
      unfolding match_loop Base.satisfy_interest
      match_keeps [] fw satisfied has = has
      match_keeps (i ∷ is) fw satisfied has =
          rw (chosen_at fw i (record { satisfied = satisfied; unsatisfied = [] }))
            (match_keeps is _ _ (add_keeps face now (in_records_of fw i) satisfied has))

      -- The face of an unexpired in-record of an entry that the loop visits is a downstream.
      match-downstream :
          (is : List ℕ) (fw : Forwarder Name) (satisfied : List FaceEndpoint) (i : ℕ)
          (r : InRecord Name)
          → r.base.face ≡ face
          → FacesAgree face fw
          → AllAgree face satisfied
          → IsOneOf i is
          → IsOneOf r (in_records_of fw i)
          → ltb now r.base.expiry ≡ true
          → IsOneOf
              (downstream face)
              (match_loop env strategy_of is fw packet ingress satisfied now).1
      unfolding match_loop Base.satisfy_interest
      match-downstream [] fw satisfied i r eq agree all none_there in_entry unexpired =
          elim none_there [ ]
      match-downstream (j ∷ is) fw satisfied i r eq agree all visited in_entry unexpired =
          let chosen : Downstreams = record {
            satisfied = add_unexpired now (in_records_of fw j) satisfied;
            unsatisfied = [];
          } in
          rw (chosen_at fw j (record { satisfied = satisfied; unsatisfied = [] }))
            (elim (Bool-cases (i == j)) [
              | inl same ↦ match_keeps is _ _ (
                  add-downstream face now (in_records_of fw j) r satisfied unexpired eq (agree j)
                    all
                    (subst (λ k. IsOneOf r (in_records_of fw k)) ((==_iff i j).0 same) in_entry))
              | inr other ↦ elim visited [
                | inl same ↦ absurd (ground (arith, other, same))
                | inr later ↦
                    match-downstream is _ _ i r eq
                      (satisfy_entry-FacesAgree face env strategy_of fw j packet ingress chosen now
                        agree)
                      (add-AllAgree face now (in_records_of fw j) satisfied (agree j) all) later
                      (rw
                        (get-satisfy_entry env strategy_of fw j i packet ingress chosen now
                          (λ same. ground (arith, other, same)))
                        in_entry)
                      unexpired
              ]
            ])

    matches-IsServed :
        (matches : List ℕ) (fw : Forwarder Name) (i : ℕ) (r : InRecord Name)
        → FacesAgree r.base.face fw
        → IsOneOf i matches
        → IsOneOf r (in_records_of fw i)
        → ltb now r.base.expiry ≡ true
        → IsServed env strategy_of packet ingress
            (downstream r.base.face)
            (satisfy_matches env strategy_of matches fw packet ingress now)
    unfolding satisfy_matches
    matches-IsServed matches fw i r agree matched in_entry unexpired =
        let cached = record fw { cs = Cs.insert env.cs_ops fw.cs packet false now } in
        send-IsServed env strategy_of packet ingress _ _ (downstream r.base.face) (
          match-downstream r.base.face matches cached [] i r refl agree
            (λ d none_there. elim none_there [ ]) matched in_entry unexpired)

    -- Data whose name the face it comes from may carry, and that PIT entries match, is sent to the
    -- face of every unexpired in-record of every such entry, unless that face, with the endpoint 0,
    -- is where the Data came from, on a link that is not ad hoc, or the face is removed, or may not
    -- carry the name; if the strategies choose the downstreams as the base class does, and the
    -- in-records that refer to the face agree on its properties.
    pub on_incoming_data-sends :
        (fw : Forwarder Name) (i : ℕ) (r : InRecord Name)
        → violates_localhost env.names ingress.face packet.name ≡ false
        → FacesAgree r.base.face fw
        → IsOneOf i (PitTable.find_all_data_matches env.names env.pit_ops fw.pit packet)
        → IsOneOf r (in_records_of fw i)
        → ltb now r.base.expiry ≡ true
        → let fw' = on_incoming_data env strategy_of fw packet ingress now in
          IsServed env strategy_of packet ingress (downstream r.base.face) fw'
    unfolding on_incoming_data satisfy_matches
    on_incoming_data-sends fw i r allowed agree matched in_entry unexpired =
        let matches = PitTable.find_all_data_matches env.names env.pit_ops fw.pit packet in
        rw (allowed, is_empty-false i matches matched, on_incoming_data)
          (matches-IsServed matches (count (λ c. record c { n_in_data = suc c.n_in_data }) fw) i r
            agree matched in_entry unexpired)
