-- ===== src/Fw/Forwarder/Drops.antt =====
-- What the forwarder leaves alone when it drops a packet (daemon/fw/forwarder.cpp).
use nfd.Base.{
  ℕ, suc, ◌≡◌, refl, inl, inr, Bool, true, false, not, ◌||◌, ◌&&◌, ◌∷◌, Option, some, none,
  Bool-cases, is_empty, if◌then◌else◌, arith, ◌==◌,
}
use nfd.Packet.{Interest, Data, Nack, duplicate, is_point_to_point}
use nfd.Table.Pit.{OutRecord}
use nfd.Table.PitTable
use nfd.Table.DeadNonceList
use nfd.Fw.UnsolicitedData.{decide, is_cache}
use nfd.Fw.Forwarder.{
  Forwarder, ForwarderCounters, Env, FaceEndpoint, sent_nack, count, is_zero, violates_localhost,
}
use nfd.Fw.Strategy.{Strategy}
use nfd.Fw.Forwarder.Incoming.{on_incoming_interest, on_interest_loop, decrement_hop_limit}
use nfd.Fw.Forwarder.IncomingData.{
  on_incoming_data, on_data_unsolicited, on_incoming_nack, check_nack, nacked_record,
}

-- The tables are as they were.
pub record SameTables {Name : Type 0} (fw fw' : Forwarder Name) : Type 0 where
  pub same_fib : fw'.fib ≡ fw.fib
  pub same_pit : fw'.pit ≡ fw.pit
  pub same_cs : fw'.cs ≡ fw.cs
  pub same_nonces : fw'.dead_nonce_list ≡ fw.dead_nonce_list

module _ {Name : Type 0} where
  uncounted :
      (f : ForwarderCounters → ForwarderCounters) (fw : Forwarder Name) {fw' : Forwarder Name}
      → SameTables (count f fw) fw'
      → SameTables fw fw'
  uncounted f fw same = record {
    same_fib = same.same_fib;
    same_pit = same.same_pit;
    same_cs = same.same_cs;
    same_nonces = same.same_nonces;
  }

  loop-SameTables :
      (fw : Forwarder Name) (interest : Interest Name) (ingress : FaceEndpoint)
      → let fw' = on_interest_loop fw interest ingress in
        SameTables fw fw'
        × (if is_point_to_point ingress.face.link_type
            then fw'.sent ≡ sent_nack ingress.face interest duplicate ∷ fw.sent
            else fw'.sent ≡ fw.sent)
  unfolding on_interest_loop
  loop-SameTables fw interest ingress =
      elim (Bool-cases (is_point_to_point ingress.face.link_type)) [
        | inl p2p ↦
            rw (p2p, on_interest_loop)
              (
                record { same_fib = refl; same_pit = refl; same_cs = refl; same_nonces = refl },
                refl,
              )
        | inr other ↦
            rw (other, on_interest_loop)
              (
                record { same_fib = refl; same_pit = refl; same_cs = refl; same_nonces = refl },
                refl,
              )
      ]

  module _ (env : Env Name) (strategy_of : Name → Strategy env) where
    -- An Interest with a hop limit of zero, or under /localhost from a face that is not local,
    -- leaves the tables as they were and sends nothing. One whose name and Nonce are in the Dead
    -- Nonce List leaves the tables as they were too, and is answered with a Nack for a duplicate if
    -- the face it comes from is point-to-point, with nothing otherwise.
    pub on_incoming_interest-SameTables :
        (fw : Forwarder Name) (interest : Interest Name) (ingress : FaceEndpoint) (now : ℕ)
        → let fw' = on_incoming_interest env strategy_of fw interest ingress now in
          let refused =
            is_zero interest.hop_limit || violates_localhost env.names ingress.face interest.name in
          let looped =
            DeadNonceList.has env.make_entry fw.dead_nonce_list interest.name interest.nonce in
          (refused ≡ true → SameTables fw fw' × (fw'.sent ≡ fw.sent))
          × (refused ≡ false
              → looped ≡ true
              → SameTables fw fw'
                × (if is_point_to_point ingress.face.link_type
                    then fw'.sent
                      ≡ sent_nack ingress.face (decrement_hop_limit interest) duplicate ∷ fw.sent
                    else fw'.sent ≡ fw.sent))
    unfolding on_incoming_interest
    on_incoming_interest-SameTables fw interest ingress now =
        elim (Bool-cases (is_zero interest.hop_limit)) [
          | inl zero_limit ↦
              rw (zero_limit, on_incoming_interest)
                (
                  λ h. (
                    record { same_fib = refl; same_pit = refl; same_cs = refl; same_nonces = refl },
                    refl,
                  ),
                  λ h. absurd (ground (arith, h)),
                )
          | inr live ↦ elim (Bool-cases (violates_localhost env.names ingress.face interest.name)) [
            | inl violates ↦
                rw (live, violates, on_incoming_interest)
                  (
                    λ h. (
                      record {
                        same_fib = refl;
                        same_pit = refl;
                        same_cs = refl;
                        same_nonces = refl;
                      },
                      refl,
                    ),
                    λ h. absurd (ground (arith, h)),
                  )
            | inr allowed ↦
                rw (live, allowed, on_incoming_interest)
                  (
                    λ h. absurd (ground (arith, h)),
                    λ h looped.
                        let dropped =
                          loop-SameTables
                            (count (λ c. record c { n_in_interests = suc c.n_in_interests }) fw)
                            (decrement_hop_limit interest) ingress in
                        rw looped (
                          uncounted (λ c. record c { n_in_interests = suc c.n_in_interests }) fw
                              dropped.0,
                          dropped.1,
                        ),
                  )
          ]
        ]

    -- Whether the out-record of a Nack has its Nonce.
    abbrev pub is_expected : Nack Name → Option (ℕ × OutRecord) → Bool
    is_expected nack none = false
    is_expected nack (some (i, r)) = nack.interest.nonce == r.base.last_nonce

    unexpected-SameTables :
        (fw : Forwarder Name) (nack : Nack Name) (ingress : FaceEndpoint) (now : ℕ)
        (found : Option (ℕ × OutRecord))
        → is_expected nack found ≡ false
        → let fw' = check_nack env strategy_of fw nack ingress now found in
          SameTables fw fw' × (fw'.sent ≡ fw.sent)
    unexpected-SameTables fw nack ingress now none h =
        (record { same_fib = refl; same_pit = refl; same_cs = refl; same_nonces = refl }, refl)
    unexpected-SameTables fw nack ingress now (some (i, r)) h =
        rw h (record { same_fib = refl; same_pit = refl; same_cs = refl; same_nonces = refl }, refl)

    -- A Nack from a face that is not point-to-point, or for which the face has no out-record with
    -- the Nonce of the Nack, leaves the tables as they were and sends nothing.
    pub on_incoming_nack-SameTables :
        (fw : Forwarder Name) (nack : Nack Name) (ingress : FaceEndpoint) (now : ℕ)
        → (is_point_to_point ingress.face.link_type
            && is_expected nack (nacked_record env strategy_of fw nack ingress.face))
          ≡ false
        → let fw' = on_incoming_nack env strategy_of fw nack ingress now in
          SameTables fw fw' × (fw'.sent ≡ fw.sent)
    unfolding on_incoming_nack
    on_incoming_nack-SameTables fw nack ingress now h =
        elim (Bool-cases (is_point_to_point ingress.face.link_type)) [
          | inr other ↦
              rw (other, on_incoming_nack)
                (
                  record { same_fib = refl; same_pit = refl; same_cs = refl; same_nonces = refl },
                  refl,
                )
          | inl p2p ↦
              let dropped =
                unexpected-SameTables (count (λ c. record c { n_in_nacks = suc c.n_in_nacks }) fw)
                  nack ingress now (nacked_record env strategy_of fw nack ingress.face)
                  (ground (arith, p2p, h)) in
              rw (p2p, on_incoming_nack)
                (
                  uncounted (λ c. record c { n_in_nacks = suc c.n_in_nacks }) fw dropped.0,
                  dropped.1,
                )
        ]

    unsolicited_lem :
        (fw : Forwarder Name) (packet : Data Name) (ingress : FaceEndpoint) (now : ℕ)
        → let fw' = on_data_unsolicited env strategy_of fw packet ingress now in
          (fw'.pit ≡ fw.pit)
          × (fw'.dead_nonce_list ≡ fw.dead_nonce_list)
          × (fw'.sent ≡ fw.sent)
          × (is_cache (decide env.unsolicited_data_policy ingress.face) ≡ false → fw'.cs ≡ fw.cs)
    unfolding on_data_unsolicited
    unsolicited_lem fw packet ingress now =
        elim (Bool-cases (is_cache (decide env.unsolicited_data_policy ingress.face))) [
          | inl cached ↦
              rw (cached, on_data_unsolicited) (refl, refl, refl, λ h. absurd (ground (arith, h)))
          | inr dropped ↦ rw (dropped, on_data_unsolicited) (refl, refl, refl, λ h. refl)
        ]

    -- Data that no PIT entry matches, or under /localhost from a face that is not local, changes
    -- neither the PIT nor the Dead Nonce List and is sent to no face; and the Content Store takes
    -- it only if the policy for unsolicited Data says so and the Data is not under /localhost from
    -- a face that is not local.
    pub on_incoming_data-unsolicited :
        (fw : Forwarder Name) (packet : Data Name) (ingress : FaceEndpoint) (now : ℕ)
        → let violates = violates_localhost env.names ingress.face packet.name in
          let matches = PitTable.find_all_data_matches env.names env.pit_ops fw.pit packet in
          let fw' = on_incoming_data env strategy_of fw packet ingress now in
          (violates || is_empty matches) ≡ true
          → (fw'.pit ≡ fw.pit)
            × (fw'.dead_nonce_list ≡ fw.dead_nonce_list)
            × (fw'.sent ≡ fw.sent)
            × ((is_cache (decide env.unsolicited_data_policy ingress.face) && not violates) ≡ false
                → fw'.cs ≡ fw.cs)
    unfolding on_incoming_data
    on_incoming_data-unsolicited fw packet ingress now h =
        elim (Bool-cases (violates_localhost env.names ingress.face packet.name)) [
          | inl violates ↦ rw (violates, on_incoming_data) (refl, refl, refl, λ skipped. refl)
          | inr allowed ↦
              let empty : is_empty
                    (PitTable.find_all_data_matches env.names env.pit_ops fw.pit packet)
                  ≡ true =
                ground (arith, allowed, h) in
              let taken =
                unsolicited_lem (count (λ c. record c { n_in_data = suc c.n_in_data }) fw) packet
                  ingress now in
              rw (allowed, empty, on_incoming_data)
                (taken.0, taken.1, taken.2, λ skipped. taken.3 (ground (arith, allowed, skipped)))
        ]
