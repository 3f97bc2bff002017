-- ===== src/Fw/Strategy/BestRoute/Choice.antt =====
-- What the best-route strategy sends for an Interest (daemon/fw/best-route-strategy.cpp).
use mathlib.Core.Path.{subst}
use nfd.Base.{
  some_inj, arith, ℕ, ◌≡◌, refl, ◌⊎◌, inl, inr, Bool, true, false, ◌&&◌, List, [], ◌∷◌, Option,
  some, none, Bool-cases, Option-cases, find_if_holds, find_if-IsOneOf, IsOneOf, ◌==◌,
}
use nfd.Packet.{
  Face, Interest, NackReason, no_route, is_non_local, is_point_to_point, invalid_face_id,
}
use nfd.Table.Pit.{Entry, get_out_record}
use nfd.Table.PitTable.{Stored, get}
use nfd.Table.Fib.{NextHop}
use nfd.Fw.Algorithm.{
  is_next_hop_eligible, find_eligible_next_hop_with_earliest_out_record, earliest_loop, is_earlier,
}
use nfd.Fw.RetxSuppression.{
  RetxSuppressionExponential, RetxSuppressionResult, new, forward, suppress, decide_per_pit_entry,
}
use nfd.Fw.Forwarder.{
  Forwarder, Env, FaceEndpoint, sent_interest, sent_nack, id_in, is_zero, on_outgoing_interest,
  on_outgoing_nack, nack_in_record, pending_interest, set_expiry_timer, modify_entry,
}
use nfd.Fw.Strategy.Base.{send_interest, send_nack}
use nfd.Fw.Strategy.Lookup.{lookup_fib}
use nfd.Fw.Strategy.BestRoute.{
  store_interval, first_next_hop, send_new, send_earliest, send_again, forward_by,
  after_receive_interest,
}

-- A next hop that may be used; an unused one may be used.
module _ {Name : Type 0} (env : Env Name) where
  unused_eligible :
      (in_face : Face) (interest : Interest Name) (e : Entry Name) (hop : NextHop) (now : ℕ)
      → is_next_hop_eligible env.names in_face interest e hop true now ≡ true
      → is_next_hop_eligible env.names in_face interest e hop false 0 ≡ true
  unfolding is_next_hop_eligible
  unused_eligible in_face interest e hop now h = ground (arith, h)

  interest-sent :
      (fw : Forwarder Name) (interest : Interest Name) (egress : Face) (i now : ℕ)
      → let fw' = (on_outgoing_interest env fw interest egress i now).0 in
        (fw'.sent ≡ fw.sent) ⊎ (fw'.sent ≡ sent_interest egress interest ∷ fw.sent)
  unfolding on_outgoing_interest
  interest-sent fw interest egress i now =
      elim (Bool-cases (is_zero interest.hop_limit && is_non_local egress.scope)) [
        | inl refused ↦ rw (refused, on_outgoing_interest) (inl refl)
        | inr allowed ↦ rw (allowed, on_outgoing_interest) (inr refl)
      ]

  nack_in_record-sent :
      (fw : Forwarder Name) (reason : NackReason) (egress : Face) (i : ℕ)
      (pending : Option (Interest Name))
      → let fw' = (nack_in_record env fw reason egress i pending).0 in
        (fw'.sent ≡ fw.sent)
        ⊎ ((nacked : Interest Name) × (fw'.sent ≡ sent_nack egress nacked reason ∷ fw.sent))
  nack_in_record-sent fw reason egress i none = inl refl
  nack_in_record-sent fw reason egress i (some interest) =
      elim (Bool-cases (is_point_to_point egress.link_type)) [
        | inr other ↦ rw other (inl refl)
        | inl p2p ↦ rw p2p (inr (interest, refl))
      ]

  nack-sent :
      (fw : Forwarder Name) (reason : NackReason) (egress : Face) (i : ℕ)
      → let fw' = (on_outgoing_nack env fw reason egress i).0 in
        (fw'.sent ≡ fw.sent)
        ⊎ ((nacked : Interest Name) × (fw'.sent ≡ sent_nack egress nacked reason ∷ fw.sent))
  unfolding on_outgoing_nack
  nack-sent fw reason egress i = elim (Bool-cases (id_in fw.sent egress == invalid_face_id)) [
    | inl invalid ↦ rw (invalid, on_outgoing_nack) (inl refl)
    | inr valid ↦
        rw (valid, on_outgoing_nack)
          (nack_in_record-sent fw reason egress i (pending_interest env fw i egress))
  ]

  module _ (retx : RetxSuppressionExponential)
      (is_less_severe : NackReason → NackReason → Bool) where
    -- Nothing more was sent, or a Nack to the face the Interest came from, or the Interest to an
    -- eligible next hop of `hops`.
    abbrev pub SendsAtMostOne :
        Forwarder Name → Interest Name → Face → Entry Name → List NextHop → Forwarder Name → Type 0
    SendsAtMostOne fw interest in_face e hops fw' =
        (fw'.sent ≡ fw.sent)
        ⊎ ((nacked : Interest Name) × (fw'.sent ≡ sent_nack in_face nacked no_route ∷ fw.sent))
        ⊎ ((hop : NextHop) × IsOneOf hop hops
            × (is_next_hop_eligible env.names in_face interest e hop false 0 ≡ true)
            × (fw'.sent ≡ sent_interest hop.face (record interest { pit_token = none }) ∷ fw.sent))

    send_to_hop :
        (fw : Forwarder Name) (interest : Interest Name) (in_face : Face) (e : Entry Name)
        (hops : List NextHop) (hop : NextHop) (i now : ℕ)
        → IsOneOf hop hops
        → is_next_hop_eligible env.names in_face interest e hop false 0 ≡ true
        → SendsAtMostOne fw interest in_face e hops (send_interest env fw interest hop.face i now).0
    unfolding send_interest
    send_to_hop fw interest in_face e hops hop i now found eligible =
        elim (interest-sent fw (record interest { pit_token = none }) hop.face i now) [
          | inl kept ↦ inl kept
          | inr sent ↦ inr (inr (hop, found, eligible, sent))
        ]

    send_new_lem :
        (fw : Forwarder Name) (interest : Interest Name) (in_face : Face) (e : Entry Name)
        (hops : List NextHop) (i now : ℕ)
        → SendsAtMostOne fw interest in_face e hops (
            send_new env retx is_less_severe fw interest in_face i now
              (first_next_hop env retx is_less_severe in_face interest e hops false 0))
    unfolding send_nack set_expiry_timer
    send_new_lem fw interest in_face e hops i now =
        elim (Option-cases
          (first_next_hop env retx is_less_severe in_face interest e hops false 0)) [
            | inl absent ↦ rw absent (elim (nack-sent fw no_route in_face i) [
              | inl kept ↦ inl kept
              | inr sent ↦ inr (inl sent)
            ])
            | inr (hop, found) ↦ rw found (
                send_to_hop fw interest in_face e hops hop i now
                  (find_if-IsOneOf
                    (λ h. is_next_hop_eligible env.names in_face interest e h false 0) hops hop
                    found)
                  (find_if_holds (λ h. is_next_hop_eligible env.names in_face interest e h false 0)
                    hops hop found))
          ]

    -- What the loop over a part of `all` holds is an eligible one of `all`.
    abbrev IsEligible :
        Interest Name → Face → Entry Name → List NextHop → Option (NextHop × ℕ) → Type 0
    IsEligible interest in_face e all none = Unit
    IsEligible interest in_face e all (some (hop, t)) =
        IsOneOf hop all × (is_next_hop_eligible env.names in_face interest e hop false 0 ≡ true)

    earliest_loop-IsEligible :
        (interest : Interest Name) (in_face : Face) (e : Entry Name) (all hops : List NextHop)
        (best res : Option (NextHop × ℕ))
        → ((h : NextHop) → IsOneOf h hops → IsOneOf h all)
        → IsEligible interest in_face e all best
        → earliest_loop env.names in_face interest e hops best ≡ some res
        → IsEligible interest in_face e all res
    unfolding earliest_loop
    earliest_loop-IsEligible interest in_face e all [] best res sub ok h =
        subst (IsEligible interest in_face e all) (some_inj h) ok
    earliest_loop-IsEligible interest in_face e all (hop ∷ hops) best res sub ok h =
        elim (Bool-cases (is_next_hop_eligible env.names in_face interest e hop false 0)) [
          | inr refused ↦
              earliest_loop-IsEligible interest in_face e all hops best res (λ h q. sub h (inr q))
                ok (ground arith)
          | inl eligible ↦ elim (Option-cases (get_out_record e hop.face)) [
            | inl absent ↦ absurd (ground arith)
            | inr (r, found) ↦
                elim (Bool-cases
                  (is_earlier env.names in_face interest e r.base.last_renewed best)) [
                    | inl earlier ↦
                        earliest_loop-IsEligible interest in_face e all hops
                          (some (hop, r.base.last_renewed)) res (λ h q. sub h (inr q))
                          (sub hop (inl refl), eligible) (ground arith)
                    | inr later ↦
                        earliest_loop-IsEligible interest in_face e all hops best res
                          (λ h q. sub h (inr q)) ok (ground arith)
                  ]
          ]
        ]

    send_earliest_lem :
        (fw : Forwarder Name) (interest : Interest Name) (in_face : Face) (e : Entry Name)
        (hops : List NextHop) (i now : ℕ) (earliest : Option (Option (NextHop × ℕ)))
        → ((res : Option (NextHop × ℕ))
            → earliest ≡ some res
            → IsEligible interest in_face e hops res)
        → SendsAtMostOne fw interest in_face e hops
            (send_earliest env retx is_less_severe fw interest i now earliest)
    send_earliest_lem fw interest in_face e hops i now none ok = inl refl
    send_earliest_lem fw interest in_face e hops i now (some none) ok = inl refl
    send_earliest_lem fw interest in_face e hops i now (some (some (hop, t))) ok =
        let (found, eligible) = ok (some (hop, t)) refl in
        send_to_hop fw interest in_face e hops hop i now found eligible

    send_again_lem :
        (fw : Forwarder Name) (interest : Interest Name) (in_face : Face) (e : Entry Name)
        (hops : List NextHop) (i now : ℕ)
        → SendsAtMostOne fw interest in_face e hops (
            send_again env retx is_less_severe fw interest i now
              (find_eligible_next_hop_with_earliest_out_record env.names in_face interest e hops)
              (first_next_hop env retx is_less_severe in_face interest e hops true now))
    unfolding find_eligible_next_hop_with_earliest_out_record
    send_again_lem fw interest in_face e hops i now =
        elim (Option-cases
          (first_next_hop env retx is_less_severe in_face interest e hops true now)) [
            | inl absent ↦ rw absent (
                send_earliest_lem fw interest in_face e hops i now
                  (find_eligible_next_hop_with_earliest_out_record env.names in_face interest e
                    hops)
                  (λ res found.
                    earliest_loop-IsEligible interest in_face e hops hops none res (λ h q. q) tt
                      found))
            | inr (hop, found) ↦ rw found (
                send_to_hop fw interest in_face e hops hop i now
                  (find_if-IsOneOf
                    (λ h. is_next_hop_eligible env.names in_face interest e h true now) hops hop
                    found)
                  (unused_eligible in_face interest e hop now (
                    find_if_holds
                      (λ h. is_next_hop_eligible env.names in_face interest e h true now) hops hop
                      found)))
          ]

    forward_by_lem :
        (fw : Forwarder Name) (interest : Interest Name) (in_face : Face) (e : Entry Name)
        (i now : ℕ) (suppression : RetxSuppressionResult)
        → SendsAtMostOne fw interest in_face e
            (lookup_fib env fw e).next_hops
            (forward_by env retx is_less_severe fw interest in_face e i now suppression)
    forward_by_lem fw interest in_face e i now suppress = inl refl
    forward_by_lem fw interest in_face e i now new =
        send_new_lem fw interest in_face e (lookup_fib env fw e).next_hops i now
    forward_by_lem fw interest in_face e i now forward =
        send_again_lem fw interest in_face e (lookup_fib env fw e).next_hops i now

    -- For an Interest at a PIT entry, the best-route strategy sends at most one packet: a Nack with
    -- the reason NoRoute to the face that the Interest came from, or the Interest, without its PIT
    -- token, to the face of a next hop of the FIB entry that the look-up for the PIT entry finds,
    -- one that is eligible for the PIT entry; and it sends nothing when
    -- the retransmission is to be suppressed.
    pub after_receive_interest_lem :
        (fw : Forwarder Name) (interest : Interest Name) (ingress : FaceEndpoint) (i now : ℕ)
        (s : Stored Name) (e : Entry Name) (suppression : RetxSuppressionResult)
        → get fw.pit i ≡ some s
        → decide_per_pit_entry retx s.entry now ≡ some (e, suppression)
        → let fw' = after_receive_interest env retx is_less_severe fw interest ingress i now in
          SendsAtMostOne fw interest ingress.face e (lookup_fib env fw e).next_hops fw'
          × (suppression ≡ suppress → fw'.sent ≡ fw.sent)
    unfolding after_receive_interest
    after_receive_interest_lem fw interest ingress i now s e suppression there decided =
        rw (there, decided, after_receive_interest)
          (
            forward_by_lem (modify_entry (store_interval env retx is_less_severe now) i fw) interest
                ingress.face e i now suppression,
            λ h. rw h refl,
          )
