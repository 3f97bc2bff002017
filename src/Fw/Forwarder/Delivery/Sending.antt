-- ===== src/Fw/Forwarder/Delivery/Sending.antt =====
-- The loop of onIncomingData over the downstreams (daemon/fw/forwarder.cpp).
use mathlib.Core.Path.{subst, sym, ◌∙◌}
use nfd.Base.{
  ◌≡◌, refl, ◌⊎◌, inl, inr, Bool, true, false, List, [], ◌∷◌, IsOneOf, Bool-cases, ◌==◌, ap,
  if◌then◌else◌,
}
use nfd.Packet.{Face, Data, invalid_face_id}
use nfd.Fw.Forwarder.{
  Forwarder, Env, FaceEndpoint, Sent, sent_data, id_in, violates_localhost, on_outgoing_data,
}
use nfd.Fw.Strategy.{Strategy}
use nfd.Fw.Forwarder.IncomingData.{send_loop, is_ingress}

module _ {Name : Type 0} (env : Env Name) (strategy_of : Name → Strategy env) (packet : Data Name)
    (ingress : FaceEndpoint) where
  sent-outgoing_data :
      (fw : Forwarder Name) (egress : Face) (p : Sent Name)
      → IsOneOf p fw.sent
      → IsOneOf p (on_outgoing_data env fw packet egress).0.sent
  unfolding on_outgoing_data
  sent-outgoing_data fw egress p there =
      elim (Bool-cases (id_in fw.sent egress == invalid_face_id)) [
        | inl invalid ↦ rw (invalid, on_outgoing_data) there
        | inr valid ↦ elim (Bool-cases (violates_localhost env.names egress packet.name)) [
          | inl violates ↦ rw (valid, violates, on_outgoing_data) there
          | inr allowed ↦ rw (valid, allowed, on_outgoing_data) (inr there)
        ]
      ]

  if_sent :
      (p : Sent Name) (fw fw' : Forwarder Name) (test : Bool)
      → IsOneOf p fw.sent
      → IsOneOf p fw'.sent
      → IsOneOf p (if test then fw else fw').sent
  if_sent p fw fw' true there also = there
  if_sent p fw fw' false there also = also

  send_keeps :
      (ds : List FaceEndpoint) (fw : Forwarder Name) (p : Sent Name)
      → IsOneOf p fw.sent
      → IsOneOf p (send_loop env strategy_of ds fw packet ingress).sent
  unfolding send_loop
  send_keeps [] fw p there = there
  send_keeps (d ∷ ds) fw p there = send_keeps ds _ p (
      if_sent p fw _ (is_ingress env strategy_of ingress d) there
        (sent-outgoing_data fw d.face p there))

  -- What a face is after the log stays so.
  id-outgoing_data :
      (fw : Forwarder Name) (egress face : Face)
      → id_in (on_outgoing_data env fw packet egress).0.sent face ≡ id_in fw.sent face
  unfolding on_outgoing_data
  id-outgoing_data fw egress face = elim (Bool-cases (id_in fw.sent egress == invalid_face_id)) [
    | inl invalid ↦ rw (invalid, on_outgoing_data) refl
    | inr valid ↦ elim (Bool-cases (violates_localhost env.names egress packet.name)) [
      | inl violates ↦ rw (valid, violates, on_outgoing_data) refl
      | inr allowed ↦ rw (valid, allowed, on_outgoing_data) refl
    ]
  ]

  if_id :
      (face : Face) (fw fw' : Forwarder Name) (test : Bool)
      → id_in fw'.sent face ≡ id_in fw.sent face
      → id_in (if test then fw else fw').sent face ≡ id_in fw.sent face
  if_id face fw fw' true same = refl
  if_id face fw fw' false same = same

  id-send_loop :
      (ds : List FaceEndpoint) (fw : Forwarder Name) (face : Face)
      → id_in (send_loop env strategy_of ds fw packet ingress).sent face ≡ id_in fw.sent face
  unfolding send_loop
  id-send_loop [] fw face = refl
  id-send_loop (d ∷ ds) fw face =
      id-send_loop ds _ face
      ∙ if_id face fw _ (is_ingress env strategy_of ingress d) (id-outgoing_data fw d.face face)

  -- Data is sent to the downstream, unless it is the one the Data comes from, or its face is
  -- removed, or may not carry the name.
  abbrev pub IsServed : FaceEndpoint → Forwarder Name → Type 0
  IsServed d fw =
      (is_ingress env strategy_of ingress d ≡ true)
      ⊎ ((id_in fw.sent d.face == invalid_face_id) ≡ true)
      ⊎ (violates_localhost env.names d.face packet.name ≡ true)
      ⊎ IsOneOf (sent_data d.face packet) fw.sent

  send_loop-IsServed :
      (ds : List FaceEndpoint) (fw : Forwarder Name) (d : FaceEndpoint)
      → IsServed d fw
      → IsServed d (send_loop env strategy_of ds fw packet ingress)
  send_loop-IsServed ds fw d (inl same) = inl same
  send_loop-IsServed ds fw d (inr (inl invalid)) =
      inr (inl (ap (λ id. id == invalid_face_id) (id-send_loop ds fw d.face) ∙ invalid))
  send_loop-IsServed ds fw d (inr (inr (inl violates))) = inr (inr (inl violates))
  send_loop-IsServed ds fw d (inr (inr (inr sent))) =
      inr (inr (inr (send_keeps ds fw (sent_data d.face packet) sent)))

  outgoing-IsServed :
      (fw : Forwarder Name) (d : FaceEndpoint)
      → IsServed d (on_outgoing_data env fw packet d.face).0
  unfolding on_outgoing_data
  outgoing-IsServed fw d = elim (Bool-cases (id_in fw.sent d.face == invalid_face_id)) [
    | inl invalid ↦ rw (invalid, on_outgoing_data) (inr (inl invalid))
    | inr valid ↦ elim (Bool-cases (violates_localhost env.names d.face packet.name)) [
      | inl violates ↦ inr (inr (inl violates))
      | inr allowed ↦ rw (valid, allowed, on_outgoing_data) (inr (inr (inr (inl refl))))
    ]
  ]

  step-IsServed :
      (fw : Forwarder Name) (d : FaceEndpoint) (test : Bool)
      → is_ingress env strategy_of ingress d ≡ test
      → IsServed d (if test then fw else (on_outgoing_data env fw packet d.face).0)
  step-IsServed fw d true from = inl from
  step-IsServed fw d false other = outgoing-IsServed fw d

  pub send-IsServed :
      (ds : List FaceEndpoint) (fw : Forwarder Name) (d : FaceEndpoint)
      → IsOneOf d ds
      → IsServed d (send_loop env strategy_of ds fw packet ingress)
  unfolding send_loop
  send-IsServed [] fw d none_there = elim none_there [ ]
  send-IsServed (x ∷ ds) fw d (inr later) = send-IsServed ds _ d later
  send-IsServed (x ∷ ds) fw d (inl same) =
      subst (λ y. IsServed y (send_loop env strategy_of (x ∷ ds) fw packet ingress)) (sym same)
        (send_loop-IsServed ds _ x (step-IsServed fw x (is_ingress env strategy_of ingress x) refl))
